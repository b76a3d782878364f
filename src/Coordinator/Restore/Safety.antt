-- ===== src/Coordinator/Restore/Safety.antt =====
-- Restoring a profile's archive leaves its recovery file alone.
use browserlogin_client.Prelude.{String, Bool, true, false, Option, none, some, refl}
use browserlogin_client.Recovery.{RecoveryState, ArchiveRecord}
use browserlogin_client.Coordinator.World.{
  ArchiveReference, Resolved, hit, miss, corrupt, storage_error, Failure, browser_login,
  invalid_state, state_error, storage, outside, Result, ok, err, Env, Options,
}
use browserlogin_client.Coordinator.Exec.{when, skip}
use browserlogin_client.Coordinator.Spec.{Spec, Spec-pure, Spec-bind, Spec-if, Spec-try}
use browserlogin_client.Coordinator.Guard.{Rule, IsRule, At, Keeps}
use browserlogin_client.Coordinator.Guard.Steps.{
  call-At, Keeps-bind, Keeps-call, Keeps-observe, Keeps-skip, Keeps-throw,
}
use browserlogin_client.Coordinator.Restore.{
  drop_entry, extract_from, fetch, refresh, unless_storage, fetch_and_refresh, after_extract,
  restore_resolved, restore_archive,
}

module _ {env : Env} {opts : Options} {G : Rule} {o : Option RecoveryState}
    (rule : IsRule env opts G) where
  drop_entry-At :
      (ref : ArchiveReference)
      → Spec (At env opts G o) (drop_entry env ref) (λ _. At env opts G o) (At env opts G o)
  unfolding drop_entry
  drop_entry-At ref = call-At rule _ _ refl

  refresh-At :
      (ref : ArchiveReference) (path : String) (invalid : Bool)
      → Spec
          (At env opts G o)
          (refresh env ref path invalid)
          (λ _. At env opts G o)
          (At env opts G o)
  unfolding refresh when skip
  refresh-At ref path invalid =
      Spec-bind _ _ (Spec-if invalid _ skip (λ _. drop_entry-At ref) (λ _. Spec-pure tt (λ w h. h)))
        (λ _. call-At rule _ _ refl)

  unless_storage-Keeps : (f : Failure) → Keeps env opts G o (unless_storage env f)
  unfolding unless_storage
  unless_storage-Keeps (storage text) = Keeps-skip
  unless_storage-Keeps (browser_login text) = Keeps-throw _
  unless_storage-Keeps (invalid_state f) = Keeps-throw _
  unless_storage-Keeps (state_error text) = Keeps-throw _
  unless_storage-Keeps (outside text) = Keeps-throw _

  fetch-Keeps :
      (profile : String) (a : ArchiveRecord) (path dir : String)
      → Keeps env opts G o (fetch env profile a path dir)
  unfolding fetch extract_from
  fetch-Keeps profile a path dir =
      Keeps-bind _ _ (Keeps-call rule _ _ refl) (λ _. Keeps-call rule _ _ refl)

  fetch_and_refresh-Keeps :
      (ref : ArchiveReference) (profile : String) (a : ArchiveRecord) (path dir : String)
      (invalid : Bool)
      → Keeps env opts G o (fetch_and_refresh env ref profile a path dir invalid)
  unfolding fetch_and_refresh
  fetch_and_refresh-Keeps ref profile a path dir invalid =
      Keeps-bind _ _ (fetch-Keeps profile a path dir)
        (λ _. Spec-try _ _ (refresh-At ref path invalid) unless_storage-Keeps)

  restore_resolved-Keeps :
      (ref : ArchiveReference) (profile : String) (a : ArchiveRecord) (path dir : String)
      (found : Resolved)
      → Keeps env opts G o (restore_resolved env ref profile a path dir found)
  unfolding restore_resolved after_extract
  restore_resolved-Keeps ref profile a path dir (hit cached) =
      Keeps-bind _ _ (Keeps-observe rule _ _ refl) (λ extracted. extracted_then extracted)
    where
      extracted_then :
          (r : Result (Unit {0})) → Keeps env opts G o (after_extract env ref profile a path dir r)
      extracted_then (ok u) = Keeps-skip
      extracted_then (err f) =
          Keeps-bind _ _ (Keeps-call rule _ _ refl)
            (λ _. fetch_and_refresh-Keeps ref profile a path dir false)
  restore_resolved-Keeps ref profile a path dir miss = fetch_and_refresh-Keeps _ _ _ _ _ false
  restore_resolved-Keeps ref profile a path dir storage_error =
      fetch_and_refresh-Keeps _ _ _ _ _ false
  restore_resolved-Keeps ref profile a path dir corrupt = fetch_and_refresh-Keeps _ _ _ _ _ true

  pub restore_archive-Keeps :
      (origin : Option String) (profile : String) (a : ArchiveRecord) (path dir : String)
      → Keeps env opts G o (restore_archive env origin profile a path dir)
  unfolding restore_archive
  restore_archive-Keeps none profile a path dir = fetch-Keeps profile a path dir
  restore_archive-Keeps (some origin) profile a path dir =
      Keeps-bind _ _ (Keeps-call rule _ _ refl)
        (λ found. restore_resolved-Keeps _ profile a path dir found)
