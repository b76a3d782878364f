-- ===== src/Coordinator/Stop/Safety.antt =====
-- What `stopLocked`, `reconcileLocked` and `forceStopLocked` have in the recovery file when they
-- upload, commit and force.
pub mod Upload
use browserlogin_client.Prelude.{
  String, true, false, not, Option, none, some, ◌≡◌, refl, ap, eq_iff, ◌∙◌, str_eq, truthy, arith,
}
use browserlogin_client.Json.{Json, obj, Fields}
use browserlogin_client.Recovery.{RecoveryState, archive_ready, upload_ambiguous, upload_pending}
use browserlogin_client.Recovery.Validate.{payload_get}
use browserlogin_client.Coordinator.World.{
  Session, Digest, Env, Options, Disk, direct_upload, stop_session,
}
use browserlogin_client.Coordinator.Exec.{pure, throw, try_catch}
use browserlogin_client.Coordinator.Spec.{
  Spec, Spec-pure, Spec-throw, Spec-bind, Spec-if, Spec-throw_if, Spec-fact, Spec-try,
}
use browserlogin_client.Coordinator.Store.Files.{save-At}
use browserlogin_client.Coordinator.Guard.{Ended, Rule, IsRule, At, Keeps, Stands}
use browserlogin_client.Coordinator.Guard.Steps.{
  At-none, Keeps-call, Keeps-pure, Keeps-throw, Keeps-throw_if, Keeps-transition, Keeps-crash_at,
  Keeps-guarded, transition-At,
}
use browserlogin_client.Coordinator.Fields.{clear_session}
use browserlogin_client.Coordinator.Cleanup.Safety.{halt-Keeps, adopt_committed-Ended, IsEnd}
use browserlogin_client.Coordinator.Stop.{
  persisted_commit, commit_fields, same_archive, with_archive, committed, finish_commit,
  digest_artifact, commit_persisted, stop_browser, artifact_path, pack, archive_once, upload_once,
  mark_ambiguous, pending, commit_upload, upload, stop_afresh, stop_or_resume, stop_confirmed,
  stop_session_of, stop_locked,
}

-- The state commits the archive of its session: the key and the payload are in it.
abbrev pub Commits : RecoveryState → String → String → Fields → Type 0
Commits s session key payload =
    (s.status ≡ upload_pending)
    × (s.remote_session_id ≡ some session)
    × (s.stop_key ≡ some key)
    × (payload_get "archive" s.stop_payload ≡ some (obj payload))

-- The state is about to upload these bytes of this file for its session.
abbrev pub Uploads : RecoveryState → String → String → Digest → Type 0
Uploads s path session d =
    (s.status ≡ upload_ambiguous)
    × (s.remote_session_id ≡ some session)
    × (s.archive_artifact ≡ some path)
    × (same_archive s.archive d ≡ true)

-- The rule allows the calls of a stop from such states.
pub record AllowsStop (env : Env) (opts : Options) (G : Rule) : Type 0 where
  pub upload :
      (s : RecoveryState) (d : Disk) (path session : String) (b : Digest)
      → Stands env opts d s
      → Uploads s path session b
      → G.allows (direct_upload path session b) d
  pub commit :
      (s : RecoveryState) (d : Disk) (session key : String) (payload : Fields)
      → Stands env opts d s
      → Commits s session key payload
      → G.allows (stop_session session (some (obj payload)) key) d

commit_fields-eq-some :
    (k : Option String) (j : Option Json) (key : String) (payload : Fields)
    → commit_fields k j ≡ some (key, payload)
    → (k ≡ some key) × (j ≡ some (obj payload))
commit_fields-eq-some (some k) (some (obj fs)) key payload e = ground arith
commit_fields-eq-some none j key payload e = cc
commit_fields-eq-some _ _ key payload e = cc

persisted_commit-Commits :
    (s : RecoveryState) (session key : String) (payload : Fields)
    → s.remote_session_id ≡ some session
    → persisted_commit s ≡ some (key, payload)
    → Commits s session key payload
unfolding persisted_commit
persisted_commit-Commits s session key payload r e =
    let parts =
      commit_fields-eq-some s.stop_key (payload_get "archive" s.stop_payload) key payload in
    ground (arith, parts)

-- What `stopLocked` has when it uploads: the same session, and the artifact's path.
record Packed (s : RecoveryState) (artifact : String) (p : RecoveryState) : Type 0 where
  profile : p.profile_id ≡ s.profile_id
  session : p.remote_session_id ≡ s.remote_session_id
  packed : p.archive_artifact ≡ some artifact

committed-IsEnd :
    (s : RecoveryState) (session : String) (r : Session)
    → not (committed s session r) ≡ false
    → IsEnd s r
committed-IsEnd s session r done =
    ((eq_iff r.profile_id s.profile_id).0 (ground arith), ground arith)

module _ {env : Env} {opts : Options} {G : Rule} (rule : IsRule env opts G) where
  finish_commit-Ended :
      {o : Option RecoveryState} (s : RecoveryState) (session : String) (r : Session)
      → Spec
          (At env opts G o)
          (finish_commit env opts s session r)
          (Ended env opts G s.profile_id)
          (At env opts G none)
  unfolding finish_commit
  finish_commit-Ended s session r = Spec-bind _ _ (Spec-throw_if _ _ At-none) λ _. Spec-fact λ done.
      Spec-bind _ _ (Keeps-crash_at rule _)
        (λ _. adopt_committed-Ended rule s r (committed-IsEnd s session r done))

  digest_artifact-Keeps :
      {o : Option RecoveryState} (path : Option String)
      → Keeps env opts G o (digest_artifact env opts path)
  unfolding digest_artifact
  digest_artifact-Keeps none = Keeps-throw _
  digest_artifact-Keeps (some path) = Keeps-call rule _ _ refl

  stop_browser-At :
      {o : Option RecoveryState} (s : RecoveryState)
      → Spec
          (At env opts G o)
          (stop_browser env opts s)
          (λ v w.
            ((t : String) × (v
                ≡ clear_session (record s { status = archive_ready; updated_at = t })))
            × At env opts G (some v) w)
          (At env opts G none)
  unfolding stop_browser
  stop_browser-At s = Spec-bind _ _ (transition-At rule s archive_ready) λ ready. Spec-fact λ moved.
      Spec-bind _ _ (save-At rule ready) λ _. Spec-bind _ _ (Keeps-crash_at rule _) λ _.
        Spec-bind _ _ (halt-Keeps rule ready) λ _.
          Spec-bind _ _ (save-At rule (clear_session ready))
            λ _. Spec-pure _ (λ w h. ((moved.0, ap clear_session moved.1), h))

  archive_once-At :
      (s : RecoveryState)
      → Spec
          (At env opts G (some s))
          (archive_once env opts s (artifact_path env opts s))
          (λ p w. Packed s (artifact_path env opts s) p × At env opts G (some p) w)
          (At env opts G none)
  unfolding archive_once artifact_path
  archive_once-At s = Spec-bind _ _ (Keeps-call rule _ _ refl) λ _.
      Spec-if (truthy s.archive_artifact) (pure s) _
        (λ t.
          Spec-pure s
            (λ w h. (record { profile = refl; session = refl; packed = ground arith }, h)))
        (λ _. pack-At s _)
    where
      pack-At :
          (s : RecoveryState) (artifact : String)
          → Spec
              (At env opts G (some s))
              (pack env opts s artifact)
              (λ p w. Packed s artifact p × At env opts G (some p) w)
              (At env opts G none)
      pack-At s artifact = Spec-bind _ _ (Keeps-call rule _ _ refl) λ d.
          Spec-bind _ _ (save-At rule (with_archive s artifact d))
            λ _. Spec-pure _ (λ w h. (record { profile = refl; session = refl; packed = refl }, h))

  -- A persisted commit is sent again, where the rule allows that call.
  pub commit_persisted-Ended :
      (s : RecoveryState) (session key : String) (payload : Fields)
      → ((d : Disk)
          → Stands env opts d s
          → G.allows (stop_session session (some (obj payload)) key) d)
      → Spec
          (At env opts G (some s))
          (commit_persisted env opts s session key payload)
          (Ended env opts G s.profile_id)
          (At env opts G none)
  unfolding commit_persisted
  commit_persisted-Ended s session key payload allowed =
      Spec-bind _ _ (digest_artifact-Keeps s.archive_artifact) λ d.
        Spec-bind _ _ (Keeps-throw_if _ _)
          λ _. Spec-bind _ _ (Keeps-guarded rule _ _ allowed) λ r. finish_commit-Ended s session r
