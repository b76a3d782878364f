-- ===== src/Coordinator/Recover/Resolve.antt =====
-- `resolveUploadAmbiguous` from a file whose state is known.
use browserlogin_client.Prelude.{
  String, true, false, not, Option, none, some, ◌≡◌, refl, truthy, ◌&&◌,
}
use browserlogin_client.Json.{obj, end, field}
use browserlogin_client.Recovery.{
  RecoveryState, RecoveryStatus, ArchiveRecord, upload_pending, upload_ambiguous,
  is_upload_ambiguous,
}
use browserlogin_client.Recovery.Text.{safe_text}
use browserlogin_client.Coordinator.World.{current, archive_of, Env, Options, World}
use browserlogin_client.Coordinator.Spec.{
  Spec, Spec-throw, Spec-bind, Spec-if, Spec-weaken, Spec-fact, Spec-throw_if,
}
use browserlogin_client.Coordinator.Store.{path_for, immutable_key}
use browserlogin_client.Coordinator.Store.Files.{save-At, with_transition-Spec}
use browserlogin_client.Coordinator.Store.Reload.{require-current}
use browserlogin_client.Coordinator.Guard.{Rule, IsRule, At}
use browserlogin_client.Coordinator.Guard.Steps.{At-none, At-logged, transition-At}
use browserlogin_client.Coordinator.Recover.{
  storage_payload, resolve_archive, resolve_work, resolve_upload,
}

is_upload_ambiguous-only :
    (s : RecoveryStatus) → not (is_upload_ambiguous s) ≡ false → s ≡ upload_ambiguous
is_upload_ambiguous-only upload_ambiguous e = refl
is_upload_ambiguous-only _ e = cc

-- The key of the stop that commits the archive stored under this id.
abbrev pub commit_key : Env → Options → RecoveryState → String → ArchiveRecord → String
commit_key env opts s storage a =
    immutable_key env opts "stop" s.run_id (archive_of (obj (storage_payload storage a)))

-- The state with that commit recorded.
abbrev pub resolution :
    Env → Options → RecoveryState → String → ArchiveRecord → String → RecoveryState
resolution env opts s storage a time = record s {
  stop_key = some (commit_key env opts s storage a);
  stop_payload = some (field "archive" (obj (storage_payload storage a)) end);
  uploaded_storage_id = some storage;
  status = upload_pending;
  updated_at = time;
}

-- The state was ambiguous, with an archive, and this is what its resolution needs.
abbrev pub Resolves : RecoveryState → String → ArchiveRecord → Type 0
Resolves s storage a =
    (s.status ≡ upload_ambiguous)
    × (truthy s.archive_artifact && safe_text storage ≡ true)
    × (s.archive ≡ some a)

module _ {env : Env} {opts : Options} {G : Rule} (rule : IsRule env opts G) (s : RecoveryState)
    (profile storage : String) where
  -- The file has the resolution.
  abbrev pub HasResolution : World → Type 0
  HasResolution w =
      (a : ArchiveRecord) × (time : String) × Resolves s storage a
      × At env opts G (some (resolution env opts s storage a time)) w

  abbrev pub Named : World → Type 0
  Named w = At env opts G none w × (w.disk (path_for env opts profile) ≡ some (current s))

  resolve_archive-HasResolution :
      (a : Option ArchiveRecord)
      → s.archive ≡ a
      → s.status ≡ upload_ambiguous
      → Spec
          (At env opts G (some s))
          (resolve_archive env opts s storage a)
          (λ _. HasResolution)
          (At env opts G none)
  unfolding resolve_archive
  resolve_archive-HasResolution none e ambiguous = Spec-throw _ At-none
  resolve_archive-HasResolution (some a) e ambiguous =
      Spec-if (truthy s.archive_artifact && safe_text storage) _ _
        (λ fit. Spec-bind _ _ (transition-At rule _ upload_pending) λ next. Spec-fact λ m.
          Spec-weaken (λ w h. h) (λ _ w h. (a, m.0, (ambiguous, fit, e), rw (← m.1) h)) (λ w h. h)
            (save-At rule next))
        (λ _. Spec-throw _ At-none)

  pub resolve_upload-HasResolution :
      Spec Named (resolve_upload env opts profile storage) (λ _. HasResolution) (At env opts G none)
  unfolding resolve_upload resolve_work
  resolve_upload-HasResolution =
      with_transition-Spec env opts (λ e w q h. (At-logged rule e w q h.0, h.1))
        (λ r e w q h. (h.0, h.1, h.2, At-logged rule e w q h.3)) (At-logged rule) (λ w h. h.0)
        profile _
        (Spec-bind _ _ (require-current rule s profile) λ t. Spec-fact λ same. rw (← same) (
          Spec-bind _ _ (Spec-throw_if _ _ At-none) (λ _. Spec-fact λ e.
            resolve_archive-HasResolution s.archive refl (is_upload_ambiguous-only s.status e))))
