-- ===== src/Coordinator/Outcomes/Resolve.antt =====
-- What `resolveUploadAmbiguous` leaves in the recovery file, and what the stop that follows sends.
use Prim.Native.Char.{Char}
use Prim.Native.String.{◌∷◌}
use Prim.Native.String.append.{cons}
use Prim.Native.String.compare.{cons-nil}
use text.Mathlib.Text.{is_eq}
use browserlogin_client.Prelude.{String, false, none, some, ◌≡◌, refl, ap, ◌∙◌, str_eq, append}
use browserlogin_client.Recovery.{RecoveryState, ArchiveRecord}
use browserlogin_client.Coordinator.World.{ok, current, Env, Options, World}
use browserlogin_client.Coordinator.Spec.{Spec-returns}
use browserlogin_client.Coordinator.Store.{path_for, immutable_key}
use browserlogin_client.Coordinator.Guard.{Stands}
use browserlogin_client.Coordinator.Guard.Rules.{Since, SinceRule-IsRule}
use browserlogin_client.Coordinator.Stop.{persisted_commit, stop_locked}
use browserlogin_client.Coordinator.Recover.{storage_payload, resolve_upload}
use browserlogin_client.Coordinator.Recover.Resolve.{
  Resolves, commit_key, resolution, resolve_upload-HasResolution,
}
use browserlogin_client.Coordinator.Outcomes.{Unguarded, Resends, unmoved, stop_locked-resends}

-- A text is not empty after a letter.
str_eq-append_empty : (c : Char) (s t : String) → str_eq (append (c ∷ s) t) "" ≡ false
str_eq-append_empty c s t =
    ap (λ x. str_eq x "") (λ i. cons c s t i) ∙ ap is_eq (λ i. cons-nil c (append s t) i)

module _ (env : Env) (opts : Options) where
  resolution-commit :
      (s : RecoveryState) (storage : String) (a : ArchiveRecord) (time : String)
      → persisted_commit (resolution env opts s storage a time)
        ≡ some (commit_key env opts s storage a, storage_payload storage a)
  unfolding persisted_commit immutable_key
  resolution-commit s storage a time = rw (str_eq-append_empty "s" "top" _) refl

  -- When the profile's recovery file holds a state that has a session, and `resolveUploadAmbiguous`
  -- returns for this storage id: the state was upload-ambiguous and has an archive and its artifact;
  -- the id is a text that the method accepts; no session, upload or runner call was made; the file
  -- holds the state with the commit of that archive under that id, in upload-pending; and from there
  -- `stopLocked` uploads, starts, launches and forces nothing, and every stop that it sends is that
  -- commit of that session.
  pub resolve_upload-commits :
      (profile storage session : String) (s : RecoveryState) (w w' : World)
      → w.disk (path_for env opts profile) ≡ some (current s)
      → s.remote_session_id ≡ some session
      → resolve_upload env opts profile storage w ≡ (ok tt, w')
      → (a : ArchiveRecord) × (time : String) × Resolves s storage a
        × Stands env opts w'.disk (resolution env opts s storage a time)
        × Since Unguarded w.trace w'.trace
        × Since
            (Resends session (commit_key env opts s storage a) (storage_payload storage a))
            w'.trace
            (stop_locked env opts (resolution env opts s storage a time) w').1.trace
  resolve_upload-commits profile storage session s w w' file has_session e =
      let h =
        Spec-returns
          (resolve_upload-HasResolution (SinceRule-IsRule env opts Unguarded w (λ e d h. h)) s
            profile storage)
          (unmoved env opts Unguarded none w tt, file) e in
      (
        h.0,
        h.1,
        h.2,
        h.3.stored,
        h.3.guarded,
        stop_locked-resends env opts (resolution env opts s storage h.0 h.1) session _ _ w'
            h.3.stored has_session (resolution-commit s storage h.0 h.1),
      )
