-- ===== src/Coordinator/Store/Quiet.antt =====
-- A save makes a directory, writes a file, and does nothing else.
use browserlogin_client.Prelude.{String, Option, none, some}
use browserlogin_client.Recovery.{RecoveryState}
use browserlogin_client.Recovery.Validate.{Fault, validate}
use browserlogin_client.Coordinator.World.{
  Written, saved, failed_before, failed_after, Disk, make_dir, write_state, Env, Options, World,
}
use browserlogin_client.Coordinator.Exec.{logged}
use browserlogin_client.Coordinator.Spec.{
  Spec, Spec-pure, Spec-throw, Spec-bind, Spec-call, Spec-observe,
}
use browserlogin_client.Coordinator.Store.{accept, check, end_write, write, save}

-- What both calls and any change of the files keep, a save keeps.
module _ (env : Env) (opts : Options) (P : World → Type 0)
    (made : (w : World) (path : String) → P w → P (logged w (make_dir path)))
    (wrote : (w : World) (path : String) → P w → P (logged w (write_state path)))
    (replaced : (w : World) (d : Disk) → P w → P (record w { disk = d })) where
  end_write-Quiet :
      (path : String) (s : RecoveryState) (ended : Written)
      → Spec P (end_write env opts path s ended) (λ _. P) P
  unfolding end_write
  end_write-Quiet path s saved = record { at = λ w h. replaced w _ h }
  end_write-Quiet path s (failed_before f) = record { at = λ w h. h }
  end_write-Quiet path s (failed_after f) = record { at = λ w h. replaced w _ h }

  check-Quiet : (s : RecoveryState) → Spec P (check env opts s) (λ _. P) P
  unfolding check accept
  check-Quiet s = by_fault (validate s)
    where
      by_fault : (f : Option Fault) → Spec P (accept env opts s f) (λ _. P) P
      by_fault none = Spec-pure s (λ w h. h)
      by_fault (some f) = Spec-throw _ (λ w h. h)

  pub save-Quiet : (s : RecoveryState) → Spec P (save env opts s) (λ _. P) P
  unfolding save write
  save-Quiet s = Spec-bind _ _ (check-Quiet s) λ v.
      Spec-bind {R = λ _. P} _ _ (Spec-call _ _ (λ w h a. made w _ h) (λ w h. made w _ h)) λ _.
        Spec-bind {R = λ _. P} _ _ (Spec-observe _ _ (λ w h a. wrote w _ h))
          (λ ended. end_write-Quiet _ v ended)
