-- ===== src/Coordinator/Stop/Safety/Upload.antt =====
-- What `stopLocked` has in the recovery file when it uploads and when it commits.
use browserlogin_client.Prelude.{String, Option, none, some, ◌≡◌, refl, ap, ◌∙◌, str_eq, arith}
use browserlogin_client.Json.{Fields}
use browserlogin_client.Recovery.{RecoveryState, upload_ambiguous, upload_pending}
use browserlogin_client.Coordinator.World.{Digest, Env, Options}
use browserlogin_client.Coordinator.Exec.{throw, try_catch}
use browserlogin_client.Coordinator.Spec.{
  Spec, Spec-throw, Spec-bind, Spec-if, Spec-throw_if, Spec-fact, Spec-try,
}
use browserlogin_client.Coordinator.Store.Files.{save-At}
use browserlogin_client.Coordinator.Guard.{Ended, Rule, IsRule, At}
use browserlogin_client.Coordinator.Guard.Steps.{
  At-none, Keeps-call, Keeps-pure, Keeps-throw_if, Keeps-transition, Keeps-crash_at, Keeps-guarded,
  transition-At,
}
use browserlogin_client.Coordinator.Stop.{
  persisted_commit, upload_once, mark_ambiguous, pending, commit_upload, upload, stop_afresh,
  stop_or_resume, stop_confirmed, stop_session_of, stop_locked,
}
use browserlogin_client.Coordinator.Stop.Safety.{
  AllowsStop, Uploads, archive_once-At, commit_persisted-Ended, finish_commit-Ended,
  persisted_commit-Commits, stop_browser-At,
}

module _ {env : Env} {opts : Options} {G : Rule} (rule : IsRule env opts G) where
  module _ (may : AllowsStop env opts G) where
    commit_upload-Ended :
        {o : Option RecoveryState} (s : RecoveryState) (session storage : String) (d : Digest)
        → s.remote_session_id ≡ some session
        → Spec
            (At env opts G o)
            (commit_upload env opts s session storage d)
            (Ended env opts G s.profile_id)
            (At env opts G none)
    unfolding commit_upload pending
    commit_upload-Ended s session storage d e =
        Spec-bind _ _ (transition-At rule _ upload_pending) λ next. Spec-fact λ moved.
          rw (moved.1) (
            Spec-bind _ _ (save-At rule _) λ _. Spec-bind _ _ (Keeps-crash_at rule _) λ _.
              Spec-bind _ _
                (Keeps-guarded rule _ _ (λ d h. may.commit _ d session _ _ h (refl, e, refl, refl)))
                λ r. finish_commit-Ended rule _ session r)

    upload-Ended :
        (s : RecoveryState) (session artifact : String)
        → s.remote_session_id ≡ some session
        → s.archive_artifact ≡ some artifact
        → Spec
            (At env opts G (some s))
            (upload env opts s session artifact)
            (Ended env opts G s.profile_id)
            (At env opts G none)
    unfolding upload upload_once mark_ambiguous
    upload-Ended s session artifact e f = Spec-bind _ _ (Keeps-call rule _ _ refl) λ d.
        Spec-bind _ _ (Spec-throw_if _ _ At-none) λ _. Spec-fact λ same.
          Spec-bind _ _ (Keeps-call rule _ _ refl) λ _.
            Spec-bind _ _ (transition-At rule s upload_ambiguous) λ sending. Spec-fact λ moved.
              rw (moved.1) (
                Spec-bind _ _ (save-At rule _) λ _.
                  Spec-bind _ _ (uploads d _ (refl, e, f, ground arith)) λ storage.
                    commit_upload-Ended
                      (record s { status = upload_ambiguous; updated_at = moved.0 }) session storage
                      d e)
      where
        uploads :
            (d : Digest) (t : RecoveryState)
            → Uploads t artifact session d
            → Spec
                (At env opts G (some t))
                (try_catch (upload_once env opts t session artifact d) (mark_ambiguous env opts t))
                (λ _. At env opts G (some t))
                (At env opts G none)
        uploads d t u =
            Spec-try _ _
              (Spec-bind _ _
                (Keeps-guarded rule _ _ (λ d' h. may.upload t d' artifact session d h u))
                λ storage. Spec-bind _ _ (Keeps-throw_if _ _) (λ _. Keeps-pure storage))
              λ x.
                Spec-bind _ _ (Keeps-transition rule _ _)
                  λ again. Spec-bind _ _ (save-At rule again) (λ _. Spec-throw x At-none)

    stop_afresh-Ended :
        {o : Option RecoveryState} (s : RecoveryState) (session : String)
        → s.remote_session_id ≡ some session
        → Spec
            (At env opts G o)
            (stop_afresh env opts s session)
            (Ended env opts G s.profile_id)
            (At env opts G none)
    unfolding stop_afresh
    stop_afresh-Ended s session e = Spec-bind _ _ (stop_browser-At rule s) λ halted.
        Spec-fact λ moved. Spec-bind _ _ (archive_once-At rule halted) λ p. Spec-fact λ packed.
          let same : p.profile_id ≡ s.profile_id =
            packed.profile ∙ ap (λ (v : RecoveryState). v.profile_id) moved.1 in
          let here : p.remote_session_id ≡ some session =
            packed.session ∙ ap (λ (v : RecoveryState). v.remote_session_id) moved.1 ∙ e in
          rw (← same) (upload-Ended p session _ here packed.packed)

    stop_or_resume-Ended :
        (s : RecoveryState) (session : String) (c : Option (String × Fields))
        → s.remote_session_id ≡ some session
        → persisted_commit s ≡ c
        → Spec
            (At env opts G (some s))
            (stop_or_resume env opts s session c)
            (Ended env opts G s.profile_id)
            (At env opts G none)
    unfolding stop_or_resume
    stop_or_resume-Ended s session none e f = stop_afresh-Ended s session e
    stop_or_resume-Ended s session (some (key, payload)) e f =
        commit_persisted-Ended rule s session key payload (λ d h.
          may.commit s d session key payload h (persisted_commit-Commits s session key payload e f))

    -- A stop that returns has removed the recovery file; its calls kept the rule.
    pub stop_locked-Ended :
        (s : RecoveryState)
        → Spec
            (At env opts G (some s))
            (stop_locked env opts s)
            (Ended env opts G s.profile_id)
            (At env opts G none)
    unfolding stop_locked
    stop_locked-Ended s = by_session s.remote_session_id refl
      where
        confirmed :
            (session : String)
            → s.remote_session_id ≡ some session
            → Spec
                (At env opts G (some s))
                (stop_confirmed env opts s session)
                (Ended env opts G s.profile_id)
                (At env opts G none)
        confirmed session e =
            Spec-bind _ _ (Keeps-throw_if _ _)
              λ _. Spec-bind _ _ (Keeps-throw_if _ _) (λ _. stop_or_resume-Ended s session _ e refl)

        by_session :
            (r : Option String)
            → s.remote_session_id ≡ r
            → Spec
                (At env opts G (some s))
                (stop_session_of env opts s r)
                (Ended env opts G s.profile_id)
                (At env opts G none)
        by_session none e = Spec-throw _ At-none
        by_session (some session) e =
            Spec-if (str_eq session "") (throw _) _ (λ _. Spec-throw _ At-none)
              (λ _. confirmed session e)
