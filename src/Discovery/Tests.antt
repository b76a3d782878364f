-- ===== src/Discovery/Tests.antt =====
-- The discovery cache at small runs.
use browserlogin_client.Prelude.{true, List, [], ◌∷◌, ◌≡◌, refl}
use browserlogin_client.Discovery.{
  absent, live, found, refused, unreachable, Cache, initial, discovers, answers, settles, aborts,
  shuts_down, retries_at, advance, advance_all, proceed, discover, credential_answered,
  schedule_retry, note_result, settle, caller_aborts, retry_fires, shutdown,
}
use browserlogin_client.Discovery.Attempts.{Begins, advance-Begins, stopped-begins_nothing}

abbrev outage : List browserlogin_client.Discovery.CacheEvent
outage = discovers live 5 ∷ discovers absent 6 ∷ settles unreachable ∷ retries_at 60009 ∷ []

-- The second caller joins the first one's attempt, and the timer begins the second attempt.
outage_test : (advance_all outage initial).attempts ≡ 2
unfolding advance_all advance proceed discover settle note_result schedule_retry retry_fires
outage_test = refl

-- A caller whose credential check outlives the shutdown still begins an attempt.
late_check_test :
    (advance_all
      (discovers live 5
        ∷ settles refused
        ∷ discovers live 70000
        ∷ shuts_down
        ∷ answers true live 70001
        ∷ [])
      initial).attempts
    ≡ 2
unfolding advance_all advance proceed discover credential_answered settle note_result shutdown
late_check_test = refl

advance-Begins_example : Begins initial (advance (discovers live 5) initial)
advance-Begins_example = advance-Begins (discovers live 5) initial

stopped-begins_nothing_example :
    (advance_all outage (advance shuts_down initial)).attempts
    ≡ (advance shuts_down initial).attempts
unfolding advance shutdown
stopped-begins_nothing_example =
    stopped-begins_nothing outage (advance shuts_down initial) refl refl
