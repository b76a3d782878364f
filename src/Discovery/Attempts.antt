-- ===== src/Discovery/Attempts.antt =====
-- When the discovery cache asks the server: one attempt at a time, no sooner than the interval
-- after the one before, and none after a shutdown that nobody's credential check outlives.
use browserlogin_client.Prelude.{
  ℕ, ◌+◌, ◌-◌, true, false, some, List, [], ◌∷◌, ◌≡◌, refl, ◌∙◌, arith, ◌||◌, ◌&&◌, ◌==◌, if-cases,
  ◌⊎◌, inl, inr,
}
use browserlogin_client.Discovery.{
  CallerSignal, absent, DiscoveryResult, found, refused, unreachable, Cache, is_ready,
  is_auth_failed, is_aborted, too_soon, proceed, discover, credential_answered, schedule_retry,
  note_result, end_attempt, settle, caller_aborts, budget_expires, retry_fires, shutdown,
  CacheEvent, discovers, answers, settles, aborts, expires, shuts_down, retries_at, advance,
  advance_all,
}

-- No attempt was begun, or one was: none was in flight, and the one before was the interval ago.
abbrev pub Begins : Cache → Cache → Type 0
Begins c d =
    ((d.attempts ≡ c.attempts) × (d.last_attempt ≡ c.last_attempt))
    ⊎ ((now : ℕ) × (c.in_flight ≡ false)
        × (d.in_flight ≡ true)
        × (d.attempts ≡ c.attempts + 1)
        × (d.last_attempt ≡ some now)
        × (too_soon c.last_attempt now ≡ false))

-- Only these fields count.
Begins-from :
    (b c d : Cache)
    → c.attempts ≡ b.attempts
    → c.last_attempt ≡ b.last_attempt
    → c.in_flight ≡ b.in_flight
    → Begins c d
    → Begins b d
Begins-from b c d a l f (inl h) = inl (h.0 ∙ a, h.1 ∙ l)
Begins-from b c d a l f (inr h) = inr (h.0, rw (← f) h.1, h.2, rw (← a) h.3, h.4, rw (← l) h.5)

proceed-Begins : (signal : CallerSignal) (now : ℕ) (c : Cache) → Begins c (proceed signal now c)
unfolding proceed
proceed-Begins signal now c =
    if-cases (Begins c) c.in_flight _ _ (λ flying. inl (refl, refl))
      (λ still.
        if-cases (Begins c) (too_soon c.last_attempt now) _ _ (λ soon. inl (refl, refl))
          (λ due. inr (now, still, refl, refl, refl, due)))

discover-Begins : (signal : CallerSignal) (now : ℕ) (c : Cache) → Begins c (discover signal now c)
unfolding discover
discover-Begins signal now c =
    if-cases (Begins c) (c.stopped || (is_aborted signal || is_ready c.status)) _ _
      (λ done. inl (refl, refl))
      (λ goes.
        if-cases (Begins c) (is_auth_failed c.status) _ _ (λ failed. inl (refl, refl))
          (λ open_. proceed-Begins signal now c))

settle-Begins : (result : DiscoveryResult) (c : Cache) → Begins c (settle result c)
unfolding settle note_result schedule_retry
settle-Begins result c =
    if-cases (Begins c) c.in_flight _ _ (λ flying. settled result) (λ still. inl (refl, refl))
  where
    settled : (r : DiscoveryResult) → Begins c (end_attempt (note_result r c))
    settled (found tools) = inl (refl, refl)
    settled refused = inl (refl, refl)
    settled unreachable =
        if-cases (λ d. Begins c (end_attempt d)) (c.stopped || c.retry_timer) _ _
          (λ kept. inl (refl, refl)) (λ set. inl (refl, refl))

-- An event begins at most one attempt, and only when none is in flight and the last one was begun
-- at least the retry interval before; it then records the time. Any other event leaves the count of
-- attempts and the time of the last one as they were.
pub advance-Begins : (e : CacheEvent) (c : Cache) → Begins c (advance e c)
unfolding advance credential_answered caller_aborts budget_expires retry_fires shutdown
advance-Begins (discovers signal now) c = discover-Begins signal now c
advance-Begins (answers changed signal now) c =
    if-cases (Begins c) (c.checking == 0) _ _ (λ none_waits. inl (refl, refl))
      (λ waits.
        if-cases (Begins c) changed _ _
          (λ yes.
            Begins-from c (record c { checking = c.checking - 1 })
              (proceed signal now (record c { checking = c.checking - 1 })) refl refl refl
              (proceed-Begins signal now (record c { checking = c.checking - 1 })))
          (λ no. inl (refl, refl)))
advance-Begins (settles result) c = settle-Begins result c
advance-Begins (aborts first) c =
    if-cases (Begins c) (c.abortable == 0) _ _ (λ none_can. inl (refl, refl))
      (λ can.
        if-cases (Begins c) ((c.waiters - 1) == 0 && (first || c.active)) _ _
          (λ last. inl (refl, refl)) (λ more. inl (refl, refl)))
advance-Begins expires c =
    if-cases (Begins c) c.in_flight _ _ (λ flying. inl (refl, refl)) (λ still. inl (refl, refl))
advance-Begins shuts_down c = inl (refl, refl)
advance-Begins (retries_at now) c =
    if-cases (Begins c) c.retry_timer _ _
      (λ set.
        Begins-from c (record c { retry_timer = false })
          (discover absent now (record c { retry_timer = false })) refl refl refl
          (discover-Begins absent now (record c { retry_timer = false })))
      (λ unset. inl (refl, refl))

-- Stopped, with no caller in a credential check, after this many attempts.
abbrev pub Ended : ℕ → Cache → Type 0
Ended n c = (c.stopped ≡ true) × (c.checking ≡ 0) × (c.attempts ≡ n)

settle-Ended :
    (n : ℕ) (result : DiscoveryResult) (c : Cache) → Ended n c → Ended n (settle result c)
unfolding settle note_result schedule_retry
settle-Ended n result c h =
    if-cases (Ended n) c.in_flight _ _ (λ flying. settled result) (λ still. h)
  where
    settled : (r : DiscoveryResult) → Ended n (end_attempt (note_result r c))
    settled (found tools) = h
    settled refused = h
    settled unreachable =
        if-cases (λ d. Ended n (end_attempt d)) (c.stopped || c.retry_timer) _ _ (λ kept. h)
          (λ set. h)

discover-Ended :
    (n : ℕ) (signal : CallerSignal) (now : ℕ) (c : Cache)
    → Ended n c
    → Ended n (discover signal now c)
unfolding discover
discover-Ended n signal now c h =
    if-cases (Ended n) (c.stopped || (is_aborted signal || is_ready c.status)) _ _ (λ done. h)
      (λ goes. ground arith)

advance-Ended : (n : ℕ) (e : CacheEvent) (c : Cache) → Ended n c → Ended n (advance e c)
unfolding advance credential_answered caller_aborts budget_expires retry_fires shutdown
advance-Ended n (discovers signal now) c h = discover-Ended n signal now c h
advance-Ended n (answers changed signal now) c h =
    if-cases (Ended n) (c.checking == 0) _ _ (λ none_waits. h) (λ waits. ground arith)
advance-Ended n (settles result) c h = settle-Ended n result c h
advance-Ended n (aborts first) c h =
    if-cases (Ended n) (c.abortable == 0) _ _ (λ none_can. h)
      (λ can.
        if-cases (Ended n) ((c.waiters - 1) == 0 && (first || c.active)) _ _ (λ last. h)
          (λ more. h))
advance-Ended n expires c h = if-cases (Ended n) c.in_flight _ _ (λ flying. h) (λ still. h)
advance-Ended n shuts_down c h = (refl, h.1, h.2)
advance-Ended n (retries_at now) c h =
    if-cases (Ended n) c.retry_timer _ _
      (λ set. discover-Ended n absent now (record c { retry_timer = false }) h) (λ unset. h)

-- Once the cache is stopped and no caller waits for its credential check, no sequence of events
-- begins another attempt.
pub stopped-begins_nothing :
    (es : List CacheEvent) (c : Cache)
    → c.stopped ≡ true
    → c.checking ≡ 0
    → (advance_all es c).attempts ≡ c.attempts
unfolding advance_all
stopped-begins_nothing es c s k = (all_ended c.attempts es c (s, k, refl)).2
  where
    all_ended : (n : ℕ) (es : List CacheEvent) (c : Cache) → Ended n c → Ended n (advance_all es c)
    all_ended n [] c h = h
    all_ended n (e ∷ es) c h = all_ended n es (advance e c) (advance-Ended n e c h)
