-- ===== src/Attention/Service/Spacing.antt =====
-- When the service dispatches.
use browserlogin_client.Prelude.{
  ℕ, ◌+◌, ◌≤◌, Bool, true, false, not, Option, none, some, List, [], ◌∷◌, ◌≡◌, refl, sym, ◌∙◌,
  arith, map, if-cases, All, ap, ◌==◌,
}
use browserlogin_client.Attention.Channels.{Request, parse_request, Delivery, Outcome}
use browserlogin_client.Attention.Service.{
  cooldown, Settings, Active, Service, await_settings, begin_request, take_waiting, too_soon,
  dispatch_at, with_settings, resume, settings_read, take_active, finish, adapters_settle,
  abort_always, abort_if, drop_active, caller_aborts, shutdown, ServiceEvent, requests, reads,
  settles, aborts, shuts_down, react, react_all,
}

-- The newest of the times is a cooldown after the one before it, and so on.
abbrev pub Spaced : List ℕ → Type 0
Spaced [] = Unit
Spaced (t ∷ []) = Unit
Spaced (t ∷ u ∷ ts) = (u + cooldown ≤ t) × Spaced (u ∷ ts)

abbrev pub newest : List ℕ → Option ℕ
newest [] = none
newest (t ∷ ts) = some t

-- The dispatches are spaced, the service remembers the last of them, and once it is closed every dispatch
-- under way is aborted.
pub record Calm (s : Service) : Type 0 where
  pub spaced : Spaced s.dispatches
  pub remembered : s.last_dispatch ≡ newest s.dispatches
  pub aborted : s.closed ≡ true → All (λ (a : Active). a.aborted ≡ true) s.active

-- Nothing is dispatched, and a closed service stays closed.
abbrev pub Quiet : Service → Service → Type 0
Quiet s t = (s.closed ≡ true) → (t.closed ≡ true) × (t.dispatches ≡ s.dispatches)

Spaced-cons :
    (now : ℕ) (ts : List ℕ) → too_soon (newest ts) now ≡ false → Spaced ts → Spaced (now ∷ ts)
Spaced-cons now [] h s = tt
Spaced-cons now (t ∷ ts) h s = (ground (arith, h), s)

module _ (s : Service) (h : Calm s) where
  -- What leaves the dispatches, the clock and the flag alone.
  same_times :
      (t : Service)
      → t.dispatches ≡ s.dispatches
      → t.last_dispatch ≡ s.last_dispatch
      → (t.closed ≡ true → All (λ (a : Active). a.aborted ≡ true) t.active)
      → Calm t
  same_times t d l a = record {
    spaced = rw d h.spaced;
    remembered = l ∙ h.remembered ∙ ap newest (sym d);
    aborted = a;
  }

  answers_only : (t : Service) → t ≡ record s { answers = t.answers; waiting = t.waiting } → Calm t
  answers_only t e =
      same_times t (ap (λ x. x.dispatches) e) (ap (λ x. x.last_dispatch) e)
        (λ c. rw (ap (λ x. x.active) e) (h.aborted (sym (ap (λ x. x.closed) e) ∙ c)))

  dispatch_at-Calm :
      (n : ℕ) (r : Request) (d : Delivery) (now : ℕ)
      → s.closed ≡ false
      → Calm (dispatch_at n r d now s)
  unfolding dispatch_at
  dispatch_at-Calm n r d now open_ =
      if-cases Calm (too_soon s.last_dispatch now) _ _ (λ _. answers_only _ refl)
        (λ due. record {
          spaced = Spaced-cons now s.dispatches (rw (h.remembered) at due) h.spaced;
          remembered = refl;
          aborted = λ e. cc (e, open_);
        })

  with_settings-Calm :
      (n : ℕ) (r : Request) (o : Option Settings) (aborted : Bool) (now : ℕ)
      → Calm (with_settings n r o aborted now s)
  unfolding with_settings
  with_settings-Calm n r none aborted now = answers_only _ refl
  with_settings-Calm n r (some o) aborted now =
      if-cases Calm (not o.enabled) _ _ (λ _. answers_only _ refl)
        (λ _.
          if-cases Calm aborted _ _ (λ _. answers_only _ refl)
            (λ _.
              if-cases Calm s.closed _ _ (λ _. answers_only _ refl)
                (λ open_. dispatch_at-Calm n r o.delivery now open_)))

  await_settings-Calm : (n : ℕ) (o : Option Request) → Calm (await_settings n o s)
  unfolding await_settings
  await_settings-Calm n none = answers_only _ refl
  await_settings-Calm n (some r) =
      if-cases Calm s.closed _ _ (λ _. answers_only _ refl) (λ _. answers_only _ refl)

abbrev Stopped : List Active → Type 0
Stopped = All (λ (a : Active). a.aborted ≡ true)

drop_active-Stopped : (n : ℕ) (l : List Active) → Stopped l → Stopped (drop_active n l)
drop_active-Stopped n [] h = tt
drop_active-Stopped n (a ∷ l) (ha, hl) =
    if-cases Stopped (a.number == n) _ _ (λ _. hl) (λ _. (ha, drop_active-Stopped n l hl))

abort_if-Stopped : (n : ℕ) (l : List Active) → Stopped l → Stopped (map (abort_if n) l)
abort_if-Stopped n [] h = tt
abort_if-Stopped n (a ∷ l) (ha, hl) = (
  if-cases (λ (b : Active). b.aborted ≡ true) (a.number == n) _ _ (λ _. refl) (λ _. ha),
  abort_if-Stopped n l hl,
)

abort_always-Stopped : (l : List Active) → Stopped (map abort_always l)
abort_always-Stopped [] = tt
abort_always-Stopped (a ∷ l) = (refl, abort_always-Stopped l)

resume-Calm :
    (o : Option Request) (n : ℕ) (c : Option Settings) (aborted : Bool) (now : ℕ) (s : Service)
    → Calm s
    → Calm (resume o n c aborted now s)
unfolding resume
resume-Calm none n c aborted now s h = h
resume-Calm (some r) n c aborted now s h =
    with_settings-Calm _ (answers_only s h _ refl) n r c aborted now

finish-Calm :
    (o : Option Delivery) (n : ℕ) (audio notification : Outcome) (s : Service)
    → Calm s
    → Calm (finish o n audio notification s)
unfolding finish
finish-Calm none n audio notification s h = h
finish-Calm (some d) n audio notification s h =
    same_times s h _ refl refl (λ c. drop_active-Stopped n s.active (h.aborted c))

react-Calm : (e : ServiceEvent) (s : Service) → Calm s → Calm (react e s)
unfolding react begin_request settings_read adapters_settle caller_aborts shutdown
react-Calm (requests n input) s h = await_settings-Calm s h n (parse_request input)
react-Calm (reads n c aborted now) s h = resume-Calm (take_waiting n s.waiting) n c aborted now s h
react-Calm (settles n audio notification) s h =
    finish-Calm (take_active n s.active) n audio notification s h
react-Calm (aborts n) s h =
    same_times s h _ refl refl (λ c. abort_if-Stopped n s.active (h.aborted c))
react-Calm shuts_down s h =
    if-cases Calm s.closed _ _ (λ _. h)
      (λ _. same_times s h _ refl refl (λ _. abort_always-Stopped s.active))

-- Under every interleaving of requests, settings, adapters, aborts and the shutdown, any two dispatches
-- are at least the cooldown apart, the service remembers the last one, and once it is shut down every
-- dispatch under way has been aborted.
pub react_all-Calm : (es : List ServiceEvent) (s : Service) → Calm s → Calm (react_all es s)
unfolding react_all
react_all-Calm [] s h = h
react_all-Calm (e ∷ es) s h = react_all-Calm es (react e s) (react-Calm e s h)
