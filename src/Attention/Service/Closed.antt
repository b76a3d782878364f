-- ===== src/Attention/Service/Closed.antt =====
-- The service after its shutdown.
use browserlogin_client.Prelude.{
  ℕ, Bool, true, not, Option, none, some, List, [], ◌∷◌, ◌≡◌, refl, ◌∙◌, if-cases,
}
use browserlogin_client.Attention.Channels.{Request, parse_request, Delivery, Outcome}
use browserlogin_client.Attention.Service.{
  Settings, Service, await_settings, begin_request, take_waiting, with_settings, resume,
  settings_read, take_active, finish, adapters_settle, caller_aborts, shutdown, ServiceEvent,
  requests, reads, settles, aborts, shuts_down, react, react_all,
}

-- Closed still, with no dispatch more.
abbrev Idle : Service → Service → Type 0
Idle s t = (t.closed ≡ true) × (t.dispatches ≡ s.dispatches)

module _ (s : Service) (closed : s.closed ≡ true) where
  await_settings-Idle : (n : ℕ) (o : Option Request) → Idle s (await_settings n o s)
  unfolding await_settings
  await_settings-Idle n none = (closed, refl)
  await_settings-Idle n (some r) =
      if-cases (Idle s) s.closed _ _ (λ _. (closed, refl)) (λ _. (closed, refl))

  with_settings-Idle :
      (n : ℕ) (r : Request) (o : Option Settings) (aborted : Bool) (now : ℕ)
      → Idle s (with_settings n r o aborted now s)
  unfolding with_settings
  with_settings-Idle n r none aborted now = (closed, refl)
  with_settings-Idle n r (some o) aborted now =
      if-cases (Idle s) (not o.enabled) _ _ (λ _. (closed, refl))
        (λ _.
          if-cases (Idle s) aborted _ _ (λ _. (closed, refl))
            (λ _.
              if-cases (Idle s) s.closed _ _ (λ _. (closed, refl)) (λ open_. cc (open_, closed))))

  finish-Idle :
      (o : Option Delivery) (n : ℕ) (audio notification : Outcome)
      → Idle s (finish o n audio notification s)
  unfolding finish
  finish-Idle none n audio notification = (closed, refl)
  finish-Idle (some d) n audio notification = (closed, refl)

resume-Idle :
    (o : Option Request) (n : ℕ) (c : Option Settings) (aborted : Bool) (now : ℕ) (s : Service)
    → s.closed ≡ true
    → Idle s (resume o n c aborted now s)
unfolding resume
resume-Idle none n c aborted now s closed = (closed, refl)
resume-Idle (some r) n c aborted now s closed = with_settings-Idle _ closed n r c aborted now

react-Idle : (e : ServiceEvent) (s : Service) → s.closed ≡ true → Idle s (react e s)
unfolding react begin_request settings_read adapters_settle caller_aborts shutdown
react-Idle (requests n input) s h = await_settings-Idle s h n (parse_request input)
react-Idle (reads n c aborted now) s h = resume-Idle (take_waiting n s.waiting) n c aborted now s h
react-Idle (settles n audio notification) s h =
    finish-Idle s h (take_active n s.active) n audio notification
react-Idle (aborts n) s h = (h, refl)
react-Idle shuts_down s h = if-cases (Idle s) s.closed _ _ (λ _. (h, refl)) (λ _. (refl, refl))

react_all-Idle : (es : List ServiceEvent) (s : Service) → s.closed ≡ true → Idle s (react_all es s)
unfolding react_all
react_all-Idle [] s h = (h, refl)
react_all-Idle (e ∷ es) s h =
    let (c, d) = react-Idle e s h in let (c', d') = react_all-Idle es (react e s) c in (c', d' ∙ d)

-- After `shutdown` no sequence of events brings another dispatch: neither new requests nor those whose
-- settings were awaited when it came.
pub shutdown-dispatches_nothing :
    (es : List ServiceEvent) (s : Service) → (react_all es (shutdown s)).dispatches ≡ s.dispatches
unfolding shutdown
shutdown-dispatches_nothing es s =
    if-cases (λ t. (react_all es t).dispatches ≡ s.dispatches) s.closed _ _
      (λ closed. (react_all-Idle es s closed).1) (λ _. (react_all-Idle es _ refl).1)
