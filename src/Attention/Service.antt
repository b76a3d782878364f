-- ===== src/Attention/Service.antt =====
-- src/core/attention/service.ts: `createAttentionService`. Each piece of its code that runs without an await
-- is one event, so that every interleaving of requests, settings and adapters is a sequence of events. A
-- request that waits is known by its number.
pub mod Spacing
pub mod Closed
use browserlogin_client.Prelude.{
  ℕ, ◌+◌, ◌-◌, Bool, true, false, not, Option, none, some, List, [], ◌∷◌, ◌&&◌, ◌||◌, ◌==◌, ltb,
  map, if◌then◌else◌,
}
use browserlogin_client.Json.{Json}
use browserlogin_client.Attention.Channels.{
  Request, parse_request, Code, disabled, rate_limited, unavailable_code, failed_code,
  invalid_input, cancelled_code, AttentionResult, Outcome, Delivery, skipped_with, dispatched,
}

-- ATTENTION_COOLDOWN_MS
abbrev pub cooldown : ℕ
cooldown = 5000

-- AttentionSettings, as far as the service reads them.
pub record Settings : Type 0 where
  pub enabled : Bool
  pub delivery : Delivery

-- A request that awaits `readSettings`.
pub record Waiting : Type 0 where
  pub number : ℕ
  pub request : Request

-- A dispatch under way: its controller, and what it delivers.
pub record Active : Type 0 where
  pub number : ℕ
  pub request : Request
  pub delivery : Delivery
  pub aborted : Bool

-- The locals of the service. `answers` has the results, last first, and `dispatches` the times of the
-- dispatches, last first.
pub record Service : Type 0 where
  pub waiting : List Waiting
  pub active : List Active
  pub last_dispatch : Option ℕ
  pub closed : Bool
  pub answers : List (ℕ × AttentionResult)
  pub dispatches : List ℕ

abbrev pub new_service : Service
new_service = record {
  waiting = [];
  active = [];
  last_dispatch = none;
  closed = false;
  answers = [];
  dispatches = [];
}

abbrev pub answer : ℕ → AttentionResult → Service → Service
answer n r s = record s { answers = (n, r) ∷ s.answers }

-- `request` up to its await of the settings.
unfoldable pub await_settings : ℕ → Option Request → Service → Service
await_settings n none s = answer n (skipped_with invalid_input) s
await_settings n (some r) s =
    if s.closed
    then answer n (skipped_with unavailable_code) s
    else record s { waiting = record { number = n; request = r } ∷ s.waiting }

unfoldable pub begin_request : ℕ → Json → Service → Service
unfolding await_settings
begin_request n input s = await_settings n (parse_request input) s

abbrev pub take_waiting : ℕ → List Waiting → Option Request
take_waiting n [] = none
take_waiting n (w ∷ ws) = if w.number == n then some w.request else take_waiting n ws

abbrev pub drop_waiting : ℕ → List Waiting → List Waiting
drop_waiting n [] = []
drop_waiting n (w ∷ ws) = if w.number == n then ws else w ∷ drop_waiting n ws

-- `requestedAt - lastDispatchAt < ATTENTION_COOLDOWN_MS`
abbrev pub too_soon : Option ℕ → ℕ → Bool
too_soon none now = false
too_soon (some last) now = ltb now (last + cooldown)

-- From the test of the cooldown on.
unfoldable pub dispatch_at : ℕ → Request → Delivery → ℕ → Service → Service
dispatch_at n r d now s =
    if too_soon s.last_dispatch now then answer n (skipped_with rate_limited) s else record s {
      last_dispatch = some now;
      active = record { number = n; request = r; delivery = d; aborted = false } ∷ s.active;
      dispatches = now ∷ s.dispatches;
    }

-- From the settings on; none is a failed read, and `aborted` is the caller's signal.
unfoldable pub with_settings :
    ℕ → Request → Option Settings → (aborted : Bool) → ℕ → Service → Service
unfolding dispatch_at
with_settings n r none aborted now s = answer n (skipped_with failed_code) s
with_settings n r (some settings) aborted now s =
    if not settings.enabled
    then answer n (skipped_with disabled) s
    else if aborted
    then answer n (skipped_with cancelled_code) s
    else if s.closed
    then answer n (skipped_with unavailable_code) s
    else dispatch_at n r settings.delivery now s

unfoldable pub resume :
    Option Request → ℕ → Option Settings → (aborted : Bool) → ℕ → Service → Service
unfolding with_settings
resume none n settings aborted now s = s
resume (some r) n settings aborted now s =
    with_settings n r settings aborted now (record s { waiting = drop_waiting n s.waiting })

-- `readSettings` settles.
unfoldable pub settings_read : ℕ → Option Settings → (aborted : Bool) → ℕ → Service → Service
unfolding resume
settings_read n settings aborted now s = resume (take_waiting n s.waiting) n settings aborted now s

abbrev pub take_active : ℕ → List Active → Option Delivery
take_active n [] = none
take_active n (a ∷ as_) = if a.number == n then some a.delivery else take_active n as_

abbrev pub drop_active : ℕ → List Active → List Active
drop_active n [] = []
drop_active n (a ∷ as_) = if a.number == n then as_ else a ∷ drop_active n as_

unfoldable pub finish : Option Delivery → ℕ → (audio notification : Outcome) → Service → Service
finish none n audio notification s = s
finish (some d) n audio notification s =
    answer n (dispatched d audio notification) (record s { active = drop_active n s.active })

-- Both of the dispatch's promises have settled.
unfoldable pub adapters_settle : ℕ → (audio notification : Outcome) → Service → Service
unfolding finish
adapters_settle n audio notification s = finish (take_active n s.active) n audio notification s

abbrev pub abort_if : ℕ → Active → Active
abort_if n a = if a.number == n then record a { aborted = true } else a

abbrev pub abort_always : Active → Active
abort_always a = record a { aborted = true }

-- The caller's signal aborts during the dispatch.
unfoldable pub caller_aborts : ℕ → Service → Service
caller_aborts n s = record s { active = map (abort_if n) s.active }

unfoldable pub shutdown : Service → Service
shutdown s = if s.closed then s else record s { closed = true; active = map abort_always s.active }

pub data ServiceEvent : Type 0 where
  requests : ℕ → Json → ServiceEvent
  reads : ℕ → Option Settings → (aborted : Bool) → ℕ → ServiceEvent
  settles : ℕ → (audio notification : Outcome) → ServiceEvent
  aborts : ℕ → ServiceEvent
  shuts_down : ServiceEvent

unfoldable pub react : ServiceEvent → Service → Service
react (requests n input) s = begin_request n input s
react (reads n settings aborted now) s = settings_read n settings aborted now s
react (settles n audio notification) s = adapters_settle n audio notification s
react (aborts n) s = caller_aborts n s
react shuts_down s = shutdown s

unfoldable pub react_all : List ServiceEvent → Service → Service
react_all [] s = s
react_all (e ∷ es) s = react_all es (react e s)
