-- ===== src/Discovery.antt =====
-- src/core/mcp-proxy/cache.ts: `RemoteMcpDiscoveryCache`. Each piece of its code that runs without
-- an await is one event, so that every interleaving of callers, timers and answers is a sequence of
-- events. An event that cannot happen where it stands, such as a timer that is not set, changes
-- nothing. A tool is one opaque text; times are naturals, and the first attempt has none before it.
pub mod Invariant
pub mod Attempts
pub mod Tests
use browserlogin_client.Prelude.{
  ℕ, ◌+◌, ◌-◌, String, Bool, true, false, not, Option, none, some, List, [], ◌∷◌, ◌||◌, ◌&&◌, ◌==◌,
  ltb, if◌then◌else◌,
}

-- RemoteMcpStatus
pub data RemoteMcpStatus : Type 0 where
  ready unavailable auth_failed : RemoteMcpStatus

-- The `AbortSignal` that a caller passes, as it stands.
pub data CallerSignal : Type 0 where
  absent live aborted : CallerSignal

-- How the client's `discover` settles.
pub data DiscoveryResult : Type 0 where
  found : List String → DiscoveryResult
  refused unreachable : DiscoveryResult

-- The fields of the class. `in_flight`, `retry_timer` and `active` say whether `inFlight`,
-- `retryTimer` and `activeController` are set; `cancelled` says whether the controller of the attempt
-- in flight is aborted; `checking` counts the callers that wait for `hasCredentialChanged`, and
-- `abortable` the waiters whose signal can still abort.
pub record Cache : Type 0 where
  pub tools : List String
  pub status : RemoteMcpStatus
  pub in_flight : Bool
  pub retry_timer : Bool
  pub active : Bool
  pub cancelled : Bool
  pub waiters : ℕ
  pub abortable : ℕ
  pub checking : ℕ
  pub stopped : Bool
  pub last_attempt : Option ℕ
  pub attempts : ℕ
  pub retries : ℕ

-- REMOTE_MCP_RETRY_INTERVAL_MS
abbrev pub retry_interval : ℕ
retry_interval = 60000

abbrev pub is_ready : RemoteMcpStatus → Bool
is_ready ready = true
is_ready _ = false

abbrev pub is_auth_failed : RemoteMcpStatus → Bool
is_auth_failed auth_failed = true
is_auth_failed _ = false

abbrev pub is_aborted : CallerSignal → Bool
is_aborted aborted = true
is_aborted _ = false

-- The caller's abort is listened to.
abbrev pub listens : CallerSignal → ℕ
listens live = 1
listens _ = 0

-- `now - this.lastAttemptAt < REMOTE_MCP_RETRY_INTERVAL_MS`
abbrev pub too_soon : Option ℕ → ℕ → Bool
too_soon none now = false
too_soon (some last) now = ltb now (last + retry_interval)

abbrev pub initial : Cache
initial = record {
  tools = [];
  status = unavailable;
  in_flight = false;
  retry_timer = false;
  active = false;
  cancelled = false;
  waiters = 0;
  abortable = 0;
  checking = 0;
  stopped = false;
  last_attempt = none;
  attempts = 0;
  retries = 0;
}

abbrev pub join_attempt : CallerSignal → Cache → Cache
join_attempt signal c = record c {
  waiters = c.waiters + 1;
  abortable = c.abortable + listens signal;
}

abbrev pub begin_attempt : CallerSignal → ℕ → Cache → Cache
begin_attempt signal now c = record c {
  last_attempt = some now;
  attempts = c.attempts + 1;
  active = true;
  cancelled = false;
  waiters = 1;
  abortable = listens signal;
  in_flight = true;
}

-- `discover` after its tests and the credential check.
unfoldable pub proceed : CallerSignal → ℕ → Cache → Cache
proceed signal now c =
    if c.in_flight
    then join_attempt signal c
    else if too_soon c.last_attempt now
    then c
    else begin_attempt signal now c

-- `discover` up to its first await.
unfoldable pub discover : CallerSignal → ℕ → Cache → Cache
discover signal now c =
    if c.stopped || (is_aborted signal || is_ready c.status)
    then c
    else if is_auth_failed c.status
    then record c { checking = c.checking + 1 }
    else proceed signal now c

-- `hasCredentialChanged` answers, or fails, which ends the caller's `discover` like a no.
unfoldable pub credential_answered : Bool → CallerSignal → ℕ → Cache → Cache
credential_answered changed signal now c =
    if c.checking == 0
    then c
    else let checked = record c { checking = c.checking - 1 } in
      if changed then proceed signal now checked else checked

-- scheduleRetry
unfoldable pub schedule_retry : Cache → Cache
schedule_retry c =
    if c.stopped || c.retry_timer
    then c
    else record c { retry_timer = true; retries = c.retries + 1 }

-- The `then` and `catch` of the attempt.
unfoldable pub note_result : DiscoveryResult → Cache → Cache
note_result (found tools) c = record c { tools = tools; status = ready }
note_result refused c = record c { tools = []; status = auth_failed }
note_result unreachable c = schedule_retry (record c { tools = []; status = unavailable })

-- Its `finally`.
abbrev pub end_attempt : Cache → Cache
end_attempt c = record c { active = false; waiters = 0; abortable = 0; in_flight = false }

unfoldable pub settle : DiscoveryResult → Cache → Cache
settle result c = if c.in_flight then end_attempt (note_result result c) else c

-- A waiter's signal aborts. The first waiter aborts the attempt's controller, one that joined
-- `activeController`.
unfoldable pub caller_aborts : (first : Bool) → Cache → Cache
caller_aborts first c =
    if c.abortable == 0
    then c
    else let left = record c { abortable = c.abortable - 1; waiters = c.waiters - 1 } in
      if left.waiters == 0 && (first || left.active) then record left { cancelled = true } else left

-- The timer of the discovery budget.
unfoldable pub budget_expires : Cache → Cache
budget_expires c = if c.in_flight then record c { cancelled = true } else c

-- The retry timer's callback.
unfoldable pub retry_fires : ℕ → Cache → Cache
retry_fires now c =
    if c.retry_timer then discover absent now (record c { retry_timer = false }) else c

-- shutdown
unfoldable pub shutdown : Cache → Cache
shutdown c = record c {
  stopped = true;
  cancelled = c.cancelled || c.active;
  active = false;
  retry_timer = false;
}

pub data CacheEvent : Type 0 where
  discovers : CallerSignal → ℕ → CacheEvent
  answers : Bool → CallerSignal → ℕ → CacheEvent
  settles : DiscoveryResult → CacheEvent
  aborts : (first : Bool) → CacheEvent
  expires shuts_down : CacheEvent
  retries_at : ℕ → CacheEvent

unfoldable pub advance : CacheEvent → Cache → Cache
advance (discovers signal now) c = discover signal now c
advance (answers changed signal now) c = credential_answered changed signal now c
advance (settles result) c = settle result c
advance (aborts first) c = caller_aborts first c
advance expires c = budget_expires c
advance shuts_down c = shutdown c
advance (retries_at now) c = retry_fires now c

unfoldable pub advance_all : List CacheEvent → Cache → Cache
advance_all [] c = c
advance_all (e ∷ es) c = advance_all es (advance e c)
