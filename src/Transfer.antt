-- ===== src/Transfer.antt =====
-- src/core/app/session-transfer-progress.ts: `SessionTransferProgressStore`, the progress of archive
-- transfers that the app polls. The clock is an argument; counts are naturals, and a text that is
-- no direction is no `Direction`.
pub mod Invariant
pub mod Monotone
pub mod Tests
use browserlogin_client.Prelude.{
  ℕ, ◌+◌, ◌*◌, ◌/◌, min, max, String, Bool, true, false, not, Option, none, some, List, [], ◌∷◌,
  ◌||◌, ◌&&◌, ◌==◌, ltb, leb, str_eq, append, is_some, if◌then◌else◌,
}

-- SessionTransferDirection
pub data Direction : Type 0 where
  download upload : Direction

-- SessionTransferStatus
pub data TransferStatus : Type 0 where
  running completed failed : TransferStatus

-- TransferProgress
pub record TransferProgress : Type 0 where
  pub direction : Direction
  pub transferred : ℕ
  pub total : ℕ
  pub done : Bool

-- SessionTransferProgressSnapshot
pub record Snapshot : Type 0 where
  pub profile_id : String
  pub direction : Direction
  pub transferred : ℕ
  pub total : ℕ
  pub percentage : ℕ
  pub status : TransferStatus

-- ProgressEntry
pub record ProgressEntry : Type 0 where
  pub snapshot : Snapshot
  pub terminal_at : Option ℕ

-- The `TypeError` messages.
pub data Refusal : Type 0 where
  not_nonnegative not_from_zero not_monotonic not_stable : Refusal

pub data Recorded (A : Type 0) : Type 0 where
  accepted : A → Recorded A
  refused : Refusal → Recorded A

-- A `Map`, in insertion order.
abbrev pub Entries : Type 0
Entries = List (String × ProgressEntry)

abbrev pub is_running : TransferStatus → Bool
is_running running = true
is_running _ = false

-- Number.MAX_SAFE_INTEGER
abbrev pub max_safe : ℕ
max_safe = 9007199254740991

abbrev direction_text : Direction → String
direction_text download = "download"
direction_text upload = "upload"

-- key
unfoldable pub key : String → Direction → String
key profile_id direction = append (direction_text direction) (append "\0" profile_id)

-- Map.get
abbrev pub find : String → Entries → Option ProgressEntry
find k [] = none
find k ((l, e) ∷ es) = if str_eq l k then some e else find k es

-- Map.set: a key that is there keeps its place.
abbrev pub set : String → ProgressEntry → Entries → Entries
set k e [] = (k, e) ∷ []
set k e ((l, f) ∷ es) = let rest = set k e es in if str_eq l k then (l, e) ∷ es else (l, f) ∷ rest

-- assertProgress
abbrev pub is_progress : String → TransferProgress → Bool
is_progress profile_id p =
    not (str_eq profile_id "") && (leb p.transferred max_safe && leb p.total max_safe)

-- A transfer that runs is continued, any other one starts over.
abbrev pub refusal : Option ProgressEntry → TransferProgress → Option Refusal
refusal none p = if not (p.transferred == 0) || p.done then some not_from_zero else none
refusal (some e) p =
    if not (is_running e.snapshot.status)
    then (if not (p.transferred == 0) || p.done then some not_from_zero else none)
    else if ltb p.transferred e.snapshot.transferred
    then some not_monotonic
    else if not (p.total == e.snapshot.total)
    then some not_stable
    else none

-- The whole percents that are transferred; a transfer that is not done stays below 100.
unfoldable pub percentage : TransferProgress → ℕ
percentage p =
    if p.done
    then 100
    else min 99 (if p.total == 0 then 0 else max 0 (min 100 ((p.transferred * 100) / p.total)))

abbrev pub entry_of : String → TransferProgress → ℕ → ProgressEntry
entry_of profile_id p now = record {
  snapshot = record {
    profile_id = profile_id;
    direction = p.direction;
    transferred = p.transferred;
    total = p.total;
    percentage = percentage p;
    status = if p.done then completed else running;
  };
  terminal_at = if p.done then some now else none;
}

put_unless : Option Refusal → String → ProgressEntry → Entries → Recorded Entries
put_unless none k e es = accepted (set k e es)
put_unless (some r) k e es = refused r

-- record
unfoldable pub record_progress : String → TransferProgress → ℕ → Entries → Recorded Entries
unfolding put_unless
record_progress profile_id p now es =
    if not (is_progress profile_id p)
    then refused not_nonnegative
    else put_unless (refusal (find (key profile_id p.direction) es) p) (key profile_id p.direction)
        (entry_of profile_id p now) es

abbrev pub failed_entry : ProgressEntry → ℕ → ProgressEntry
failed_entry e now = record {
  snapshot = record e.snapshot { status = failed };
  terminal_at = some now;
}

fail_found : Option ProgressEntry → String → ℕ → Entries → Entries
fail_found none k now es = es
fail_found (some e) k now es =
    if is_running e.snapshot.status then set k (failed_entry e now) es else es

-- fail
unfoldable pub fail : String → Direction → ℕ → Entries → Entries
unfolding fail_found
fail profile_id direction now es =
    fail_found (find (key profile_id direction) es) (key profile_id direction) now es

-- DEFAULT_TERMINAL_TTL_MS
abbrev pub terminal_ttl : ℕ
terminal_ttl = 30000

-- `now - terminalAt >= terminalTtlMs`; a clock that went back gives a negative difference.
abbrev pub expired : Option ℕ → ℕ → ℕ → Bool
expired none now ttl = false
expired (some t) now ttl = leb (t + ttl) now

-- What the loop of `snapshot` returns, and what it leaves.
unfoldable pub reported : ℕ → ℕ → Entries → List Snapshot
reported now ttl [] = []
reported now ttl ((k, e) ∷ es) =
    let rest = reported now ttl es in
    if expired e.terminal_at now ttl then rest else e.snapshot ∷ rest

unfoldable pub kept : Entries → Entries
kept [] = []
kept ((k, e) ∷ es) = let rest = kept es in if is_some e.terminal_at then rest else (k, e) ∷ rest

-- snapshot
unfoldable pub snapshot : ℕ → ℕ → Entries → List Snapshot × Entries
snapshot now ttl es = (reported now ttl es, kept es)

-- The calls of the store's methods, each at the clock's time.
pub data Request : Type 0 where
  records : String → TransferProgress → ℕ → Request
  fails : String → Direction → ℕ → Request
  polls : (now ttl : ℕ) → Request

-- A refused progress leaves the store as it was.
abbrev pub or_unchanged : Recorded Entries → Entries → Entries
or_unchanged (accepted es') es = es'
or_unchanged (refused r) es = es

unfoldable pub serve : Request → Entries → Entries
serve (records profile_id p now) es = or_unchanged (record_progress profile_id p now es) es
serve (fails profile_id d now) es = fail profile_id d now es
serve (polls now ttl) es = (snapshot now ttl es).1

unfoldable pub serve_all : List Request → Entries → Entries
serve_all [] es = es
serve_all (r ∷ rs) es = serve_all rs (serve r es)
