-- ===== src/Locks/Acquire.antt =====
-- src/core/locks/locks.ts: the `while (true)` of `acquireFileLock` for one process. What each round meets
-- is an input: the signal, what `open` answers, what `reclaimStale` answers, and the time at the test of the
-- deadline.
use browserlogin_client.Prelude.{
  ℕ, zero, suc, ◌+◌, ◌*◌, ◌≤◌, ◌<◌, Bool, true, false, List, [], ◌∷◌, ◌≡◌, ◌≢◌, arith, leb,
  if◌then◌else◌, length, if-cases,
}

-- `open(lockPath, "wx")`, and on EEXIST `reclaimStale`.
pub data Attempt : Type 0 where
  created denied : Attempt
  present : (reclaimed : Bool) → Attempt

pub record Round : Type 0 where
  pub aborted : Bool
  pub attempt : Attempt
  pub now : ℕ

-- How `acquireFileLock` ends; `undecided` says that the rounds given do not end it.
pub data Acquired : Type 0 where
  acquired aborted_error timeout_error open_error undecided : Acquired

unfoldable pub acquire : ℕ → List Round → Acquired
acquire deadline [] = undecided
acquire deadline (r ∷ rs) =
    let again = acquire deadline rs in
    if r.aborted then aborted_error else elim r.attempt [
      | created ↦ acquired
      | denied ↦ open_error
      | present reclaimed ↦
          if reclaimed then again else if leb deadline r.now then timeout_error else again
    ]

-- The lock is taken from an owner that is gone; the round is repeated at once.
abbrev reclaims : Attempt → ℕ
reclaims (present true) = 1
reclaims _ = 0

abbrev pub reclaimed : List Round → ℕ
reclaimed [] = 0
reclaimed (r ∷ rs) = reclaims r.attempt + reclaimed rs

-- The clock goes on by at least `poll` from one round that waits to the next.
abbrev pub Waits : ℕ → ℕ → List Round → Type 0
Waits poll from [] = Unit
Waits poll from (r ∷ rs) = elim r.attempt [
  | present b ↦ if b then Waits poll from rs else (from ≤ r.now) × Waits poll (r.now + poll) rs
  | _ ↦ Waits poll from rs
]

-- One round, by what it meets.
acquire_round : ℕ → Bool → Attempt → ℕ → Acquired → Acquired
acquire_round deadline true a now again = aborted_error
acquire_round deadline false created now again = acquired
acquire_round deadline false denied now again = open_error
acquire_round deadline false (present reclaimed) now again =
    if reclaimed then again else if leb deadline now then timeout_error else again

acquire-round :
    (deadline : ℕ) (r : Round) (rs : List Round)
    → acquire deadline (r ∷ rs)
      ≡ acquire_round deadline r.aborted r.attempt r.now (acquire deadline rs)
unfolding acquire acquire_round
acquire-round deadline r rs = ground arith

-- The clock of `Waits`, by what the round meets.
abbrev WaitsRound : ℕ → ℕ → Attempt → ℕ → List Round → Type 0
WaitsRound poll from (present true) now rs = Waits poll from rs
WaitsRound poll from (present false) now rs = (from ≤ now) × Waits poll (now + poll) rs
WaitsRound poll from _ now rs = Waits poll from rs

Waits-round :
    (poll from : ℕ) (a : Attempt) (aborted : Bool) (now : ℕ) (rs : List Round)
    → Waits poll from (record { aborted = aborted; attempt = a; now = now } ∷ rs)
    → WaitsRound poll from a now rs
Waits-round poll from created aborted now rs h = h
Waits-round poll from denied aborted now rs h = h
Waits-round poll from (present true) aborted now rs h = h
Waits-round poll from (present false) aborted now rs h = h

module _ (deadline poll : ℕ) (p : 1 ≤ poll) where
  -- Enough rounds from a time on: what the end of the loop is proved from.
  abbrev Enough : ℕ → ℕ → List Round → Type 0
  Enough from k rs =
      Waits poll from rs × (deadline + 1 ≤ from + k * poll) × (k + reclaimed rs < length rs)

  round_ends :
      (from k : ℕ) (aborted : Bool) (a : Attempt) (now : ℕ) (rs : List Round)
      → ((from' k' : ℕ) → Enough from' k' rs → acquire deadline rs ≢ undecided)
      → WaitsRound poll from a now rs
      → deadline + 1 ≤ from + k * poll
      → k + (reclaims a + reclaimed rs) < suc (length rs)
      → acquire_round deadline aborted a now (acquire deadline rs) ≢ undecided
  unfolding acquire_round
  round_ends from k true a now rs ih w d l = λ e. cc
  round_ends from k false created now rs ih w d l = λ e. cc
  round_ends from k false denied now rs ih w d l = λ e. cc
  round_ends from k false (present true) now rs ih w d l = ih from k (w, d, omega arith)
  round_ends from zero false (present false) now rs ih w d l =
      let late : leb deadline now ≡ true = ground (arith, w.0) in rw late (λ e. cc)
  round_ends from (suc k) false (present false) now rs ih (w, ws) d l =
      if-cases (λ x. x ≢ undecided) (leb deadline now) _ _ (λ _ e. cc)
        (λ _. ih (now + poll) k (ws, grind arith, omega arith))

  acquire_ends : (rs : List Round) (from k : ℕ) → Enough from k rs → acquire deadline rs ≢ undecided
  acquire_ends [] from k h = absurd (omega arith)
  acquire_ends (r ∷ rs) from k (w, d, l) = rw (acquire-round deadline r rs) (
      round_ends from k r.aborted r.attempt r.now rs (λ f j. acquire_ends rs f j)
        (Waits-round poll from r.attempt r.aborted r.now rs w) d l)

-- The loop of `acquireFileLock` ends, with the lock or with an error: if the clock goes on by at least the
-- poll interval from one waiting round to the next, and `k` intervals from the start lead past the
-- deadline, then it ends within `k` rounds, one more, and one for each lock that it reclaims from an owner
-- that is gone.
pub acquire_decides :
    (deadline poll from k : ℕ) (rs : List Round)
    → 1 ≤ poll
    → Waits poll from rs
    → deadline < from + k * poll
    → k + reclaimed rs < length rs
    → acquire deadline rs ≢ undecided
acquire_decides deadline poll from k rs p w d l =
    acquire_ends deadline poll p rs from k (w, omega arith, l)
