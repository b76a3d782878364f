-- ===== src/Locks/Mutex.antt =====
-- src/core/locks/locks.ts: `enqueue`, which runs the work of one process under one key in turn. The calls
-- under a key are numbered as they come. A call awaits the promise that it found in `mutexes`, and puts
-- its own, `queued`, in its place, which resolves once that one has and the call has released.
pub mod Turns
use browserlogin_client.Prelude.{
  ℕ, zero, suc, ◌≤◌, ◌<◌, Bool, true, false, not, Option, none, some, List, [], ◌∷◌, ◌&&◌, ◌||◌,
  ◌==◌, if◌then◌else◌, if-cases, Bool-cases, inl, inr, ◌⊎◌, ◌≡◌, refl, sym, ap, ◌∙◌, arith, length,
  All,
}

-- Where a call is: before `await previous`, in its work, or past its `finally`.
pub data Stage : Type 0 where
  waiting working released : Stage

-- `previous` is the number of the call whose `queued` it is; none is `Promise.resolve()`.
pub record Call : Type 0 where
  pub previous : Option ℕ
  pub stage : Stage

-- The calls so far, the last first, and what `mutexes` has under the key: a call's `queued`.
pub record Mutex : Type 0 where
  pub calls : List Call
  pub tail : Option ℕ

abbrev pub new_mutex : Mutex
new_mutex = record { calls = []; tail = none }

abbrev pub is_released : Stage → Bool
is_released released = true
is_released _ = false

-- Whether the promise of a call has resolved: it has released, and the one that it awaited has resolved.
unfoldable pub resolved : List Call → Option ℕ → Bool
resolved cs none = true
resolved [] (some n) = true
resolved (c ∷ cs) (some n) =
    let before = resolved cs c.previous in
    let other = resolved cs (some n) in
    if n == length cs then is_released c.stage && before else other

-- `enqueue` up to its `await previous`.
unfoldable pub enqueue : Mutex → Mutex
enqueue m = record {
  calls = record { previous = m.tail; stage = waiting } ∷ m.calls;
  tail = some (length m.calls);
}

-- The continuation of `await previous`, which comes at any time after `previous` resolved.
abbrev pub begin_at : Stage → Bool → Stage
begin_at waiting true = working
begin_at s _ = s

-- The call of a number, changed by its function of the calls before it.
unfoldable pub change : (List Call → Call → Call) → ℕ → List Call → List Call
change f n [] = []
change f n (c ∷ cs) = let rest = change f n cs in if n == length cs then f cs c ∷ cs else c ∷ rest

unfoldable pub begin_call : List Call → Call → Call
unfolding resolved
begin_call cs c = record c { stage = begin_at c.stage (resolved cs c.previous) }

unfoldable pub begin : ℕ → Mutex → Mutex
unfolding change begin_call
begin n m = record m { calls = change begin_call n m.calls }

-- `release()`
abbrev pub release_at : Stage → Stage
release_at working = released
release_at s = s

unfoldable pub release_call : List Call → Call → Call
release_call cs c = record c { stage = release_at c.stage }

abbrev pub works : Stage → Bool
works working = true
works _ = false

unfoldable pub is_working : ℕ → List Call → Bool
is_working n [] = false
is_working n (c ∷ cs) = let rest = is_working n cs in if n == length cs then works c.stage else rest

abbrev pub is_tail : ℕ → Option ℕ → Bool
is_tail n none = false
is_tail n (some t) = t == n

-- The `finally` of a call whose work has ended: it releases, and the key is deleted if it still has
-- the call's `queued`.
unfoldable pub finish : ℕ → Mutex → Mutex
unfolding change release_call is_working
finish n m =
    if is_working n m.calls
    then record {
      calls = change release_call n m.calls;
      tail = if is_tail n m.tail then none else m.tail;
    }
    else m

pub data MutexEvent : Type 0 where
  enqueues : MutexEvent
  begins ends : ℕ → MutexEvent

unfoldable pub handle : MutexEvent → Mutex → Mutex
unfolding enqueue begin finish
handle enqueues m = enqueue m
handle (begins n) m = begin n m
handle (ends n) m = finish n m

unfoldable pub handle_all : List MutexEvent → Mutex → Mutex
unfolding handle
handle_all [] m = m
handle_all (e ∷ es) m = handle_all es (handle e m)
