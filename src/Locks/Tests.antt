-- ===== src/Locks/Tests.antt =====
-- Locks at small runs.
use browserlogin_client.Prelude.{ℕ, true, false, none, some, List, [], ◌∷◌, ◌≡◌, ◌≢◌, refl, arith}
use browserlogin_client.Locks.LockFile.{
  System, Answer, holding, move, move_at, open_new, write_owner, read_owner, compare_bytes,
  remove_stale, read_age, reread, free, run, crash, critical,
}
use browserlogin_client.Locks.Ownership.{Reach, start, later, moves}
use browserlogin_client.Locks.Exclusion.{mutual_exclusion}
use browserlogin_client.Locks.Acquire.{
  Round, created, present, acquire, undecided, timeout_error, acquire_decides,
}
use browserlogin_client.Locks.Mutex.{
  waiting, working, released, new_mutex, MutexEvent, enqueues, begins, ends, handle_all,
}
use browserlogin_client.Locks.Mutex.Turns.{InTurn, handle_all-InTurn}

-- The lock is present in three rounds; the deadline passes in the third.
abbrev three_rounds : List Round
three_rounds =
    record { aborted = false; attempt = present false; now = 100 }
    ∷ record { aborted = false; attempt = present true; now = 0 }
    ∷ record { aborted = false; attempt = present false; now = 110 }
    ∷ record { aborted = false; attempt = present false; now = 125 }
    ∷ record { aborted = false; attempt = created; now = 140 }
    ∷ []

three_rounds_test : acquire 119 three_rounds ≡ timeout_error
unfolding acquire
three_rounds_test = refl

acquire_decides_example : acquire 119 three_rounds ≢ undecided
acquire_decides_example =
    acquire_decides 119 10 100 2 three_rounds (omega arith) (omega arith) (omega arith)
      (omega arith)

-- The second call comes while the first works, and the third after the second has begun.
abbrev three_calls : List MutexEvent
three_calls =
    enqueues ∷ begins 0 ∷ enqueues ∷ begins 1 ∷ ends 0 ∷ begins 1 ∷ enqueues ∷ begins 2 ∷ []

three_calls_test : handle_all three_calls new_mutex ≡ record {
  calls =
      record { previous = some 1; stage = waiting }
      ∷ record { previous = some 0; stage = working }
      ∷ record { previous = none; stage = released }
      ∷ [];
  tail = some 2;
}
unfolding handle_all
three_calls_test = refl

handle_all-InTurn_example : InTurn (handle_all three_calls new_mutex).calls
handle_all-InTurn_example = handle_all-InTurn three_calls

abbrev calm : Answer
calm = record { aborted = false; alive = true; aged = false; late = false }

abbrev gone : Answer
gone = record calm { alive = false }

-- Process 0 dies while it holds the lock. Processes 1 and 2 both read its record, find it dead and compare
-- the file's bytes; then 1 removes the file and takes the lock, and 2 removes the file of 1.
abbrev left : System
left = crash 0 (run ((0, calm) ∷ (0, calm) ∷ (0, calm) ∷ []) free)

abbrev race : System
race =
    run
      ((1, calm)
        ∷ (1, calm)
        ∷ (1, calm)
        ∷ (1, gone)
        ∷ (1, calm)
        ∷ (2, calm)
        ∷ (2, calm)
        ∷ (2, calm)
        ∷ (2, gone)
        ∷ (2, calm)
        ∷ (1, calm)
        ∷ (1, calm)
        ∷ (1, calm)
        ∷ (2, calm)
        ∷ (2, calm)
        ∷ (2, calm)
        ∷ [])
      left

two_holders_test : (race.pc 1 ≡ holding) × (race.pc 2 ≡ holding)
unfolding run move move_at open_new write_owner read_owner compare_bytes remove_stale
two_holders_test = (refl, refl)

abbrev old : Answer
old = record calm { aged = true }

-- Process 1 reads the file of process 0 before its owner is written, and looks at its age only when the
-- grace period is over and 0 works under the lock; what it reads again and compares is 0's own record.
abbrev late_look : System
late_look =
    run
      ((0, calm)
        ∷ (0, calm)
        ∷ (1, calm)
        ∷ (1, calm)
        ∷ (1, calm)
        ∷ (0, calm)
        ∷ (1, old)
        ∷ (1, calm)
        ∷ (1, calm)
        ∷ (1, calm)
        ∷ (1, calm)
        ∷ (1, calm)
        ∷ [])
      free

late_look_test : (late_look.pc 0 ≡ holding) × (late_look.pc 1 ≡ holding)
unfolding run move move_at open_new write_owner read_owner read_age reread compare_bytes
    remove_stale
late_look_test = (refl, refl)

-- One process takes the lock.
abbrev held : System
held = run ((0, calm) ∷ (0, calm) ∷ (0, calm) ∷ []) free

held-Reach : Reach held
unfolding run move move_at open_new write_owner
held-Reach = later (later (later start (moves 0 calm tt)) (moves 0 calm tt)) (moves 0 calm tt)

held_critical : critical (held.pc 0) ≡ true
unfolding run move move_at open_new write_owner
held_critical = refl

mutual_exclusion_example : ◌≡◌ {A = ℕ} 0 0
mutual_exclusion_example = mutual_exclusion 0 0 held-Reach held_critical held_critical
