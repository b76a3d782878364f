-- ===== src/Transfer/Tests.antt =====
-- The progress store at one transfer.
use browserlogin_client.Prelude.{ℕ, ◌≤◌, false, some, [], ◌∷◌, ◌≡◌, refl, All, arith}
use browserlogin_client.Transfer.{
  TransferProgress, ProgressEntry, Snapshot, Entries, upload, running, key, find, set, percentage,
  record_progress, refused, not_monotonic, records, fails, polls, serve_all, snapshot, entry_of,
}
use browserlogin_client.Transfer.Invariant.{WellFormed, Going, serve_all-WellFormed, snapshot-once}
use browserlogin_client.Transfer.Monotone.{record_progress-advances}

abbrev at : ℕ → TransferProgress
at n = record { direction = upload; transferred = n; total = 200; done = false }

abbrev begun : Entries
begun = (key "p1" upload, entry_of "p1" (at 0) 5) ∷ []

begun-WellFormed : WellFormed begun
unfolding percentage
begun-WellFormed = (
  record {
    filed = refl;
    timed = refl;
    partial = λ e. ground arith;
    measured = λ e. refl;
    complete = λ e. cc;
  },
  tt,
)

going_back :
    record_progress "p1" (at 10) 8 (set (key "p1" upload) (entry_of "p1" (at 30) 7) begun)
    ≡ refused not_monotonic
unfolding record_progress key
going_back = refl

serve_all-WellFormed_example :
    WellFormed (serve_all (records "p1" (at 30) 6 ∷ polls 7 30000 ∷ fails "p1" upload 8 ∷ []) begun)
serve_all-WellFormed_example =
    serve_all-WellFormed (records "p1" (at 30) 6 ∷ polls 7 30000 ∷ fails "p1" upload 8 ∷ []) begun
      begun-WellFormed

snapshot-once_example :
    All Going (snapshot 7 30000 begun).1
    × All (λ (s : Snapshot). s.status ≡ running) (snapshot 9 30000 (snapshot 7 30000 begun).1).0
snapshot-once_example = snapshot-once 7 30000 9 begun begun-WellFormed

record_progress-advances_example :
    (new : ProgressEntry) × (find
        (key "p1" upload)
        ((key "p1" upload, entry_of "p1" (at 30) 6) ∷ [])
      ≡ some new)
    × (0 ≤ new.snapshot.transferred)
    × (new.snapshot.total ≡ 200)
    × (0 ≤ new.snapshot.percentage)
unfolding record_progress key percentage
record_progress-advances_example =
    record_progress-advances "p1" (at 30) 6 begun ((key "p1" upload, entry_of "p1" (at 30) 6) ∷ [])
      (entry_of "p1" (at 0) 5) begun-WellFormed refl refl refl
