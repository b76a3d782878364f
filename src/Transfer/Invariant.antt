-- ===== src/Transfer/Invariant.antt =====
-- The progress store stays well-formed, and reports the end of a transfer once.
use mathlib.Core.Path.{subst}
use browserlogin_client.Prelude.{
  ℕ, ◌≤◌, String, false, not, Option, none, some, List, [], ◌∷◌, ◌≡◌, refl, sym, ◌∙◌, All, arith,
  str_eq, eq_iff, if-cases, is_some,
}
use browserlogin_client.Transfer.{
  TransferStatus, expired, Request, records, fails, polls, or_unchanged, serve, serve_all,
  Direction, upload, TransferProgress, Snapshot, ProgressEntry, Refusal, Entries, running,
  completed, failed, is_running, key, find, set, refusal, percentage, entry_of, put_unless,
  record_progress, fail_found, fail, reported, kept, snapshot, is_progress,
}

-- The percents of a transfer that is not done.
abbrev pub share : ℕ → ℕ → ℕ
share transferred total =
    percentage
      (record { direction = upload; transferred = transferred; total = total; done = false })

-- The entry is filed under its own key; it has an end time exactly when it does not run; a running
-- one is below 100 percent, and a completed one at 100.
pub record Sound (k : String) (e : ProgressEntry) : Type 0 where
  pub filed : k ≡ key e.snapshot.profile_id e.snapshot.direction
  pub timed : is_some e.terminal_at ≡ not (is_running e.snapshot.status)
  pub partial : e.snapshot.status ≡ running → e.snapshot.percentage ≤ 99
  pub measured :
      e.snapshot.status ≡ running
      → e.snapshot.percentage ≡ share e.snapshot.transferred e.snapshot.total
  pub complete : e.snapshot.status ≡ completed → e.snapshot.percentage ≡ 100

-- Every entry is sound.
abbrev pub WellFormed : Entries → Type 0
WellFormed es = All (λ (x : String × ProgressEntry). Sound x.0 x.1) es

set-WellFormed :
    (k : String) (e : ProgressEntry) (es : Entries)
    → Sound k e
    → WellFormed es
    → WellFormed (set k e es)
set-WellFormed k e [] s h = (s, tt)
set-WellFormed k e ((l, f) ∷ es) s h =
    if-cases WellFormed (str_eq l k) _ _ (λ same. (rw ((eq_iff l k).0 same) s, h.1))
      (λ other. (h.0, set-WellFormed k e es s h.1))

some-inj : {a b : ProgressEntry} → some a ≡ some b → a ≡ b
some-inj e = cc

pub find-Sound :
    (k : String) (es : Entries) (e : ProgressEntry) → WellFormed es → find k es ≡ some e → Sound k e
find-Sound k [] e h = λ f. cc
find-Sound k ((l, g) ∷ es) e h =
    if-cases (λ o. o ≡ some e → Sound k e) (str_eq l k) _ _
      (λ same f.
        subst (λ x. Sound x e) ((eq_iff l k).0 same) (subst (λ g. Sound l g) (some-inj f) h.0))
      (λ other f. find-Sound k es e h.1 f)

entry_of-Sound :
    (profile_id : String) (p : TransferProgress) (now : ℕ)
    → Sound (key profile_id p.direction) (entry_of profile_id p now)
unfolding percentage
entry_of-Sound profile_id p now = record {
  filed = refl;
  timed = ground arith;
  partial = λ e. ground arith;
  measured = λ e. ground arith;
  complete = λ e. ground arith;
}

record_progress-WellFormed :
    (profile_id : String) (p : TransferProgress) (now : ℕ) (es : Entries)
    → WellFormed es
    → WellFormed (or_unchanged (record_progress profile_id p now es) es)
unfolding record_progress
record_progress-WellFormed profile_id p now es h =
    if-cases (λ r. WellFormed (or_unchanged r es)) (not (is_progress profile_id p)) _ _ (λ bad. h)
      (λ good. unless_refused (refusal (find (key profile_id p.direction) es) p))
  where
    unless_refused :
        (r : Option Refusal)
        → WellFormed (
            or_unchanged
              (put_unless r (key profile_id p.direction) (entry_of profile_id p now) es)
              es)
    unless_refused none = set-WellFormed _ _ es (entry_of-Sound profile_id p now) h
    unless_refused (some r) = h

fail-WellFormed :
    (profile_id : String) (d : Direction) (now : ℕ) (es : Entries)
    → WellFormed es
    → WellFormed (fail profile_id d now es)
unfolding fail
fail-WellFormed profile_id d now es h = by_entry (find (key profile_id d) es) refl
  where
    by_entry :
        (o : Option ProgressEntry)
        → find (key profile_id d) es ≡ o
        → WellFormed (fail_found o (key profile_id d) now es)
    by_entry none f = h
    by_entry (some e) f =
        let s : Sound (key profile_id d) e = find-Sound (key profile_id d) es e h f in
        if-cases WellFormed (is_running e.snapshot.status) _ _
          (λ going.
            set-WellFormed _ _ es
              (record {
                filed = s.filed;
                timed = refl;
                partial = λ x. cc;
                measured = λ x. cc;
                complete = λ x. cc;
              })
              h)
          (λ ended. h)

kept-WellFormed : (es : Entries) → WellFormed es → WellFormed (kept es)
unfolding kept
kept-WellFormed [] h = tt
kept-WellFormed ((k, e) ∷ es) h =
    if-cases WellFormed (is_some e.terminal_at) _ _ (λ ended. kept-WellFormed es h.1)
      (λ going. (h.0, kept-WellFormed es h.1))

serve-WellFormed : (r : Request) (es : Entries) → WellFormed es → WellFormed (serve r es)
unfolding serve snapshot
serve-WellFormed (records profile_id p now) es h = record_progress-WellFormed profile_id p now es h
serve-WellFormed (fails profile_id d now) es h = fail-WellFormed profile_id d now es h
serve-WellFormed (polls now ttl) es h = kept-WellFormed es h

-- A store that is well-formed is so after any sequence of calls of `record`, `fail` and `snapshot`,
-- refused ones included: every entry is filed under the key of its profile and direction, has an end
-- time exactly when its transfer does not run, shows at most 99 percent while it runs, and shows 100
-- when it is completed.
pub serve_all-WellFormed :
    (rs : List Request) (es : Entries) → WellFormed es → WellFormed (serve_all rs es)
unfolding serve_all
serve_all-WellFormed [] es h = h
serve_all-WellFormed (r ∷ rs) es h = serve_all-WellFormed rs (serve r es) (serve-WellFormed r es h)

-- The entry's transfer runs.
abbrev pub Going : String × ProgressEntry → Type 0
Going x = x.1.snapshot.status ≡ running

kept-Going : (es : Entries) → WellFormed es → All Going (kept es)
unfolding kept
kept-Going [] h = tt
kept-Going ((k, e) ∷ es) h =
    if-cases (All Going) (is_some e.terminal_at) _ _ (λ ended. kept-Going es h.1)
      (λ going. (not_ended e.snapshot.status (sym h.0.timed ∙ going), kept-Going es h.1))
  where
    not_ended : (s : TransferStatus) → not (is_running s) ≡ false → s ≡ running
    not_ended running h = refl
    not_ended completed h = cc
    not_ended failed h = cc

reported-running :
    (now ttl : ℕ) (es : Entries)
    → All Going es
    → All (λ (s : Snapshot). s.status ≡ running) (reported now ttl es)
unfolding reported
reported-running now ttl [] h = tt
reported-running now ttl ((k, e) ∷ es) h =
    if-cases (All (λ (s : Snapshot). s.status ≡ running)) (expired e.terminal_at now ttl) _ _
      (λ old. reported-running now ttl es h.1) (λ new. (h.0, reported-running now ttl es h.1))

-- The end of a transfer is reported once: what `snapshot` leaves of a well-formed store has running
-- transfers only, so that the next `snapshot` reports no ended one.
pub snapshot-once :
    (now ttl later : ℕ) (es : Entries)
    → WellFormed es
    → All Going (snapshot now ttl es).1
      × All (λ (s : Snapshot). s.status ≡ running) (snapshot later ttl (snapshot now ttl es).1).0
unfolding snapshot
snapshot-once now ttl later es h =
    (kept-Going es h, reported-running later ttl (kept es) (kept-Going es h))
