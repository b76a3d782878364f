-- ===== src/Transfer/Monotone.antt =====
-- The progress of a running transfer does not go back.
use mathlib.Core.Path.{subst}
use native.Mathlib.Nat.{le-div_iff_mul-le, mul-div-le}
use browserlogin_client.Prelude.{
  ℕ, ◌*◌, ◌/◌, ◌≤◌, ◌<◌, String, not, Option, none, some, [], ◌∷◌, ◌≡◌, refl, arith, str_eq,
  eq_refl, if-cases,
}
use browserlogin_client.Transfer.{
  TransferProgress, ProgressEntry, Refusal, Entries, running, key, find, set, accepted, refusal,
  percentage, entry_of, put_unless, record_progress, is_progress,
}
use browserlogin_client.Transfer.Invariant.{WellFormed, Sound, share, find-Sound}

find-set : (k : String) (e : ProgressEntry) (es : Entries) → find k (set k e es) ≡ some e
find-set k e [] = rw (eq_refl k) refl
find-set k e ((l, f) ∷ es) =
    if-cases (λ s. find k s ≡ some e) (str_eq l k) _ _ (λ same. rw same refl)
      (λ other. rw other (find-set k e es))

div-le-div : (a b k : ℕ) → 0 < k → a ≤ b → a / k ≤ b / k
div-le-div a b k p h =
    let m : k * (a / k) ≤ a = mul-div-le a k in (le-div_iff_mul-le p).1 (ground (arith, m))

share-le : (a b total : ℕ) → a ≤ b → share a total ≤ share b total
unfolding percentage
share-le a b total h =
    let d : 0 < total → (a * 100) / total ≤ (b * 100) / total =
      λ p. div-le-div (a * 100) (b * 100) total p (omega (arith, h)) in
    ground (arith, d)

-- What an accepted progress was checked for.
refusal-none :
    (e : ProgressEntry) (p : TransferProgress)
    → e.snapshot.status ≡ running
    → refusal (some e) p ≡ none
    → (e.snapshot.transferred ≤ p.transferred) × (p.total ≡ e.snapshot.total)
refusal-none e p r h = ground arith

put-accepted :
    (r : Option Refusal) (k : String) (e : ProgressEntry) (es es' : Entries)
    → put_unless r k e es ≡ accepted es'
    → (r ≡ none) × (es' ≡ set k e es)
unfolding put_unless
put-accepted none k e es es' h = (refl, cc)
put-accepted (some r) k e es es' h = cc

-- The percents of an entry never fall below those of the transfer so far.
share-le-percentage :
    (p : TransferProgress) (transferred : ℕ)
    → transferred ≤ p.transferred
    → share transferred p.total ≤ percentage p
unfolding percentage
share-le-percentage p transferred h =
    let s = share-le transferred p.transferred p.total h in ground (arith, s)

-- When `record` accepts the progress of a transfer that runs, the store then has an entry for that
-- transfer; its total is the same, and neither its bytes nor its percents are fewer than before.
pub record_progress-advances :
    (profile_id : String) (p : TransferProgress) (now : ℕ) (es es' : Entries) (old : ProgressEntry)
    → WellFormed es
    → find (key profile_id p.direction) es ≡ some old
    → old.snapshot.status ≡ running
    → record_progress profile_id p now es ≡ accepted es'
    → (new : ProgressEntry) × (find (key profile_id p.direction) es' ≡ some new)
      × (old.snapshot.transferred ≤ new.snapshot.transferred)
      × (new.snapshot.total ≡ old.snapshot.total)
      × (old.snapshot.percentage ≤ new.snapshot.percentage)
unfolding record_progress
record_progress-advances profile_id p now es es' old h f r =
    if-cases (λ o. o ≡ accepted es' → Advanced) (not (is_progress profile_id p)) _ _ (λ bad e. cc)
      (λ good e.
        advanced (put-accepted (refusal (find k es) p) k (entry_of profile_id p now) es es' e))
  where
    k : String
    k = key profile_id p.direction

    Advanced : Type 0
    Advanced =
        (new : ProgressEntry) × (find k es' ≡ some new)
        × (old.snapshot.transferred ≤ new.snapshot.transferred)
        × (new.snapshot.total ≡ old.snapshot.total)
        × (old.snapshot.percentage ≤ new.snapshot.percentage)

    advanced :
        (refusal (find k es) p ≡ none) × (es' ≡ set k (entry_of profile_id p now) es) → Advanced
    advanced c =
        let checks = refusal-none old p r (subst (λ o. refusal o p ≡ none) f c.0) in
        let s : Sound k old = find-Sound k es old h f in
        let low : share old.snapshot.transferred p.total ≤ percentage p =
          share-le-percentage p old.snapshot.transferred checks.0 in
        (
          entry_of profile_id p now,
          rw (c.1) (find-set k _ es),
          checks.0,
          checks.1,
          rw (s.measured r, ← (checks.1)) low,
        )
