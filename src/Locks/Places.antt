-- ===== src/Locks/Places.antt =====
-- What keeps the invariant of the lock file when one process goes from place to place, or puts its file at
-- the path or takes it away.
use browserlogin_client.Prelude.{
  ℕ, true, false, Option, none, some, ◌≡◌, refl, ◌≢◌, inl, inr, arith, ◌==◌, Bool-cases,
}
use mathlib.Core.Path.{subst}
use browserlogin_client.Locks.LockFile.{
  LockFile, Pc, idle, dead, opening, writing, holding, reading, probing, aging, rereading,
  comparing, unlinking, polling, releasing, removing, System, update, goes, goes_with, same_owner,
  has_file,
}
use browserlogin_client.Locks.Ownership.{
  Owns, Fine, Inv, Fine-creator, has_file_unique, Owns-has_file, Fine-idle, update_self,
  update_other, update-dead, Fine-pc,
}

module _ (s : System) (inv : Inv s) (i : ℕ) where
  -- A process without a file goes on to a place without one.
  pub goes-Inv :
      (p : Pc)
      → has_file (s.pc i) ≡ false
      → has_file p ≡ false
      → (s.pc i ≡ dead → p ≡ dead)
      → Fine s.file s.pc i p
      → Inv (goes s i p)
  goes-Inv p before after still fine = record {
    owned = λ f e. elim (Bool-cases (i == f.creator)) [
      | inl same ↦
          let c : i ≡ f.creator = ground (arith, same) in
          cc (Owns-has_file _ _ _ (inv.owned f e), before, c)
      | inr other ↦ rw other (inv.owned f e)
    ];
    kept = λ k. Fine-pc s.file s.pc _ k _ (update-dead s.pc i p still) (mine k);
  }
    where
      mine : (k : ℕ) → Fine s.file s.pc k (update s.pc i p k)
      mine k = elim (Bool-cases (i == k)) [
        | inl same ↦ let c : i ≡ k = ground (arith, same) in rw same (rw (← c) fine)
        | inr other ↦ rw other (inv.kept k)
      ]

  -- A process puts its file at the path, writes it or takes it away; nobody else has one.
  pub file-Inv :
      (F : Option LockFile) (p : Pc)
      → ((f : LockFile) → F ≡ some f → (f.creator ≡ i) × Owns i f.owner p)
      → Fine F s.pc i p
      → ((k : ℕ) → (i == k) ≡ false → has_file (s.pc k) ≡ false)
      → s.pc i ≢ dead
      → Inv (goes_with F s i p)
  file-Inv F p owned fine alone alive = record {
    owned = λ f e. let (c, o) = owned f e in rw c (rw (update_self s.pc i p) o);
    kept = λ k. elim (Bool-cases (i == k)) [
      | inl same ↦
          let c : i ≡ k = ground (arith, same) in
          rw (← c) (rw (update_self s.pc i p) (Fine-pc F s.pc _ i p still fine))
      | inr other ↦
          rw (update_other s.pc i k p other)
            (Fine-idle s.file F s.pc _ k (s.pc k) (alone k other) still (inv.kept k))
    ];
  }
    where
      still : (j : ℕ) → s.pc j ≡ dead → update s.pc i p j ≡ dead
      still = update-dead s.pc i p (λ d. absurd (alive d))

  -- While a process has its file, nobody else has one; nor while there is none.
  pub alone_with_file :
      has_file (s.pc i) ≡ true → (k : ℕ) → (i == k) ≡ false → has_file (s.pc k) ≡ false
  alone_with_file mine k other = elim (Bool-cases (has_file (s.pc k))) [
    | inl has ↦ absurd (ground (arith, has_file_unique inv i k mine has, other))
    | inr lacks ↦ lacks
  ]

  pub alone_without_file : s.file ≡ none → (k : ℕ) → (i == k) ≡ false → has_file (s.pc k) ≡ false
  alone_without_file e k other = elim (Bool-cases (has_file (s.pc k))) [
    | inl has ↦ let (f, e', c) = Fine-creator s.file s.pc k (s.pc k) (inv.kept k) has in cc (e, e')
    | inr lacks ↦ lacks
  ]

pub same_owner-eq : (o : Option ℕ) (j : ℕ) → same_owner o (some j) ≡ true → o ≡ some j
same_owner-eq none j h = cc
same_owner-eq (some i) j h = ground arith

pub Owns-owner : (i j : ℕ) (p : Pc) → Owns i (some j) p → j ≡ i
Owns-owner i j writing h = cc
Owns-owner i j holding h = cc
Owns-owner i j releasing h = cc
Owns-owner i j removing h = cc
Owns-owner i j idle h = absurd h
Owns-owner i j dead h = absurd h
Owns-owner i j opening h = absurd h
Owns-owner i j reading h = absurd h
Owns-owner i j (probing _) h = absurd h
Owns-owner i j aging h = absurd h
Owns-owner i j rereading h = absurd h
Owns-owner i j (comparing _) h = absurd h
Owns-owner i j unlinking h = absurd h
Owns-owner i j polling h = absurd h

-- The file at the path, if it is known, is as it is known.
pub known :
    (i : ℕ) (o : Option ℕ) (p : Pc) (f : LockFile)
    → some (record { creator = i; owner = o }) ≡ some f
    → Owns i o p
    → (f.creator ≡ i) × Owns i f.owner p
known i o p f e h =
    let same : record { creator = i; owner = o } ≡ f = cc in
    subst (λ (g : LockFile). (g.creator ≡ i) × Owns i g.owner p) same (refl, h)
