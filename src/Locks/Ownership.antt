-- ===== src/Locks/Ownership.antt =====
-- Steps of the processes at a lock file, and what holds of the file and of each process while no
-- process dies with its file in place.
use browserlogin_client.Prelude.{
  ℕ, true, false, Option, none, some, ◌≡◌, refl, inl, inr, arith, ◌==◌, Bool-cases,
}
use browserlogin_client.Locks.LockFile.{
  LockFile, Pc, idle, dead, opening, writing, holding, reading, probing, aging, rereading,
  comparing, unlinking, polling, releasing, removing, System, Answer, update, move, free, crash,
  has_file,
}

-- What is asked of the answers. A process that does not answer the probe is dead. The file whose age a
-- process looks at, after it read no owner, has outlived the grace period only if its creator is
-- dead: from a living process's creation of the file to this look, which may come after the owner was
-- written, less time passes than the grace period.
abbrev pub Truthful : System → Pc → Answer → Type 0
Truthful s (probing j) a = a.alive ≡ false → s.pc j ≡ dead
Truthful s aging a = a.aged ≡ true → (f : LockFile) → s.file ≡ some f → s.pc f.creator ≡ dead
Truthful s _ a = Unit

-- Any process moves, or dies while it has no file.
pub data Step (s : System) : System → Type 0 where
  moves : (i : ℕ) (a : Answer) → Truthful s (s.pc i) a → Step s (move i a s)
  dies : (i : ℕ) → has_file (s.pc i) ≡ false → Step s (crash i s)

pub data Reach : System → Type 0 where
  start : Reach free
  later : {s t : System} → Reach s → Step s t → Reach t

-- The file's creator is at work on it.
abbrev pub Owns : ℕ → Option ℕ → Pc → Type 0
Owns i owner writing = owner ≡ none
Owns i owner holding = owner ≡ some i
Owns i owner releasing = owner ≡ some i
Owns i owner removing = owner ≡ some i
Owns i owner _ = ⊥

abbrev pub written : ℕ → Option LockFile
written i = some (record { creator = i; owner = some i })

abbrev pub Fine : Option LockFile → (ℕ → Pc) → ℕ → Pc → Type 0
Fine f pc i writing = f ≡ some (record { creator = i; owner = none })
Fine f pc i holding = f ≡ written i
Fine f pc i releasing = f ≡ written i
Fine f pc i removing = f ≡ written i
Fine f pc i rereading = ⊥
Fine f pc i unlinking = ⊥
Fine f pc i (comparing none) = ⊥
Fine f pc i (comparing (some j)) = pc j ≡ dead
Fine f pc i _ = Unit

pub record Inv (s : System) : Type 0 where
  pub owned : (f : LockFile) → s.file ≡ some f → Owns f.creator f.owner (s.pc f.creator)
  pub kept : (i : ℕ) → Fine s.file s.pc i (s.pc i)

-- A process that has a file is the creator of the one at the path.
pub Fine-creator :
    (f : Option LockFile) (pc : ℕ → Pc) (i : ℕ) (p : Pc)
    → Fine f pc i p
    → has_file p ≡ true
    → (g : LockFile) × (f ≡ some g) × (g.creator ≡ i)
Fine-creator f pc i writing h e = (_, h, refl)
Fine-creator f pc i holding h e = (_, h, refl)
Fine-creator f pc i releasing h e = (_, h, refl)
Fine-creator f pc i removing h e = (_, h, refl)
Fine-creator f pc i idle h e = cc
Fine-creator f pc i dead h e = cc
Fine-creator f pc i opening h e = cc
Fine-creator f pc i reading h e = cc
Fine-creator f pc i (probing _) h e = cc
Fine-creator f pc i aging h e = cc
Fine-creator f pc i rereading h e = cc
Fine-creator f pc i (comparing _) h e = cc
Fine-creator f pc i unlinking h e = cc
Fine-creator f pc i polling h e = cc

pub has_file_unique :
    {s : System} → Inv s → (i j : ℕ) → has_file (s.pc i) ≡ true → has_file (s.pc j) ≡ true → i ≡ j
has_file_unique {s} inv i j hi hj =
    let (f, e, c) = Fine-creator s.file s.pc i (s.pc i) (inv.kept i) hi in
    let (g, e', c') = Fine-creator s.file s.pc j (s.pc j) (inv.kept j) hj in
    let same : f ≡ g = cc in cc

pub Owns-has_file : (i : ℕ) (o : Option ℕ) (p : Pc) → Owns i o p → has_file p ≡ true
Owns-has_file i o writing h = refl
Owns-has_file i o holding h = refl
Owns-has_file i o releasing h = refl
Owns-has_file i o removing h = refl
Owns-has_file i o idle h = absurd h
Owns-has_file i o dead h = absurd h
Owns-has_file i o opening h = absurd h
Owns-has_file i o reading h = absurd h
Owns-has_file i o (probing _) h = absurd h
Owns-has_file i o aging h = absurd h
Owns-has_file i o rereading h = absurd h
Owns-has_file i o (comparing _) h = absurd h
Owns-has_file i o unlinking h = absurd h
Owns-has_file i o polling h = absurd h

-- What is fine for a process without a file stays so, whatever the file and the living do.
pub Fine-idle :
    (f g : Option LockFile) (pc qc : ℕ → Pc) (i : ℕ) (p : Pc)
    → has_file p ≡ false
    → ((j : ℕ) → pc j ≡ dead → qc j ≡ dead)
    → Fine f pc i p
    → Fine g qc i p
Fine-idle f g pc qc i idle e d h = tt
Fine-idle f g pc qc i dead e d h = tt
Fine-idle f g pc qc i opening e d h = tt
Fine-idle f g pc qc i reading e d h = tt
Fine-idle f g pc qc i (probing _) e d h = tt
Fine-idle f g pc qc i aging e d h = tt
Fine-idle f g pc qc i rereading e d h = absurd h
Fine-idle f g pc qc i (comparing none) e d h = absurd h
Fine-idle f g pc qc i (comparing (some j)) e d h = d j h
Fine-idle f g pc qc i unlinking e d h = absurd h
Fine-idle f g pc qc i polling e d h = tt
Fine-idle f g pc qc i writing e d h = cc
Fine-idle f g pc qc i holding e d h = cc
Fine-idle f g pc qc i releasing e d h = cc
Fine-idle f g pc qc i removing e d h = cc

pub update_self : (pc : ℕ → Pc) (i : ℕ) (p : Pc) → update pc i p i ≡ p
update_self pc i p = let e : (i == i) ≡ true = ground arith in rw e

pub update-dead :
    (pc : ℕ → Pc) (i : ℕ) (p : Pc)
    → (pc i ≡ dead → p ≡ dead)
    → (j : ℕ) → pc j ≡ dead
    → update pc i p j ≡ dead
update-dead pc i p k j d = elim (Bool-cases (i == j)) [
  | inl same ↦ let e : i ≡ j = ground (arith, same) in rw same (k (rw e d))
  | inr other ↦ rw other d
]

pub Fine-pc :
    (f : Option LockFile) (pc qc : ℕ → Pc) (i : ℕ) (p : Pc)
    → ((j : ℕ) → pc j ≡ dead → qc j ≡ dead)
    → Fine f pc i p
    → Fine f qc i p
Fine-pc f pc qc i p d h = elim (Bool-cases (has_file p)) [
  | inl has ↦ stays p has h
  | inr lacks ↦ Fine-idle f f pc qc i p lacks d h
]
  where
    stays : (q : Pc) → has_file q ≡ true → Fine f pc i q → Fine f qc i q
    stays writing e h = h
    stays holding e h = h
    stays releasing e h = h
    stays removing e h = h
    stays idle e h = cc
    stays dead e h = cc
    stays opening e h = cc
    stays reading e h = cc
    stays (probing _) e h = cc
    stays aging e h = cc
    stays rereading e h = cc
    stays (comparing _) e h = cc
    stays unlinking e h = cc
    stays polling e h = cc

pub update_other : (pc : ℕ → Pc) (i k : ℕ) (p : Pc) → (i == k) ≡ false → update pc i p k ≡ pc k
update_other pc i k p h = rw h
