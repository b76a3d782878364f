-- ===== src/Locks/Exclusion.antt =====
-- The invariant of the lock file at each step of the processes.
use browserlogin_client.Prelude.{
  ℕ, Bool, true, false, Option, none, some, ◌≡◌, refl, sym, ap, ◌∙◌, ◌≢◌, inl, inr, arith, ◌==◌,
  if-cases, Bool-cases,
}
use mathlib.Core.Path.{subst}
use browserlogin_client.Locks.LockFile.{
  LockFile, Pc, idle, dead, opening, writing, holding, reading, probing, aging, rereading,
  comparing, unlinking, polling, releasing, removing, System, Answer, goes, open_new, write_owner,
  after_read, read_owner, read_age, same_owner, compare_bytes, move_at, move, critical, has_file,
}
use browserlogin_client.Locks.Ownership.{
  Truthful, Step, moves, dies, Reach, start, later, Owns, written, Fine, Inv, has_file_unique,
  Owns-has_file,
}
use browserlogin_client.Locks.Places.{
  goes-Inv, file-Inv, alone_with_file, alone_without_file, same_owner-eq, Owns-owner, known,
}

module _ (s : System) (inv : Inv s) (i : ℕ) where
  -- As `goes-Inv`, from a known place that is not death.
  quiet :
      (p q : Pc)
      → s.pc i ≡ p
      → has_file p ≡ false
      → p ≢ dead
      → has_file q ≡ false
      → Fine s.file s.pc i q
      → Inv (goes s i q)
  quiet p q e before alive after fine =
      goes-Inv s inv i q (ap has_file e ∙ before) after (λ d. absurd (alive (sym e ∙ d))) fine

  open_new-Inv : (F : Option LockFile) → s.file ≡ F → s.pc i ≡ opening → Inv (open_new F i s)
  unfolding open_new
  open_new-Inv none e at_ =
      file-Inv s inv i _ writing (λ f h. known i none writing f h refl) refl
        (alone_without_file s inv i e) (λ d. cc (d, at_))
  open_new-Inv (some f) e at_ = quiet opening reading at_ refl (λ d. cc) refl tt

  write_owner-Inv : (F : Option LockFile) → s.file ≡ F → s.pc i ≡ writing → Inv (write_owner F i s)
  unfolding write_owner
  write_owner-Inv F e at_ =
      let fine : s.file ≡ some (record { creator = i; owner = none }) =
        subst (λ p. Fine s.file s.pc i p) at_ (inv.kept i) in
      let self : (i == i) ≡ true = ground arith in
      rw (sym e ∙ fine) (
        rw self (
          file-Inv s inv i _ holding (λ f h. known i (some i) holding f h refl) refl
            (alone_with_file s inv i (ap has_file at_)) (λ d. cc (d, at_))))

  -- Its own file is at the path from the write to the removal.
  own_file :
      (p q : Pc)
      → s.pc i ≡ p
      → has_file p ≡ true
      → p ≢ dead
      → s.file ≡ written i
      → Owns i (some i) q
      → Fine (written i) s.pc i q
      → Inv (goes s i q)
  own_file p q at_ has alive e owns fine =
      file-Inv s inv i s.file q (λ f h. known i (some i) q f (sym e ∙ h) owns) (rw e fine)
        (alone_with_file s inv i (ap has_file at_ ∙ has)) (λ d. alive (sym at_ ∙ d))

  read_age-Inv :
      (F : Option LockFile) (aged : Bool)
      → s.file ≡ F
      → s.pc i ≡ aging
      → (aged ≡ true → (f : LockFile) → s.file ≡ some f → s.pc f.creator ≡ dead)
      → Inv (read_age F aged i s)
  unfolding read_age
  read_age-Inv none aged e at_ t = quiet aging polling at_ refl (λ d. cc) refl tt
  read_age-Inv (some f) aged e at_ t =
      if-cases (λ q. Inv (goes s i q)) aged _ _
        (λ old. absurd (cc (t old f e, Owns-has_file _ _ _ (inv.owned f e))))
        (λ _. quiet aging polling at_ refl (λ d. cc) refl tt)

  compare_stale-Inv :
      (j : ℕ) (F : Option LockFile)
      → s.file ≡ F
      → s.pc i ≡ comparing (some j)
      → Inv (compare_bytes (some j) unlinking polling F i s)
  unfolding compare_bytes
  compare_stale-Inv j none e at_ = quiet _ polling at_ refl (λ d. cc) refl tt
  compare_stale-Inv j (some f) e at_ = elim (Bool-cases (same_owner f.owner (some j))) [
    | inl same ↦
        let gone : s.pc j ≡ dead = subst (λ p. Fine s.file s.pc i p) at_ (inv.kept i) in
        let named : f.owner ≡ some j = same_owner-eq f.owner j same in
        let creator : j ≡ f.creator =
          Owns-owner f.creator j _
            (subst (λ o. Owns f.creator o (s.pc f.creator)) named (inv.owned f e)) in
        cc (gone, creator, Owns-has_file _ _ _ (inv.owned f e))
    | inr other ↦ rw other (quiet _ polling at_ refl (λ d. cc) refl tt)
  ]

  release-Inv :
      (F : Option LockFile)
      → s.file ≡ F
      → s.pc i ≡ releasing
      → Inv (compare_bytes (some i) removing idle F i s)
  unfolding compare_bytes
  release-Inv F e at_ =
      let fine : s.file ≡ written i = subst (λ p. Fine s.file s.pc i p) at_ (inv.kept i) in
      let self : (i == i) ≡ true = ground arith in
      rw (sym e ∙ fine) (rw self (own_file releasing removing at_ refl (λ d. cc) fine refl refl))

  -- A move under truthful answers.
  move_at-Inv : (p : Pc) (a : Answer) → s.pc i ≡ p → Truthful s p a → Inv (move_at p i a s)
  unfolding move_at read_owner
  move_at-Inv idle a at_ t = quiet idle opening at_ refl (λ d. cc) refl tt
  move_at-Inv dead a at_ t = inv
  move_at-Inv opening a at_ t =
      if-cases Inv a.aborted _ _ (λ _. quiet opening idle at_ refl (λ d. cc) refl tt)
        (λ _. open_new-Inv s.file refl at_)
  move_at-Inv writing a at_ t = write_owner-Inv s.file refl at_
  move_at-Inv holding a at_ t =
      let fine : s.file ≡ written i = subst (λ p. Fine s.file s.pc i p) at_ (inv.kept i) in
      own_file holding releasing at_ refl (λ d. cc) fine refl refl
  move_at-Inv reading a at_ t = read-Inv s.file at_
    where
      after : (o : Option ℕ) → s.pc i ≡ reading → Inv (goes s i (after_read o))
      after none h = quiet reading aging h refl (λ d. cc) refl tt
      after (some j) h = quiet reading (probing j) h refl (λ d. cc) refl tt

      read-Inv : (F : Option LockFile) → s.pc i ≡ reading → Inv (read_owner F i s)
      read-Inv none h = quiet reading aging h refl (λ d. cc) refl tt
      read-Inv (some f) h = after f.owner h
  move_at-Inv (probing j) a at_ t =
      if-cases (λ q. Inv (goes s i q)) a.alive _ _
        (λ _. quiet (probing j) polling at_ refl (λ d. cc) refl tt)
        (λ gone. quiet (probing j) (comparing (some j)) at_ refl (λ d. cc) refl (t gone))
  move_at-Inv aging a at_ t = read_age-Inv s.file a.aged refl at_ t
  move_at-Inv rereading a at_ t = absurd (subst (λ p. Fine s.file s.pc i p) at_ (inv.kept i))
  move_at-Inv (comparing none) a at_ t = absurd (subst (λ p. Fine s.file s.pc i p) at_ (inv.kept i))
  move_at-Inv (comparing (some j)) a at_ t = compare_stale-Inv j s.file refl at_
  move_at-Inv unlinking a at_ t = absurd (subst (λ p. Fine s.file s.pc i p) at_ (inv.kept i))
  move_at-Inv polling a at_ t =
      if-cases (λ q. Inv (goes s i q)) a.late _ _
        (λ _. quiet polling idle at_ refl (λ d. cc) refl tt)
        (λ _. quiet polling opening at_ refl (λ d. cc) refl tt)
  move_at-Inv releasing a at_ t = release-Inv s.file refl at_
  move_at-Inv removing a at_ t =
      file-Inv s inv i none idle (λ f h. cc h) tt (alone_with_file s inv i (ap has_file at_))
        (λ d. cc (d, at_))

Step-Inv : {s t : System} → Inv s → Step s t → Inv t
unfolding move
Step-Inv {s} inv (moves i a t) = move_at-Inv s inv i (s.pc i) a refl t
Step-Inv {s} inv (dies i e) = goes-Inv s inv i dead e refl (λ _. refl) tt

Reach-Inv : {s : System} → Reach s → Inv s
Reach-Inv start = record { owned = λ f e. cc; kept = λ i. tt }
Reach-Inv (later r st) = Step-Inv (Reach-Inv r) st

critical-has_file : (p : Pc) → critical p ≡ true → has_file p ≡ true
critical-has_file writing h = refl
critical-has_file holding h = h
critical-has_file _ h = h

-- However the processes interleave, two of them never work under the same lock, if the probe finds no
-- living process dead; if the file whose age a process looks at, after it read no owner, is within the
-- grace period then, unless its creator is dead, whether or not that creator has written its name in the
-- meantime; and if no process dies between the creation of its file and the file's removal.
pub mutual_exclusion :
    {s : System} (i j : ℕ) → Reach s → critical (s.pc i) ≡ true → critical (s.pc j) ≡ true → i ≡ j
mutual_exclusion i j r hi hj =
    has_file_unique (Reach-Inv r) i j (critical-has_file _ hi) (critical-has_file _ hj)
