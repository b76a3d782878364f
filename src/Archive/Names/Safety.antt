-- ===== src/Archive/Names/Safety.antt =====
-- What a name that `normalizeName` accepts can do once it is joined to a directory.
use browserlogin_client.Prelude.{
  ℕ, Bool, true, false, List, [], ◌∷◌, map, ◌||◌, ◌==◌, ltb, if◌then◌else◌, any, All, ◌≡◌, refl,
  arith,
}
use mathlib.Core.Path.{subst}
use browserlogin_client.Archive.Names.{
  ArchiveCode, unsafe_path, absolute_path, drive_path, invalid_name, reserved_name, reserved, stem,
  starts_slash, drive, unc, Checked, ok, err, ◌>>◌, throw_if, Letters, Name, is_empty, text_eq,
  slash, split, filled, is_parent, ends_badly, is_wild, check_part, check_parts, named, name_parts,
  name_slashed, normalize_name,
}
use browserlogin_client.Archive.Names.Paths.{
  Plain, all-slash, split-plain, filled-Plain, split-join,
}

-- How an operating system goes from a directory along the parts of a path: nothing and `.` stay, `..`
-- goes up, any other part goes down. A directory is its parts, the last first.
abbrev pub above : List (List ℕ) → List (List ℕ)
above [] = []
above (p ∷ ps) = ps

unfoldable pub walk : List (List ℕ) → List (List ℕ) → List (List ℕ)
walk at_ [] = at_
walk at_ (p ∷ ps) =
    if is_empty p || text_eq p (46 ∷ [])
    then walk at_ ps
    else if is_parent p
    then walk (above at_) ps
    else walk (p ∷ at_) ps

pub passed :
    {A : Type 0} (b : Bool) (e : ArchiveCode) (m : Checked A) {a : A}
    → (throw_if b e >> m) ≡ ok a
    → (b ≡ false) × (m ≡ ok a)
passed true e m h = cc
passed false e m h = (refl, h)

pub not_thrown : (b : Bool) (e : ArchiveCode) → throw_if b e ≡ ok tt → b ≡ false
not_thrown true e h = cc
not_thrown false e h = refl

pub bind-ok :
    {A : Type 0} (m : Checked (Unit {0})) (n : Checked A) {a : A}
    → (m >> n) ≡ ok a
    → (m ≡ ok tt) × (n ≡ ok a)
bind-ok (ok tt) n h = (refl, h)
bind-ok (err e) n h = cc

-- The parts of a name that passed every check.
pub record Accepted (l : Letters) (ps : List (List ℕ)) : Type 0 where
  pub some_part : is_empty ps ≡ false
  pub no_parent : any is_parent ps ≡ false
  pub checked : check_parts l ps ≡ ok tt
  pub plain : All Plain ps

name_parts-Accepted :
    (l : Letters) (ps : List (List ℕ)) (n : Name)
    → All Plain ps
    → name_parts l ps ≡ ok n
    → Accepted l ps × (named l ps ≡ n)
unfolding name_parts
name_parts-Accepted l ps n plain h =
    let (sound, rest) = passed (is_empty ps || any is_parent ps) unsafe_path _ h in
    let (checked, named_) = bind-ok (check_parts l ps) _ rest in
    (
      record {
        some_part = ground (arith, sound);
        no_parent = ground (arith, sound);
        checked = checked;
        plain = plain;
      },
      cc,
    )

name_slashed-Accepted :
    (l : Letters) (raw : List ℕ) (n : Name)
    → any (λ c. ltb c 32) raw ≡ false
    → name_slashed l (map slash raw) ≡ ok n
    → (ps : List (List ℕ)) × Accepted l ps × (named l ps ≡ n)
unfolding name_slashed
name_slashed-Accepted l raw n plain h =
    let (_, h1) = passed (starts_slash (map slash raw)) absolute_path _ h in
    let (_, h2) = passed (drive (map slash raw)) drive_path _ h1 in
    let parts = filled-Plain _ (split-plain (map slash raw) (all-slash raw plain)) in
    let (accepted, same) = name_parts-Accepted l _ n parts h2 in
    (filled (split (map slash raw)), accepted, same)

pub normalize_name-Accepted :
    (l : Letters) (raw : List ℕ) (n : Name)
    → normalize_name l raw ≡ ok n
    → (ps : List (List ℕ)) × Accepted l ps × (named l ps ≡ n)
unfolding normalize_name
normalize_name-Accepted l raw n h =
    let (_, h1) = passed (is_empty raw) unsafe_path _ h in
    let (_, h2) = passed (any (λ c. c == 0) raw) invalid_name _ h1 in
    let (plain, h3) = passed (any (λ c. ltb c 32) raw) invalid_name _ h2 in
    let (_, h4) = passed (unc raw) drive_path _ h3 in name_slashed-Accepted l raw n plain h4

-- A part of a path that passed: it has no separator, control character, colon or wildcard, its last
-- character is no dot or space, and what stands before its first dot is, in capitals, none of the names
-- that Windows reserves for devices.
pub record Proper (l : Letters) (p : List ℕ) : Type 0 where
  pub plain : Plain p
  pub no_colon : any (λ c. c == 58) p ≡ false
  pub no_wild : any is_wild p ≡ false
  pub ends_well : ends_badly p ≡ false
  pub no_device : reserved (l.upper (stem p)) ≡ false

check_part-Proper : (l : Letters) (p : List ℕ) → Plain p → check_part l p ≡ ok tt → Proper l p
unfolding check_part
check_part-Proper l p plain h =
    let (ends, h1) = passed (ends_badly p || any (λ c. c == 58) p) invalid_name _ h in
    let (wild, h2) = passed (any is_wild p) invalid_name _ h1 in
    record {
      plain = plain;
      no_colon = ground (arith, ends);
      no_wild = wild;
      ends_well = ground (arith, ends);
      no_device = not_thrown _ reserved_name h2;
    }

pub check_parts-Proper :
    (l : Letters) (ps : List (List ℕ)) → All Plain ps → check_parts l ps ≡ ok tt → All (Proper l) ps
unfolding check_parts
check_parts-Proper l [] plain h = tt
check_parts-Proper l (p ∷ ps) plain h =
    let (one, more) = bind-ok (check_part l p) _ h in
    (check_part-Proper l p plain.0 one, check_parts-Proper l ps plain.1 more)

-- The directory below another along the given parts.
abbrev pub below : List (List ℕ) → List (List ℕ) → List (List ℕ)
below from [] = from
below from (p ∷ ps) = below (p ∷ from) ps

dot-ends_badly : (p : List ℕ) → ends_badly p ≡ false → text_eq p (46 ∷ []) ≡ false
dot-ends_badly [] h = refl
dot-ends_badly (c ∷ []) h = ground arith
dot-ends_badly (c ∷ d ∷ cs) h = ground arith

parent-ends_badly : (p : List ℕ) → ends_badly p ≡ false → is_parent p ≡ false
parent-ends_badly [] h = refl
parent-ends_badly (c ∷ []) h = ground arith
parent-ends_badly (c ∷ d ∷ []) h = ground arith
parent-ends_badly (c ∷ d ∷ e ∷ cs) h = ground arith

walk-Proper :
    (l : Letters) (from ps : List (List ℕ)) → All (Proper l) ps → walk from ps ≡ below from ps
unfolding walk
walk-Proper l from [] h = refl
walk-Proper l from (p ∷ ps) h =
    rw (h.0.plain.filled_part, dot-ends_badly p h.0.ends_well, parent-ends_badly p h.0.ends_well)
      (walk-Proper l (p ∷ from) ps h.1)

split-named : (l : Letters) (ps : List (List ℕ)) → Accepted l ps → split (named l ps).name ≡ ps
split-named l [] a = cc
split-named l (p ∷ ps) a = split-join p ps a.plain

named_inside :
    (l : Letters) (ps from : List (List ℕ))
    → Accepted l ps
    → All (Proper l) ps × (walk from (split (named l ps).name) ≡ below from ps)
named_inside l ps from a =
    let proper = check_parts-Proper l ps a.plain a.checked in
    (proper, rw (split-named l ps a) (walk-Proper l from ps proper))

-- Whatever name an archive gives, if `normalizeName` accepts it, then the way along the accepted name
-- leads from any directory down through one part or more, and never up. Each part holds no separator,
-- control character, colon or wildcard, does not end in a dot or a space, and has before its first dot,
-- in capitals, no name that Windows reserves for a device.
pub normalize_name-stays_inside :
    (l : Letters) (raw : List ℕ) (n : Name) (from : List (List ℕ))
    → normalize_name l raw ≡ ok n
    → (ps : List (List ℕ)) × (is_empty ps ≡ false)
      × All (Proper l) ps
      × (walk from (split n.name) ≡ below from ps)
normalize_name-stays_inside l raw n from h =
    let (ps, a, same) = normalize_name-Accepted l raw n h in
    let (proper, inside) = named_inside l ps from a in
    (ps, a.some_part, proper, subst (λ m. walk from (split m.name) ≡ below from ps) same inside)
