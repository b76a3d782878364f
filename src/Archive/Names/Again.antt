-- ===== src/Archive/Names/Again.antt =====
-- `normalizeName` run on what it gave: the check of the central directory's names and the check of the
-- local headers' names are the same function, and a name that is stored is one that passes again.
use browserlogin_client.Prelude.{
  ℕ, Bool, true, false, not, List, [], ◌∷◌, map, ◌&&◌, ◌==◌, ltb, any, all, All, ◌≡◌, refl, arith,
}
use mathlib.Core.Path.{subst}
use browserlogin_client.Archive.Names.{
  ok, Letters, Name, is_empty, slash, starts_slash, drive, unc, split, join, named, name_parts,
  name_slashed, normalize_name,
}
use browserlogin_client.Archive.Names.Paths.{
  is_plain, Plain, split-join, filled-unchanged, all-join,
}
use browserlogin_client.Archive.Names.Safety.{
  Accepted, Proper, check_parts-Proper, normalize_name-Accepted,
}

-- What every character of a part is, and the separator.
abbrev is_kept : ℕ → Bool
is_kept c = not (ltb c 32) && (not (c == 92) && not (c == 58))

part-kept :
    (p : List ℕ) → all is_plain p ≡ true → any (λ c. c == 58) p ≡ false → all is_kept p ≡ true
part-kept [] h k = refl
part-kept (c ∷ p) h k =
    let rest = part-kept p (ground (arith, h)) (ground (arith, k)) in ground (arith, h, k)

parts-kept :
    (l : Letters) (ps : List (List ℕ)) → All (Proper l) ps → All (λ p. all is_kept p ≡ true) ps
parts-kept l [] h = tt
parts-kept l (p ∷ ps) h = (part-kept p h.0.plain.plain_part h.0.no_colon, parts-kept l ps h.1)

-- Each test at the head of `normalizeName` fails on a text of such characters.
kept-no_control : (cs : List ℕ) → all is_kept cs ≡ true → any (λ c. ltb c 32) cs ≡ false
kept-no_control [] h = refl
kept-no_control (c ∷ cs) h = let rest = kept-no_control cs in ground (arith)

kept-no_null : (cs : List ℕ) → all is_kept cs ≡ true → any (λ c. c == 0) cs ≡ false
kept-no_null [] h = refl
kept-no_null (c ∷ cs) h = let rest = kept-no_null cs in ground (arith)

kept-slash : (cs : List ℕ) → all is_kept cs ≡ true → map slash cs ≡ cs
kept-slash [] h = refl
kept-slash (c ∷ cs) h =
    let other : (c == 92) ≡ false = ground (arith, h) in
    rw (other, kept-slash cs (ground (arith, h)))

kept-unc : (cs : List ℕ) → all is_kept cs ≡ true → unc cs ≡ false
unfolding unc
kept-unc [] h = refl
kept-unc (c ∷ []) h = refl
kept-unc (c ∷ d ∷ cs) h = ground arith

kept-drive : (cs : List ℕ) → all is_kept cs ≡ true → drive cs ≡ false
unfolding drive
kept-drive [] h = refl
kept-drive (c ∷ []) h = refl
kept-drive (c ∷ d ∷ cs) h = ground arith

join-starts :
    (c : ℕ) (p : List ℕ) (ps : List (List ℕ))
    → is_plain c ≡ true
    → (is_empty (join ((c ∷ p) ∷ ps)) ≡ false) × (starts_slash (join ((c ∷ p) ∷ ps)) ≡ false)
unfolding join
join-starts c p [] h = (refl, ground arith)
join-starts c p (q ∷ ps) h = (refl, ground arith)

join-head :
    (ps : List (List ℕ))
    → is_empty ps ≡ false
    → All Plain ps
    → (is_empty (join ps) ≡ false) × (starts_slash (join ps) ≡ false)
join-head [] e h = cc
join-head ([] ∷ ps) e h = let wrong : true ≡ false = h.0.filled_part in cc
join-head ((c ∷ p) ∷ ps) e h = join-starts c p ps (ground (arith, h.0.plain_part))

split-parts : (ps : List (List ℕ)) → is_empty ps ≡ false → All Plain ps → split (join ps) ≡ ps
split-parts [] e h = cc
split-parts (p ∷ ps) e h = split-join p ps h

named-again :
    (l : Letters) (ps : List (List ℕ))
    → Accepted l ps
    → normalize_name l (join ps) ≡ ok (named l ps)
unfolding normalize_name name_slashed name_parts
named-again l ps a =
    let proper = check_parts-Proper l ps a.plain a.checked in
    let kept = all-join is_kept ps refl (parts-kept l ps proper) in
    let (some_, start) = join-head ps a.some_part a.plain in
    rw
      (
        some_,
        kept-no_null _ kept,
        kept-no_control _ kept,
        kept-unc _ kept,
        kept-slash _ kept,
        start,
        kept-drive _ kept,
        split-parts ps a.some_part a.plain,
        filled-unchanged ps a.plain,
        a.some_part,
        a.no_parent,
        a.checked,
      )
      refl

-- A name that `normalizeName` gave passes it unchanged, with the same key, whatever the two tables of
-- letters are.
pub normalize_name-again :
    (l : Letters) (raw : List ℕ) (n : Name)
    → normalize_name l raw ≡ ok n
    → normalize_name l n.name ≡ ok n
normalize_name-again l raw n h =
    let (ps, a, same) = normalize_name-Accepted l raw n h in
    subst (λ m. normalize_name l m.name ≡ ok m) same (named-again l ps a)
