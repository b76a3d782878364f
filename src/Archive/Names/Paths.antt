-- ===== src/Archive/Names/Paths.antt =====
-- What `split`, `join` and `map slash` do to the parts of a path.
use browserlogin_client.Prelude.{
  ℕ, Bool, true, false, not, List, [], ◌∷◌, ◌++◌, map, ◌&&◌, ◌==◌, ltb, any, all, All, ◌≡◌, refl,
  ap, ◌∙◌, if-cases, arith,
}
use browserlogin_client.Archive.Names.{is_empty, slash, split, filled, join, push}

-- No separator of either system and no control character.
abbrev pub is_plain : ℕ → Bool
is_plain c = not (ltb c 32) && (not (c == 47) && not (c == 92))

-- A part of a path that `split` gives and `filled` keeps.
pub record Plain (p : List ℕ) : Type 0 where
  pub filled_part : is_empty p ≡ false
  pub plain_part : all is_plain p ≡ true

abbrev slashed : ℕ → Bool
slashed c = not (ltb c 32) && not (c == 92)

pub all-slash : (cs : List ℕ) → any (λ c. ltb c 32) cs ≡ false → all slashed (map slash cs) ≡ true
all-slash [] h = refl
all-slash (c ∷ cs) h = let rest = all-slash cs in ground (arith)

push-plain :
    (c : ℕ) (ps : List (List ℕ))
    → is_plain c ≡ true
    → All (λ p. all is_plain p ≡ true) ps
    → All (λ p. all is_plain p ≡ true) (push c ps)
push-plain c [] h k = (ground arith, tt)
push-plain c (p ∷ ps) h k = (rw (h, k.0) refl, k.1)

pub split-plain :
    (cs : List ℕ) → all slashed cs ≡ true → All (λ p. all is_plain p ≡ true) (split cs)
unfolding split
split-plain [] h = (refl, tt)
split-plain (c ∷ cs) h =
    let rest = split-plain cs (ground (arith, h)) in
    if-cases (All (λ p. all is_plain p ≡ true)) (c == 47) _ _ (λ _. (refl, rest))
      (λ other. push-plain c (split cs) (ground (arith, h, other)) rest)

pub filled-Plain :
    (ps : List (List ℕ)) → All (λ p. all is_plain p ≡ true) ps → All Plain (filled ps)
unfolding filled
filled-Plain [] h = tt
filled-Plain ([] ∷ ps) h = filled-Plain ps h.1
filled-Plain ((c ∷ cs) ∷ ps) h =
    (record { filled_part = refl; plain_part = h.0 }, filled-Plain ps h.1)

pub split-before : (p cs : List ℕ) → all is_plain p ≡ true → split (p ++ (47 ∷ cs)) ≡ p ∷ split cs
unfolding split
split-before [] cs h = refl
split-before (c ∷ p) cs h =
    let other : (c == 47) ≡ false = ground (arith, h) in
    rw (other, split-before p cs (ground (arith, h)))

split-alone : (p : List ℕ) → all is_plain p ≡ true → split p ≡ p ∷ []
unfolding split
split-alone [] h = refl
split-alone (c ∷ p) h =
    let other : (c == 47) ≡ false = ground (arith, h) in
    rw (other, split-alone p (ground (arith, h)))

-- `split` gives the parts back that `join` put together.
pub split-join :
    (p : List ℕ) (ps : List (List ℕ)) → All Plain (p ∷ ps) → split (join (p ∷ ps)) ≡ p ∷ ps
unfolding join
split-join p [] h = split-alone p h.0.plain_part
split-join p (q ∷ ps) h =
    split-before p (join (q ∷ ps)) h.0.plain_part ∙ ap (λ t. p ∷ t) (split-join q ps h.1)

pub filled-unchanged : (ps : List (List ℕ)) → All Plain ps → filled ps ≡ ps
unfolding filled
filled-unchanged [] h = refl
filled-unchanged (p ∷ ps) h = rw (h.0.filled_part, filled-unchanged ps h.1)

all-both :
    (t : ℕ → Bool) (xs ys : List ℕ) → all t xs ≡ true → all t ys ≡ true → all t (xs ++ ys) ≡ true
all-both t [] ys h k = k
all-both t (x ∷ xs) ys h k = let rest = all-both t xs ys in ground (arith)

-- A test that a separator passes, and every character of every part.
pub all-join :
    (t : ℕ → Bool) (ps : List (List ℕ))
    → t 47 ≡ true
    → All (λ p. all t p ≡ true) ps
    → all t (join ps) ≡ true
unfolding join
all-join t [] s h = refl
all-join t (p ∷ []) s h = h.0
all-join t (p ∷ q ∷ ps) s h = all-both t p _ h.0 (rw (s, all-join t (q ∷ ps) s h.1) refl)
