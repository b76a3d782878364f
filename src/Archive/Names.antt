-- ===== src/Archive/Names.antt =====
-- src/core/archive/archive.ts: `normalizeName`, the check of every path in an archive. A text is the list
-- of its code points. The two changes of case stand for the runtime's Unicode tables.
pub mod Paths
pub mod Safety
pub mod Again
use browserlogin_client.Prelude.{
  ℕ, ◌+◌, String, Bool, true, false, not, List, [], ◌∷◌, ◌++◌, map, ◌&&◌, ◌||◌, ◌==◌, leb, ltb,
  if◌then◌else◌, any,
}
use browserlogin_client.Recovery.Text.{codes}

-- ArchiveCode, as far as the reading of an archive's directory fails.
pub data ArchiveCode : Type 0 where
  unsafe_path absolute_path drive_path invalid_name reserved_name : ArchiveCode
  case_collision symlink conflicting_path file_count file_size total_size : ArchiveCode
  archive_size compression_ratio malformed_zip unsupported_compression : ArchiveCode

pub data Checked {ℓ} (A : Type ℓ) : Type ℓ where
  ok : A → Checked A
  err : ArchiveCode → Checked A

infixl 5 ◌>>=◌ ◌>>◌
abbrev pub ◌>>=◌ {ℓ κ} : {A : Type ℓ} {B : Type κ} → Checked A → (A → Checked B) → Checked B
ok a >>= f = f a
err e >>= f = err e

abbrev pub ◌>>◌ {ℓ} : {B : Type ℓ} → Checked (Unit {0}) → Checked B → Checked B
m >> n = m >>= λ _. n

abbrev pub throw_if : Bool → ArchiveCode → Checked (Unit {0})
throw_if true e = err e
throw_if false e = ok tt

-- `toLocaleLowerCase("en-US")` and `toUpperCase()`.
pub record Letters : Type 0 where
  pub lower : List ℕ → List ℕ
  pub upper : List ℕ → List ℕ

-- What `normalizeName` returns.
pub record Name : Type 0 where
  pub name : List ℕ
  pub key : List ℕ

abbrev pub is_empty {ℓ} : {A : Type ℓ} → List A → Bool
is_empty [] = true
is_empty (x ∷ xs) = false

abbrev pub text_eq : List ℕ → List ℕ → Bool
text_eq [] [] = true
text_eq (c ∷ cs) (d ∷ ds) = c == d && text_eq cs ds
text_eq _ _ = false

abbrev is_separator : ℕ → Bool
is_separator c = c == 47 || c == 92

-- /^(?:\\\\|\/\\)/
unfoldable pub unc : List ℕ → Bool
unc (c ∷ d ∷ cs) = is_separator c && d == 92
unc _ = false

-- `replaceAll("\\", "/")`
abbrev pub slash : ℕ → ℕ
slash c = if c == 92 then 47 else c

abbrev pub starts_slash : List ℕ → Bool
starts_slash [] = false
starts_slash (c ∷ cs) = c == 47

abbrev is_letter : ℕ → Bool
is_letter c = (leb 65 c && leb c 90) || (leb 97 c && leb c 122)

-- /^(?:[A-Za-z]:|\\\\)/, on a text without backslashes.
unfoldable pub drive : List ℕ → Bool
drive (c ∷ d ∷ cs) = is_letter c && d == 58
drive _ = false

abbrev pub push : ℕ → List (List ℕ) → List (List ℕ)
push c [] = (c ∷ []) ∷ []
push c (p ∷ ps) = (c ∷ p) ∷ ps

-- `split("/")`
unfoldable pub split : List ℕ → List (List ℕ)
split [] = [] ∷ []
split (c ∷ cs) = let rest = split cs in if c == 47 then [] ∷ rest else push c rest

-- `filter(Boolean)`
unfoldable pub filled : List (List ℕ) → List (List ℕ)
filled [] = []
filled (p ∷ ps) = let rest = filled ps in if is_empty p then rest else p ∷ rest

-- `join("/")`
unfoldable pub join : List (List ℕ) → List ℕ
join [] = []
join (p ∷ []) = p
join (p ∷ q ∷ ps) = p ++ (47 ∷ join (q ∷ ps))

abbrev pub is_parent : List ℕ → Bool
is_parent p = text_eq p (46 ∷ 46 ∷ [])

-- `endsWith(" ") || endsWith(".")`
abbrev pub ends_badly : List ℕ → Bool
ends_badly [] = false
ends_badly (c ∷ []) = c == 32 || c == 46
ends_badly (c ∷ d ∷ cs) = ends_badly (d ∷ cs)

-- /[<>"|?*]/
abbrev pub is_wild : ℕ → Bool
is_wild c = c == 60 || (c == 62 || (c == 34 || (c == 124 || (c == 63 || c == 42))))

-- `split(".", 1)[0]`
unfoldable pub stem : List ℕ → List ℕ
stem [] = []
stem (c ∷ cs) = let rest = stem cs in if c == 46 then [] else c ∷ rest

-- WINDOWS_RESERVED
unfoldable pub reserved : List ℕ → Bool
reserved p =
    any (text_eq p) (codes "CON" ∷ codes "PRN" ∷ codes "AUX" ∷ codes "NUL" ∷ [])
    || any
        (λ d.
          text_eq p (codes "COM" ++ ((48 + d) ∷ [])) || text_eq p (codes "LPT" ++ ((48 + d) ∷ [])))
        (1 ∷ 2 ∷ 3 ∷ 4 ∷ 5 ∷ 6 ∷ 7 ∷ 8 ∷ 9 ∷ [])

unfoldable pub check_part : Letters → List ℕ → Checked (Unit {0})
unfolding reserved stem
check_part l p = do
  throw_if (ends_badly p || any (λ c. c == 58) p) invalid_name
  throw_if (any is_wild p) invalid_name
  throw_if (reserved (l.upper (stem p))) reserved_name

-- The loop over the parts.
unfoldable pub check_parts : Letters → List (List ℕ) → Checked (Unit {0})
unfolding check_part
check_parts l [] = ok tt
check_parts l (p ∷ ps) = do check_part l p; check_parts l ps

abbrev pub named : Letters → List (List ℕ) → Name
named l ps = record { name = join ps; key = l.lower (join ps) }

unfoldable pub name_parts : Letters → List (List ℕ) → Checked Name
unfolding check_parts join
name_parts l ps = do
  throw_if (is_empty ps || any is_parent ps) unsafe_path
  check_parts l ps
  ok (named l ps)

unfoldable pub name_slashed : Letters → List ℕ → Checked Name
unfolding drive name_parts filled split
name_slashed l raw = do
  throw_if (starts_slash raw) absolute_path
  throw_if (drive raw) drive_path
  name_parts l (filled (split raw))

-- normalizeName
unfoldable pub normalize_name : Letters → List ℕ → Checked Name
unfolding unc name_slashed
normalize_name l raw = do
  throw_if (is_empty raw) unsafe_path
  throw_if (any (λ c. c == 0) raw) invalid_name
  throw_if (any (λ c. ltb c 32) raw) invalid_name
  throw_if (unc raw) drive_path
  name_slashed l (map slash raw)
