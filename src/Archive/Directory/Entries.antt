-- ===== src/Archive/Directory/Entries.antt =====
-- The invariant of `readCentralDirectory`'s loop, and that each round keeps it.
use browserlogin_client.Prelude.{
  ℕ, zero, suc, ◌+◌, ◌≤◌, true, false, not, Option, none, some, List, [], ◌∷◌, ◌&&◌, ◌||◌, ◌==◌,
  leb, ltb, ◌%◌, any, length, if◌then◌else◌, All, Bool-cases, inl, inr, ◌≡◌, refl, sym, ◌∙◌, arith,
}
use mathlib.Core.Path.{subst}
use browserlogin_client.Archive.Names.{
  Checked, ok, err, ◌>>=◌, Letters, normalize_name, case_collision, conflicting_path, malformed_zip,
  symlink, unsupported_compression,
}
use browserlogin_client.Archive.Names.Safety.{passed}
use browserlogin_client.Archive.Names.Again.{normalize_name-again}
use browserlogin_client.Archive.Limits.{is_symlink}
use browserlogin_client.Archive.Directory.{
  Scan, parent_keys, has_key, is_file_at, is_file_under, counts, add_entry, place_entry, entry_of,
  name_entry, take_entry, check_header, read_entry, after_entry, read_entries,
}
use browserlogin_client.Archive.Bytes.{Reader, Entry, Header, read_header, read_u32}

-- An entry and one before it: they have different keys, the one before is no file on the other's
-- way, and the other is no file on its way, if it is a file.
pub record Apart (l : Letters) (e f : Entry) : Type 0 where
  pub distinct : has_key e.key f ≡ false
  pub not_below : any (λ k. is_file_at k f) (parent_keys l e.name) ≡ false
  pub not_above : (not e.directory && is_file_under e.key f) ≡ false

abbrev pub Separate : Letters → List Entry → Type 0
Separate l [] = Unit
Separate l (e ∷ es) = All (Apart l e) es × Separate l es

-- An entry's name and key are those that `normalizeName` gives.
abbrev pub Normal : Letters → Entry → Type 0
Normal l e = normalize_name l e.name ≡ ok (record { name = e.name; key = e.key })

-- The bytes of the entries that are written, in the archive and outside.
unfoldable pub kept_size : Letters → List Entry → ℕ
kept_size l [] = 0
kept_size l (e ∷ es) = (if counts l e then e.file_size else 0) + kept_size l es

unfoldable pub kept_compressed : Letters → List Entry → ℕ
kept_compressed l [] = 0
kept_compressed l (e ∷ es) = (if counts l e then e.compressed_size else 0) + kept_compressed l es

abbrev pub Small : Letters → ℕ → Entry → Type 0
Small l limit e = counts l e ≡ true → e.file_size ≤ limit

-- What the loop keeps.
pub record Inv (l : Letters) (s : Scan) : Type 0 where
  pub separate : Separate l s.entries
  pub normal : All (Normal l) s.entries
  pub total : s.total_size ≡ kept_size l s.entries
  pub compressed : s.total_compressed_size ≡ kept_compressed l s.entries
  pub small : All (Small l s.largest_file_size) s.entries

entries-Apart :
    (l : Letters) (e : Entry) (es : List Entry) (ks : List (List ℕ))
    → any (has_key e.key) es ≡ false
    → All (λ f. any (λ k. is_file_at k f) (parent_keys l e.name) ≡ false) es
    → (not e.directory && any (is_file_under e.key) es) ≡ false
    → All (Apart l e) es
entries-Apart l e [] ks h k m = tt
entries-Apart l e (f ∷ es) ks h k m = (
  record { distinct = ground (arith, h); not_below = k.0; not_above = ground (arith, m) },
  entries-Apart l e es ks (ground (arith, h)) k.1 (ground (arith, m)),
)

any-none :
    (f : Entry) (es : List Entry) (k : List ℕ) (ks : List (List ℕ))
    → any (λ k. any (is_file_at k) (f ∷ es)) ks ≡ false
    → (any (λ k. is_file_at k f) ks ≡ false) × (any (λ k. any (is_file_at k) es) ks ≡ false)
any-none f es k [] h = (refl, refl)
any-none f es k (j ∷ ks) h =
    let (here, there) = any-none f es k ks (ground (arith, h)) in
    (ground (arith, h, here), ground (arith, h, there))

any-each :
    (es : List Entry) (ks : List (List ℕ))
    → any (λ k. any (is_file_at k) es) ks ≡ false
    → All (λ f. any (λ k. is_file_at k f) ks ≡ false) es
any-each [] ks h = tt
any-each (f ∷ es) ks h = let (here, there) = any-none f es [] ks h in (here, any-each es ks there)

given : Scan → Checked Scan → Scan
given s (ok t) = t
given s (err e) = s

bind_with :
    {A B : Type 0} (m : Checked A) (f : A → Checked B) {b : B}
    → (m >>= f) ≡ ok b
    → (a : A) × (m ≡ ok a) × (f a ≡ ok b)
bind_with (ok a) f h = (a, refl, h)
bind_with (err e) f h = cc

pub limit_raised :
    (l : Letters) (m n : ℕ) (es : List Entry) → m ≤ n → All (Small l m) es → All (Small l n) es
limit_raised l m n [] h k = tt
limit_raised l m n (e ∷ es) h k = (λ c. omega (arith, h, k.0 c), limit_raised l m n es h k.1)

true_ne_false : true ≡ false → ⊥
true_ne_false h = cc

pub no_none : {A : Type 0} {a : A} → none ≡ some a → ⊥
no_none h = cc

same_scan : {s t : Scan} → some (ok s) ≡ some (ok t) → s ≡ t
same_scan h = cc

add_entry-Inv :
    (l : Letters) (e : Entry) (s : Scan)
    → All (Apart l e) s.entries
    → Normal l e
    → Inv l s
    → Inv l (add_entry l e s)
unfolding add_entry kept_size kept_compressed
add_entry-Inv l e s apart normal i = elim (Bool-cases (counts l e)) [
  | inl counted ↦ rw counted (record {
    separate = (apart, i.separate);
    normal = (normal, i.normal);
    total = rw counted (omega (arith, i.total));
    compressed = rw counted (omega (arith, i.compressed));
    small =
        (λ _. omega arith, limit_raised l s.largest_file_size _ s.entries (omega arith) i.small);
  })
  | inr other ↦ rw other (record {
    separate = (apart, i.separate);
    normal = (normal, i.normal);
    total = rw other (omega (arith, i.total));
    compressed = rw other (omega (arith, i.compressed));
    small = (λ c. absurd (true_ne_false (sym c ∙ other)), i.small);
  })
]

place_entry-Inv :
    (l : Letters) (e : Entry) (s t : Scan)
    → Normal l e
    → Inv l s
    → place_entry l e s ≡ ok t
    → Inv l t
unfolding place_entry given
place_entry-Inv l e s t normal i h =
    let (fresh, h1) = passed (any (has_key e.key) s.entries) case_collision _ h in
    let (ways, h2) =
      passed (any (λ k. any (is_file_at k) (e ∷ s.entries)) (parent_keys l e.name)) conflicting_path
        _ h1 in
    let (under, h3) =
      passed (not e.directory && any (is_file_under e.key) (e ∷ s.entries)) conflicting_path _ h2 in
    let ways_ = (any-each (e ∷ s.entries) (parent_keys l e.name) ways).1 in
    let apart = entries-Apart l e s.entries [] fresh ways_ (ground (arith, under)) in
    subst (λ c. Inv l (given s c)) h3 (add_entry-Inv l e s apart normal i)

name_entry-Inv :
    (l : Letters) (h : Header) (raw : List ℕ) (s t : Scan)
    → Inv l s
    → name_entry l h raw s ≡ ok t
    → Inv l t
unfolding name_entry
name_entry-Inv l h raw s t i e =
    let (n, named_, placed) = bind_with (normalize_name l raw) _ e in
    place_entry-Inv l (entry_of h raw n) s t (normalize_name-again l raw n named_) i placed

take_entry-Inv :
    (l : Letters) (h : Header) (raw : Option (List ℕ)) (s t : Scan)
    → Inv l s
    → take_entry l h raw s ≡ ok t
    → Inv l t
unfolding take_entry
take_entry-Inv l h none s t i e = cc
take_entry-Inv l h (some raw) s t i e =
    let (_, e1) = passed (is_symlink h.external_attributes) symlink _ e in
    let (_, e2) =
      passed (not (h.compression == 0) && not (h.compression == 8)) unsupported_compression _ e1 in
    name_entry-Inv l h raw s t i e2

read_entry-Inv :
    (r : Reader) (central : List ℕ) (offset : ℕ) (s t : Scan)
    → Inv r.letters s
    → read_entry r central offset s ≡ ok t
    → Inv r.letters t
unfolding read_entry check_header
read_entry-Inv r central offset s t i e =
    let h = read_header central offset in
    let (_, e1) =
      passed (ltb (length central) (offset + 46) || not (read_u32 central offset == 33639248))
        malformed_zip _ e in
    let (_, e2) =
      passed (ltb (length central) h.end_ || (leb r.size h.local_offset || h.flags % 2 == 1))
        malformed_zip _ e1 in
    take_entry-Inv r.letters h (r.decode h.raw) s t i e2

after_entry-cases :
    {A : Type 0} (c : Checked A) (f : A → Option (Checked A)) {b : A}
    → after_entry c f ≡ some (ok b)
    → (a : A) × (c ≡ ok a) × (f a ≡ some (ok b))
unfolding after_entry
after_entry-cases (ok a) f h = (a, refl, h)
after_entry-cases (err e) f h = cc

pub read_entries-Inv :
    (fuel : ℕ) (r : Reader) (central : List ℕ) (offset : ℕ) (s t : Scan)
    → Inv r.letters s
    → read_entries fuel r central offset s ≡ some (ok t)
    → Inv r.letters t
unfolding read_entries
read_entries-Inv zero r central offset s t i e = elim (Bool-cases (ltb offset (length central))) [
  | inl more ↦ absurd (no_none (rw more at e))
  | inr done ↦ subst (Inv r.letters) (same_scan (rw done at e)) i
]
read_entries-Inv (suc fuel) r central offset s t i e =
    elim (Bool-cases (ltb offset (length central))) [
      | inl more ↦
          let (u, read, rest) =
            after_entry-cases (read_entry r central offset s)
              (read_entries fuel r central (read_header central offset).end_) (rw more at e) in
          read_entries-Inv fuel r central _ u t (read_entry-Inv r central offset s u i read) rest
      | inr done ↦ subst (Inv r.letters) (same_scan (rw done at e)) i
    ]
