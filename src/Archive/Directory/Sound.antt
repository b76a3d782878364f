-- ===== src/Archive/Directory/Sound.antt =====
-- What holds of the entries that `readCentralDirectory` returns.
use browserlogin_client.Prelude.{
  ℕ, ◌*◌, ◌≤◌, false, Option, none, some, List, ◌==◌, ltb, length, All, Bool-cases, inl, inr, ◌⊎◌,
  ◌≡◌, refl, arith,
}
use mathlib.Core.Path.{subst}
use browserlogin_client.Archive.Names.{
  Checked, ok, err, Letters, archive_size, file_count, file_size, total_size, compression_ratio,
}
use browserlogin_client.Archive.Names.Safety.{passed, bind-ok, not_thrown}
use browserlogin_client.Archive.Limits.{Metadata, too_dense, validate_limits}
use browserlogin_client.Archive.Directory.{
  Scan, new_scan, read_entries, finish_scan, finished, Located, scan_central, read_end,
  read_central_directory,
}
use browserlogin_client.Archive.Bytes.{Reader, Entry}
use browserlogin_client.Archive.Directory.Ends.{read_central_directory-ends}
use browserlogin_client.Archive.Directory.Entries.{
  Separate, Normal, kept_size, kept_compressed, Small, Inv, limit_raised, no_none, read_entries-Inv,
}

-- What `readCentralDirectory` promises of its entries: each name is one that `normalizeName` gives, with
-- its key; no two have one key; no file lies on another's way; and the files that are
-- written are within the limits, each and together.
pub record Sound (r : Reader) (es : List Entry) : Type 0 where
  pub separate : Separate r.letters es
  pub normal : All (Normal r.letters) es
  pub small : All (Small r.letters r.limits.max_file_size) es
  pub total : kept_size r.letters es ≤ r.limits.max_total_size
  pub dense :
      (kept_compressed r.letters es ≡ 0)
      ⊎ (kept_size r.letters es ≤ r.limits.max_compression_ratio * kept_compressed r.letters es)

abbrev totals_of : Reader → ℕ → Scan → Metadata
totals_of r n s = record {
  file_count = n;
  total_size = s.total_size;
  archive_size = some r.size;
  largest_file_size = some s.largest_file_size;
  total_compressed_size = some s.total_compressed_size;
}

not_too_dense :
    (total n ratio : ℕ) → too_dense total (some n) ratio ≡ false → (n ≡ 0) ⊎ (total ≤ ratio * n)
not_too_dense total n ratio h = elim (Bool-cases (n == 0)) [
  | inl nothing ↦ inl (ground (arith, nothing))
  | inr something ↦ inr (ground (arith, h, something))
]

validate_limits-within :
    (r : Reader) (n : ℕ) (s : Scan)
    → validate_limits r.limits (totals_of r n s) ≡ ok tt
    → (s.largest_file_size ≤ r.limits.max_file_size)
      × (s.total_size ≤ r.limits.max_total_size)
      × ((s.total_compressed_size ≡ 0)
          ⊎ (s.total_size ≤ r.limits.max_compression_ratio * s.total_compressed_size))
unfolding validate_limits
validate_limits-within r n s h =
    let (_, h1) = passed (ltb r.limits.max_archive_bytes r.size) archive_size _ h in
    let (_, h2) = passed (ltb r.limits.max_files n) file_count _ h1 in
    let (largest, h3) = passed (ltb r.limits.max_file_size s.largest_file_size) file_size _ h2 in
    let (total, h4) = passed (ltb r.limits.max_total_size s.total_size) total_size _ h3 in
    let dense = not_thrown _ compression_ratio h4 in
    (
      ground (arith, largest),
      ground (arith, total),
      not_too_dense s.total_size s.total_compressed_size r.limits.max_compression_ratio dense,
    )

same_entries : {s t : List Entry} → ok s ≡ ok t → s ≡ t
same_entries h = cc

just : {c d : Checked (List Entry)} → some c ≡ some d → c ≡ d
just h = cc

new-Inv : {l : Letters} → Inv l new_scan
unfolding kept_size kept_compressed
new-Inv = record { separate = tt; normal = tt; total = refl; compressed = refl; small = tt }

finish_scan-Sound :
    (r : Reader) (n : ℕ) (s : Scan) (es : List Entry)
    → Inv r.letters s
    → finish_scan r n s ≡ ok es
    → Sound r es
unfolding finish_scan
finish_scan-Sound r n s es i e =
    let (valid, same) = bind-ok (validate_limits r.limits (totals_of r n s)) (ok s.entries) e in
    let (largest, total, dense) = validate_limits-within r n s valid in
    subst (Sound r) (same_entries same) (record {
      separate = i.separate;
      normal = i.normal;
      small = limit_raised r.letters s.largest_file_size _ s.entries largest i.small;
      total = rw (← i.total) total;
      dense = rw (← i.total, ← i.compressed) dense;
    })

read_entries-Sound :
    (r : Reader) (n fuel : ℕ) (central : List ℕ) (c : Option (Checked Scan)) (es : List Entry)
    → read_entries fuel r central 0 new_scan ≡ c
    → finished r n c ≡ some (ok es)
    → Sound r es
read_entries-Sound r n fuel central none es read e = absurd (no_none e)
read_entries-Sound r n fuel central (some (err x)) es read e = cc
read_entries-Sound r n fuel central (some (ok s)) es read e =
    finish_scan-Sound r n s es (read_entries-Inv fuel r central 0 new_scan s new-Inv read) (just e)

scan_central-Sound :
    (r : Reader) (m : Checked Located) (es : List Entry)
    → scan_central r m ≡ some (ok es)
    → Sound r es
unfolding scan_central
scan_central-Sound r (err x) es e = cc
scan_central-Sound r (ok m) es e =
    read_entries-Sound r m.entry_count (length m.central) m.central _ es refl e

accepted-Sound :
    (r : Reader) (bytes : List ℕ) (es : List Entry)
    → read_central_directory r bytes ≡ some (ok es)
    → Sound r es
unfolding read_central_directory
accepted-Sound r bytes es e = scan_central-Sound r (read_end r bytes) es e

-- What is promised of a result.
abbrev pub Promised : Reader → Checked (List Entry) → Type 0
Promised r (err x) = Unit
Promised r (ok es) = Sound r es

result-Promised :
    (r : Reader) (bytes : List ℕ) (c : Checked (List Entry))
    → read_central_directory r bytes ≡ some c
    → Promised r c
result-Promised r bytes (err x) e = tt
result-Promised r bytes (ok es) e = accepted-Sound r bytes es e

-- The reading of a central directory ends on any bytes, whatever lengths its records claim, with an
-- error or with entries. Of entries that it returns, each has a name that `normalizeName` gives and
-- that name's key; no two have the same key, and no file is on the path of an entry that comes after
-- it or of a file that comes before it; and the files to be written are each within the limit of a
-- file, together within the limit of the whole, and within the compression ratio.
pub read_central_directory-Sound :
    (r : Reader) (bytes : List ℕ)
    → (c : Checked (List Entry)) × (read_central_directory r bytes ≡ some c) × Promised r c
read_central_directory-Sound r bytes =
    let (c, e) = read_central_directory-ends r bytes in (c, e, result-Promised r bytes c e)
