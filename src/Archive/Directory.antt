-- ===== src/Archive/Directory.antt =====
-- src/core/archive/archive.ts: `readCentralDirectory`, from an archive's bytes to its entries. The loop over
-- the central directory runs on fuel, one unit to an entry.
pub mod Ends
pub mod Entries
pub mod Sound
use browserlogin_client.Prelude.{
  ℕ, zero, suc, ◌+◌, ◌-◌, ◌*◌, ◌%◌, Bool, true, false, not, Option, none, some, List, [], ◌∷◌, ◌++◌,
  ◌&&◌, ◌||◌, ◌==◌, leb, ltb, min, max, any, map, take, drop, length, if◌then◌else◌,
}
use browserlogin_client.Archive.Names.{
  Checked, ok, err, ◌>>=◌, ◌>>◌, throw_if, Letters, Name, case_collision, symlink, conflicting_path,
  malformed_zip, unsupported_compression, text_eq, split, join, normalize_name,
}
use browserlogin_client.Archive.Limits.{
  Limits, Metadata, validate_limits, disposable, is_directory_entry, is_symlink,
}
use browserlogin_client.Archive.Bytes.{
  Reader, Entry, Header, read_u16, read_u32, read_range, end_record, read_header,
}

-- The locals of the loop: the entries so far, the last first (they are `seen` and `kinds` too), and totals.
pub record Scan : Type 0 where
  pub entries : List Entry
  pub total_size : ℕ
  pub total_compressed_size : ℕ
  pub largest_file_size : ℕ

abbrev pub new_scan : Scan
new_scan = record { entries = []; total_size = 0; total_compressed_size = 0; largest_file_size = 0 }

-- The parts of every directory that a path leads through.
unfoldable pub parents : List (List ℕ) → List (List (List ℕ))
parents [] = []
parents (p ∷ []) = []
parents (p ∷ q ∷ ps) = (p ∷ []) ∷ map (λ qs. p ∷ qs) (parents (q ∷ ps))

unfoldable pub parent_keys : Letters → List ℕ → List (List ℕ)
unfolding parents
parent_keys l name = map (λ ps. l.lower (join ps)) (parents (split name))

abbrev pub has_key : List ℕ → Entry → Bool
has_key k e = text_eq k e.key

abbrev pub is_file_at : List ℕ → Entry → Bool
is_file_at k e = text_eq k e.key && not e.directory

unfoldable pub starts_with : List ℕ → List ℕ → Bool
starts_with [] cs = true
starts_with (p ∷ ps) [] = false
starts_with (p ∷ ps) (c ∷ cs) = p == c && starts_with ps cs

abbrev pub is_file_under : List ℕ → Entry → Bool
is_file_under k e = not e.directory && starts_with (k ++ (47 ∷ [])) e.key

-- Whether the totals count an entry.
abbrev pub counts : Letters → Entry → Bool
counts l e = not (disposable l e.name) && not e.directory

unfoldable pub add_entry : Letters → Entry → Scan → Scan
add_entry l e s =
    if counts l e
    then record {
      entries = e ∷ s.entries;
      total_size = s.total_size + e.file_size;
      total_compressed_size = s.total_compressed_size + e.compressed_size;
      largest_file_size = max s.largest_file_size e.file_size;
    }
    else record s { entries = e ∷ s.entries }

-- The loop's body from the test for collisions on.
unfoldable pub place_entry : Letters → Entry → Scan → Checked Scan
unfolding parent_keys starts_with add_entry
place_entry l e s = do
  throw_if (any (has_key e.key) s.entries) case_collision
  throw_if (any (λ k. any (is_file_at k) (e ∷ s.entries)) (parent_keys l e.name)) conflicting_path
  throw_if (not e.directory && any (is_file_under e.key) (e ∷ s.entries)) conflicting_path
  ok (add_entry l e s)

abbrev pub entry_of : Header → List ℕ → Name → Entry
entry_of h raw n = record {
  name = n.name;
  key = n.key;
  directory = is_directory_entry raw h.external_attributes;
  file_size = h.file_size;
  compressed_size = h.compressed_size;
  compression = h.compression;
  external_attributes = h.external_attributes;
}

unfoldable pub name_entry : Letters → Header → List ℕ → Scan → Checked Scan
unfolding place_entry
name_entry l h raw s = do n ← normalize_name l raw; place_entry l (entry_of h raw n) s

-- From the decoded name on; none is a throw of the decoder.
unfoldable pub take_entry : Letters → Header → Option (List ℕ) → Scan → Checked Scan
unfolding name_entry
take_entry l h none s = err malformed_zip
take_entry l h (some raw) s = do
  throw_if (is_symlink h.external_attributes) symlink
  throw_if (not (h.compression == 0) && not (h.compression == 8)) unsupported_compression
  name_entry l h raw s

unfoldable pub check_header : Reader → List ℕ → Header → Scan → Checked Scan
unfolding take_entry
check_header r central h s = do
  throw_if (ltb (length central) h.end_ || (leb r.size h.local_offset || h.flags % 2 == 1))
      malformed_zip
  take_entry r.letters h (r.decode h.raw) s

-- One round of the loop.
unfoldable pub read_entry : Reader → List ℕ → ℕ → Scan → Checked Scan
unfolding check_header read_header read_u32
read_entry r central offset s = do
  throw_if (ltb (length central) (offset + 46) || not (read_u32 central offset == 33639248))
      malformed_zip
  check_header r central (read_header central offset) s

-- The `while (offset < central.length)`; none is a lack of fuel.
unfoldable pub after_entry {ℓ} :
    {A : Type ℓ} → Checked A → (A → Option (Checked A)) → Option (Checked A)
after_entry (ok s) f = f s
after_entry (err e) f = some (err e)

unfoldable pub read_entries : ℕ → Reader → List ℕ → ℕ → Scan → Option (Checked Scan)
unfolding read_entry after_entry
read_entries zero r central offset s = if ltb offset (length central) then none else some (ok s)
read_entries (suc fuel) r central offset s =
    let next =
      after_entry (read_entry r central offset s)
        (read_entries fuel r central (read_header central offset).end_) in
    if ltb offset (length central) then next else some (ok s)

-- The check of the totals after the loop.
unfoldable pub finish_scan : Reader → ℕ → Scan → Checked (List Entry)
finish_scan r entry_count s = do
  validate_limits r.limits (record {
    file_count = entry_count;
    total_size = s.total_size;
    archive_size = some r.size;
    largest_file_size = some s.largest_file_size;
    total_compressed_size = some s.total_compressed_size;
  })
  ok s.entries

abbrev pub finished : Reader → ℕ → Option (Checked Scan) → Option (Checked (List Entry))
finished r n none = none
finished r n (some c) = some (c >>= finish_scan r n)

-- What the archive's end says: how many entries there are, and the bytes of its central directory.
pub record Located : Type 0 where
  pub entry_count : ℕ
  pub central : List ℕ

unfoldable pub read_central : Reader → List ℕ → (count size offset : ℕ) → Checked Located
unfolding read_range
read_central r bytes count size offset = do
  throw_if (count == 65535 || (size == 4294967295 || offset == 4294967295)) malformed_zip
  validate_limits r.limits (record {
    file_count = count;
    total_size = 0;
    archive_size = none;
    largest_file_size = none;
    total_compressed_size = none;
  })
  throw_if (ltb r.size (offset + size) || ltb r.limits.max_archive_bytes size) malformed_zip
  central ← read_range bytes offset size
  ok (record { entry_count = count; central = central })

unfoldable pub locate : Reader → List ℕ → List ℕ → Option ℕ → Checked Located
unfolding read_central read_u16 read_u32
locate r bytes tail none = err malformed_zip
locate r bytes tail (some i) =
    read_central r bytes (read_u16 tail (i + 10)) (read_u32 tail (i + 12)) (read_u32 tail (i + 16))

abbrev pub tail_length : ℕ → ℕ
tail_length size = min size (22 + 65535)

unfoldable pub read_end : Reader → List ℕ → Checked Located
unfolding locate read_range end_record
read_end r bytes = do
  tail ← read_range bytes (r.size - tail_length r.size) (tail_length r.size)
  locate r bytes tail (end_record tail)

unfoldable pub scan_central : Reader → Checked Located → Option (Checked (List Entry))
unfolding read_entries finish_scan
scan_central r (err e) = some (err e)
scan_central r (ok m) =
    finished r m.entry_count (read_entries (length m.central) r m.central 0 new_scan)

-- readCentralDirectory: the entries, the last first.
unfoldable pub read_central_directory : Reader → List ℕ → Option (Checked (List Entry))
unfolding scan_central read_end
read_central_directory r bytes = scan_central r (read_end r bytes)
