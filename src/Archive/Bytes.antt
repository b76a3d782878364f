-- ===== src/Archive/Bytes.antt =====
-- src/core/archive/archive.ts: an archive's bytes, the search for its end, and one record of its central
-- directory. A byte is a number below 256.
use browserlogin_client.Prelude.{
  ℕ, zero, suc, ◌+◌, ◌-◌, ◌*◌, Bool, Option, none, some, List, [], ◌∷◌, ◌==◌, ltb, take, drop,
  length, if◌then◌else◌,
}
use browserlogin_client.Archive.Names.{Checked, ok, err, Letters, malformed_zip}
use browserlogin_client.Archive.Limits.{Limits}

-- What the reading works with: the archive's size, and `TextDecoder.decode`, which may throw.
pub record Reader : Type 0 where
  pub letters : Letters
  pub decode : List ℕ → Option (List ℕ)
  pub limits : Limits
  pub size : ℕ

-- ArchiveEntryMetadata
pub record Entry : Type 0 where
  pub name : List ℕ
  pub key : List ℕ
  pub directory : Bool
  pub file_size : ℕ
  pub compressed_size : ℕ
  pub compression : ℕ
  pub external_attributes : ℕ

-- One record of the central directory, and where it ends.
pub record Header : Type 0 where
  pub flags : ℕ
  pub compression : ℕ
  pub compressed_size : ℕ
  pub file_size : ℕ
  pub external_attributes : ℕ
  pub local_offset : ℕ
  pub raw : List ℕ
  pub end_ : ℕ

abbrev pub byte_at : List ℕ → ℕ → ℕ
byte_at [] i = 0
byte_at (b ∷ bs) zero = b
byte_at (b ∷ bs) (suc i) = byte_at bs i

unfoldable pub read_u16 : List ℕ → ℕ → ℕ
read_u16 bs i = byte_at bs i + byte_at bs (i + 1) * 256

unfoldable pub read_u32 : List ℕ → ℕ → ℕ
unfolding read_u16
read_u32 bs i = read_u16 bs i + read_u16 bs (i + 2) * 65536

-- readRange
unfoldable pub read_range : List ℕ → ℕ → ℕ → Checked (List ℕ)
read_range bs offset n =
    let range = take n (drop offset bs) in if length range == n then ok range else err malformed_zip

-- The search for the signature, from an index down.
unfoldable pub find_end : List ℕ → ℕ → Option ℕ
unfolding read_u32
find_end tail zero = if read_u32 tail 0 == 101010256 then some 0 else none
find_end tail (suc i) =
    let rest = find_end tail i in if read_u32 tail (suc i) == 101010256 then some (suc i) else rest

unfoldable pub end_record : List ℕ → Option ℕ
unfolding find_end
end_record tail = if ltb (length tail) 22 then none else find_end tail (length tail - 22)

unfoldable pub read_header : List ℕ → ℕ → Header
unfolding read_u16 read_u32
read_header central offset =
    let name_length = read_u16 central (offset + 28) in
    record {
      flags = read_u16 central (offset + 8);
      compression = read_u16 central (offset + 10);
      compressed_size = read_u32 central (offset + 20);
      file_size = read_u32 central (offset + 24);
      external_attributes = read_u32 central (offset + 38);
      local_offset = read_u32 central (offset + 42);
      raw = take name_length (drop (offset + 46) central);
      end_ =
          offset
          + 46
          + name_length
          + read_u16 central (offset + 30)
          + read_u16 central (offset + 32);
    }
