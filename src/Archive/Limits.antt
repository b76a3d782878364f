-- ===== src/Archive/Limits.antt =====
-- src/core/archive/archive.ts: `ArchiveLimits`, `validateArchiveLimits`, the disposable names, and the bits of a
-- ZIP entry's header. Sizes are whole numbers, and the quotient of the compression ratio is exact: the total
-- is checked against its limit of 2^31 first.
use browserlogin_client.Prelude.{
  ℕ, ◌*◌, ◌/◌, ◌%◌, Bool, true, false, not, Option, none, some, List, [], ◌∷◌, ◌&&◌, ◌||◌, ◌==◌,
  ltb, any, map,
}
use browserlogin_client.Recovery.Text.{codes}
use browserlogin_client.Archive.Names.{
  Checked, ◌>>◌, throw_if, Letters, file_count, file_size, total_size, archive_size,
  compression_ratio, text_eq, split,
}

pub record Limits : Type 0 where
  pub max_archive_bytes : ℕ
  pub max_files : ℕ
  pub max_total_size : ℕ
  pub max_file_size : ℕ
  pub max_compression_ratio : ℕ

-- ARCHIVE_LIMITS
abbrev pub archive_limits : Limits
archive_limits = record {
  max_archive_bytes = 640 * 1024 * 1024;
  max_files = 100000;
  max_total_size = 2 * 1024 * 1024 * 1024;
  max_file_size = 512 * 1024 * 1024;
  max_compression_ratio = 200;
}

-- ArchiveMetadata
pub record Metadata : Type 0 where
  pub file_count : ℕ
  pub total_size : ℕ
  pub archive_size : Option ℕ
  pub largest_file_size : Option ℕ
  pub total_compressed_size : Option ℕ

abbrev pub exceeds : Option ℕ → ℕ → Bool
exceeds none limit = false
exceeds (some n) limit = ltb limit n

-- `totalCompressedSize && totalSize / totalCompressedSize > maxCompressionRatio`
abbrev pub too_dense : ℕ → Option ℕ → ℕ → Bool
too_dense total none ratio = false
too_dense total (some n) ratio = not (n == 0) && ltb (ratio * n) total

-- validateArchiveLimits
unfoldable pub validate_limits : Limits → Metadata → Checked (Unit {0})
validate_limits limits m = do
  throw_if (exceeds m.archive_size limits.max_archive_bytes) archive_size
  throw_if (ltb limits.max_files m.file_count) file_count
  throw_if (exceeds m.largest_file_size limits.max_file_size) file_size
  throw_if (ltb limits.max_total_size m.total_size) total_size
  throw_if (too_dense m.total_size m.total_compressed_size limits.max_compression_ratio)
      compression_ratio

-- DISPOSABLE_CACHE_DIRS
abbrev cache_dirs : List (List (List ℕ))
cache_dirs =
    map (λ s. split (codes s))
      ("Default/Cache" ∷ "Default/Code Cache" ∷ "Default/GPUCache" ∷ "Default/DawnCache"
        ∷ "Default/DawnGraphiteCache" ∷ "Default/DawnWebGPUCache" ∷ "Default/Sync Data"
        ∷ "ShaderCache" ∷ "GrShaderCache" ∷ "GraphiteDawnCache" ∷ "DawnCache" ∷ [])

-- DISPOSABLE_RUNTIME_FILES
abbrev runtime_files : List (List ℕ)
runtime_files = map codes (
    "RunningChromeVersion" ∷ "SingletonCookie" ∷ "SingletonLock" ∷ "SingletonSocket"
    ∷ "BrowserMetrics-spare.pma" ∷ [])

-- `prefix.every(...)`, with the test of the lengths.
unfoldable pub starts_parts : Letters → List (List ℕ) → List (List ℕ) → Bool
starts_parts l [] ps = true
starts_parts l (q ∷ qs) [] = false
starts_parts l (q ∷ qs) (p ∷ ps) = text_eq (l.lower q) (l.lower p) && starts_parts l qs ps

unfoldable pub disposable : Letters → List ℕ → Bool
unfolding starts_parts
disposable l name =
    any (text_eq name) runtime_files || any (λ d. starts_parts l d (split name)) cache_dirs

abbrev pub ends_slash : List ℕ → Bool
ends_slash [] = false
ends_slash (c ∷ []) = c == 47
ends_slash (c ∷ d ∷ cs) = ends_slash (d ∷ cs)

-- `(externalAttributes >>> 16) & 0xf000`, in its highest place.
abbrev pub mode_of : ℕ → ℕ
mode_of attributes = attributes / 268435456 % 16

unfoldable pub is_directory_entry : List ℕ → ℕ → Bool
is_directory_entry name attributes = ends_slash name || mode_of attributes == 4

unfoldable pub is_symlink : ℕ → Bool
is_symlink attributes = mode_of attributes == 10
