-- ===== src/Coordinator/Restore.antt =====
-- src/core/coordinator/archive-cache.ts: `profileArchiveReference` and `restoreProfileArchive`.
pub mod Safety
use browserlogin_client.Prelude.{String, Bool, true, false, Option, none, some}
use browserlogin_client.Recovery.{ArchiveRecord}
use browserlogin_client.Coordinator.World.{
  ArchiveReference, Digest, Resolved, hit, miss, corrupt, storage_error, Failure, browser_login,
  invalid_state, state_error, storage, outside, Result, ok, err, cache_resolve, cache_remove,
  cache_publish, download_archive, extract_archive, Env,
}
use browserlogin_client.Coordinator.Exec.{
  M, throw, call, observe, ◌>>=◌, ◌>>◌, try_catch, skip, when,
}

-- profileArchiveReference
abbrev pub archive_reference : String → String → ArchiveRecord → ArchiveReference
archive_reference origin profile a = record {
  app_origin = origin;
  profile_id = profile;
  generation = a.generation;
  size = a.size;
  sha256 = a.sha256;
}

abbrev bytes_of : ArchiveRecord → Digest
bytes_of a = record { size = a.size; sha256 = a.sha256 }

module _ (env : Env) where
  drop_entry : ArchiveReference → M (Unit {0})
  drop_entry ref = call (cache_remove ref.app_origin ref.profile_id) env.cache_remove

  extract_from : String → String → ArchiveRecord → M (Unit {0})
  extract_from path dir a = call (extract_archive path dir (bytes_of a)) env.extract

  fetch : String → ArchiveRecord → String → String → M (Unit {0})
  unfolding extract_from
  fetch profile a path dir = do
    call
        (download_archive profile
          (record { generation = a.generation; size = a.size; sha256 = a.sha256 }) path)
        env.download
    extract_from path dir a

  refresh : ArchiveReference → String → Bool → M (Unit {0})
  unfolding drop_entry
  refresh ref path invalid = do
    when invalid (drop_entry ref)
    call (cache_publish ref path) env.cache_publish

  -- Only a `ProfileArchiveStorageError` of the refresh is swallowed.
  unless_storage : Failure → M (Unit {0})
  unless_storage (storage text) = skip
  unless_storage (browser_login text) = throw (browser_login text)
  unless_storage (invalid_state f) = throw (invalid_state f)
  unless_storage (state_error text) = throw (state_error text)
  unless_storage (outside text) = throw (outside text)

  fetch_and_refresh :
      ArchiveReference → String → ArchiveRecord → String → String → Bool → M (Unit {0})
  unfolding fetch refresh unless_storage
  fetch_and_refresh ref profile a path dir invalid = do
    fetch profile a path dir
    try_catch (refresh ref path invalid) unless_storage

  after_extract :
      ArchiveReference → String → ArchiveRecord → String → String → Result (Unit {0}) → M (Unit {0})
  unfolding fetch_and_refresh drop_entry
  after_extract ref profile a path dir (ok u) = skip
  after_extract ref profile a path dir (err f) = do
    drop_entry ref
    fetch_and_refresh ref profile a path dir false

  restore_resolved :
      ArchiveReference → String → ArchiveRecord → String → String → Resolved → M (Unit {0})
  unfolding after_extract
  restore_resolved ref profile a path dir (hit cached) = do
    extracted ← observe (extract_archive cached dir (bytes_of a)) env.extract
    after_extract ref profile a path dir extracted
  restore_resolved ref profile a path dir miss = fetch_and_refresh ref profile a path dir false
  restore_resolved ref profile a path dir storage_error =
      fetch_and_refresh ref profile a path dir false
  restore_resolved ref profile a path dir corrupt = fetch_and_refresh ref profile a path dir true

  restore_cached : String → String → ArchiveRecord → String → String → M (Unit {0})
  unfolding restore_resolved
  restore_cached origin profile a path dir = do
    found ← call (cache_resolve (archive_reference origin profile a)) env.cache_resolve
    restore_resolved (archive_reference origin profile a) profile a path dir found

  -- restoreProfileArchive; the first argument is the cache's origin, if there is a cache.
  unfoldable pub restore_archive :
      Option String → String → ArchiveRecord → String → String → M (Unit {0})
  unfolding restore_cached
  restore_archive none profile a path dir = fetch profile a path dir
  restore_archive (some origin) profile a path dir = restore_cached origin profile a path dir
