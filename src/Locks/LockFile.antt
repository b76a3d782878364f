-- ===== src/Locks/LockFile.antt =====
-- src/core/locks/locks.ts: `acquireFileLock` with `reclaimStale`, `readOwner` and
-- `removeIfOwnerMatches`, run by any number of processes on one lock path. What a process does between
-- two awaits is one move. A process is a number; its owner record names it, so that two processes
-- never write the same bytes, and `JSON.parse` reads back what `ownerBytes` wrote.
use browserlogin_client.Prelude.{
  ℕ, Bool, true, false, Option, none, some, List, [], ◌∷◌, ◌==◌, if◌then◌else◌,
}

-- The file at the lock path: the process that created it, and the owner that it names. It names none
-- until it is written.
pub record LockFile : Type 0 where
  pub creator : ℕ
  pub owner : Option ℕ

-- Where a process stands, with the locals that are live there.
pub data Pc : Type 0 where
  idle dead : Pc
  opening : Pc  -- before `open(lockPath, "wx")`
  writing : Pc  -- before `handle.write(bytes)`
  holding : Pc  -- in `work`
  reading : Pc  -- before the `readFile` of `readOwner`
  probing : ℕ → Pc  -- before `isMatchingLiveProcess`
  aging : Pc  -- before `stat`, when no file was there or it named no owner
  rereading : Pc  -- before the `readFile` of an aged file's bytes
  comparing : Option ℕ → Pc  -- before the `readFile` of `removeIfOwnerMatches`
  unlinking : Pc  -- before its `unlink`
  polling : Pc  -- before the test of the deadline
  releasing : Pc  -- before `removeIfOwnerMatches` of the release
  removing : Pc  -- before the `unlink` of the release

pub record System : Type 0 where
  pub file : Option LockFile
  pub pc : ℕ → Pc

-- What the surroundings answer to a move: the signal is aborted, the probed process is alive, the file is
-- older than MALFORMED_LOCK_GRACE_MS, and the deadline has passed.
pub record Answer : Type 0 where
  pub aborted : Bool
  pub alive : Bool
  pub aged : Bool
  pub late : Bool

abbrev pub update : (ℕ → Pc) → ℕ → Pc → ℕ → Pc
update f i p j = if i == j then p else f j

abbrev pub goes : System → ℕ → Pc → System
goes s i p = record s { pc = update s.pc i p }

abbrev pub goes_with : Option LockFile → System → ℕ → Pc → System
goes_with f s i p = record { file = f; pc = update s.pc i p }

-- `open(lockPath, "wx")` creates the file or fails with EEXIST.
unfoldable pub open_new : Option LockFile → ℕ → System → System
open_new none i s = goes_with (some (record { creator = i; owner = none })) s i writing
open_new (some f) i s = goes s i reading

-- `handle.write` writes to the file that the process created, if it is still at the path.
unfoldable pub write_owner : Option LockFile → ℕ → System → System
write_owner none i s = goes s i holding
write_owner (some f) i s =
    goes_with (some (if f.creator == i then record f { owner = some i } else f)) s i holding

-- readOwner
abbrev pub after_read : Option ℕ → Pc
after_read none = aging
after_read (some j) = probing j

unfoldable pub read_owner : Option LockFile → ℕ → System → System
read_owner none i s = goes s i aging
read_owner (some f) i s = goes s i (after_read f.owner)

unfoldable pub read_age : Option LockFile → Bool → ℕ → System → System
read_age none aged i s = goes s i polling
read_age (some f) aged i s = goes s i (if aged then rereading else polling)

unfoldable pub reread : Option LockFile → ℕ → System → System
reread none i s = goes s i polling
reread (some f) i s = goes s i (comparing f.owner)

-- `actual !== expectedBytes`
abbrev pub same_owner : Option ℕ → Option ℕ → Bool
same_owner none none = true
same_owner (some i) (some j) = i == j
same_owner _ _ = false

unfoldable pub compare_bytes : Option ℕ → (yes_ no_ : Pc) → Option LockFile → ℕ → System → System
compare_bytes expected yes_ no_ none i s = goes s i no_
compare_bytes expected yes_ no_ (some f) i s =
    goes s i (if same_owner f.owner expected then yes_ else no_)

-- `unlink`, which fails if there is no file.
unfoldable pub remove_stale : Option LockFile → ℕ → System → System
remove_stale none i s = goes s i polling
remove_stale (some f) i s = goes_with none s i opening

unfoldable pub move_at : Pc → ℕ → Answer → System → System
move_at idle i a s = goes s i opening
move_at dead i a s = s
move_at opening i a s = if a.aborted then goes s i idle else open_new s.file i s
move_at writing i a s = write_owner s.file i s
move_at holding i a s = goes s i releasing
move_at reading i a s = read_owner s.file i s
move_at (probing j) i a s = goes s i (if a.alive then polling else comparing (some j))
move_at aging i a s = read_age s.file a.aged i s
move_at rereading i a s = reread s.file i s
move_at (comparing c) i a s = compare_bytes c unlinking polling s.file i s
move_at unlinking i a s = remove_stale s.file i s
move_at polling i a s = goes s i (if a.late then idle else opening)
move_at releasing i a s = compare_bytes (some i) removing idle s.file i s
move_at removing i a s = goes_with none s i idle

unfoldable pub move : ℕ → Answer → System → System
move i a s = move_at (s.pc i) i a s

-- Nobody holds the lock, and nobody is about to.
abbrev pub free : System
free = record { file = none; pc = λ _. idle }

-- Moves of the given processes, in order.
unfoldable pub run : List (ℕ × Answer) → System → System
run [] s = s
run ((i, a) ∷ ms) s = run ms (move i a s)

-- A process dies where it stands.
abbrev pub crash : ℕ → System → System
crash i s = goes s i dead

-- From the creation of its file to the removal, while it works under the lock.
abbrev pub critical : Pc → Bool
critical holding = true
critical releasing = true
critical removing = true
critical _ = false

-- It has created a file that it has not removed.
abbrev pub has_file : Pc → Bool
has_file writing = true
has_file p = critical p
