-- ===== src/Execution/Journal/Writer/Creating.antt =====
-- `DurableJournal.create`.
use anime_db.Base.{
  ℕ, String, Bool, false, not, Option, none, some, List, [], length, Result, ok, err, if◌then◌else◌,
  nat_eq, String_eq,
}
use anime_db.Execution.Platform.{Platform}
use anime_db.Execution.Manifest.{ExecutionManifest}
use anime_db.Execution.Journal.History.{
  Body, Codec, JournalError, rejected, reconciliation_required, header_of, frame,
}
use anime_db.Execution.Journal.Writer.{
  FileStat, Disk, Writer, Kernel, Action, ◌>>=◌, ◌>>◌, return, stop_if, os_error, current_stat,
  write, others_run,
}

-- What a creation meets: the directory, the new file of `O_CREAT | O_EXCL` (none if the name is
-- taken), its lock, and the durability of the directory.
pub record Creation : Type 0 where
  pub kernel : Kernel
  pub parent_opened : Bool
  pub file : Option Disk
  pub locked : Bool
  pub parent_fsync : Bool

-- The statements of `create` under its `try`, on the new file.
unfoldable pub create_write : Creation → List ℕ → Action (Unit {0})
create_write c raw = do
  write c.kernel raw
  stop_if (not c.kernel.fsync) os_error
  stop_if (not c.parent_fsync) os_error

unfoldable pub create_header : Creation → List ℕ → Action (Unit {0})
create_header c raw = do
  stop_if (not c.locked) (rejected "journal held by another session")
  current_stat c.kernel.euid
  create_write c raw

unfoldable pub create_verify : Creation → List ℕ → Action FileStat
create_verify c raw = do
  others_run c.kernel
  stop_if (not c.kernel.parent_after) (rejected "journal parent changed or became unsafe")
  current ← current_stat c.kernel.euid
  stop_if (not (nat_eq current.size (length raw))) (reconciliation_required [] false)
  return current

unfoldable pub create_file : Creation → List ℕ → Action FileStat
create_file c raw = do create_header c raw; create_verify c raw

abbrev pub new_writer : Creation → ExecutionManifest → List ℕ → String → FileStat → Writer
new_writer c m raw digest current = record {
  manifest = m;
  entries = [];
  completed = [];
  digest = digest;
  stat = (current.size, current.mtime_ns);
  checkpoint_stat = current;
  last_offset = 0;
  last_raw = raw;
  pid = c.kernel.pid;
  poisoned = false;
  closed = false;
}

abbrev pub created :
    Creation
    → ExecutionManifest
    → List ℕ
    → String
    → Result JournalError FileStat × Disk
    → Result JournalError Writer × Option Disk
created c m raw digest (ok current, disk) = (ok (new_writer c m raw digest current), some disk)
created c m raw digest (err e, disk) = (err e, some disk)

abbrev pub empty_file : Disk → Disk
empty_file disk = record disk { content = [] }

-- Exclusive creation: no file where the name is taken.
abbrev pub created_on :
    Creation
    → ExecutionManifest
    → List ℕ
    → String
    → Option Disk
    → Result JournalError Writer × Option Disk
created_on c m raw digest none = (err os_error, none)
created_on c m raw digest (some disk) = created c m raw digest (create_file c raw (empty_file disk))

abbrev pub create_at :
    Creation
    → ExecutionManifest
    → Result String (List ℕ × String)
    → Option Disk
    → Result JournalError Writer × Option Disk
create_at c m (err message) file = (err (rejected message), none)
create_at c m (ok (raw, digest)) file =
    if c.parent_opened
    then created_on c m raw digest file
    else (err (rejected "journal requires a safe private directory"), none)

module _ (pf : Platform) (codec : Codec) where
  abbrev pub frame_header : Result String Body → Result String (List ℕ × String)
  frame_header (err message) = err message
  frame_header (ok body) = frame pf codec body

  -- `DurableJournal.create`: the writer, and the bytes that stay on the disk in any case.
  unfoldable pub create : Creation → ExecutionManifest → Result JournalError Writer × Option Disk
  unfolding create_file create_header create_verify header_of
  create c m = create_at c m (frame_header (header_of pf codec m)) c.file
