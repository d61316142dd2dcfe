-- ===== src/Execution/Journal/Examples/Files.antt =====
-- A session of the examples: a new file, and two entries appended to it.
use anime_db.Base.{◌≡◌, refl, true, Option, some, [], ◌∷◌, Result, ok}
use anime_db.Execution.Manifest.{pending}
use anime_db.Execution.Manifest.Validate.{validate_manifest}
use anime_db.Execution.Journal.{validate_entry}
use anime_db.Execution.Journal.History.{JournalError, frame}
use anime_db.Execution.Journal.Writer.{
  FileStat, Disk, interrupted, wrote, Writer, Kernel, append, Outcome, check_file, write_all,
  acknowledge, append_frame, checkpoint_eq,
}
use anime_db.Execution.Journal.Writer.Creating.{Creation, create, create_write}
use anime_db.Execution.Journal.Writer.Roundtrip.{Session, opened, appended}
use anime_db.Execution.Journal.Examples.Frames.{codec}
use anime_db.Execution.Journal.Examples.Scenario.{host, manifest, entry, extra_failed}

abbrev info : FileStat
info = record {
  dev = 1;
  ino = 2;
  size = 0;
  mtime_ns = 3;
  ctime_ns = 4;
  mode = 384;
  uid = 7;
  gid = 7;
  nlink = 1;
  regular = true;
}

abbrev pub new_file : Disk
new_file = record { content = []; info = info; named = some info }

-- The kernel takes the bytes in two parts, with an interruption between.
abbrev pub kernel : Kernel
kernel = record {
  pid = 1;
  euid = 7;
  parent_before = true;
  parent_after = true;
  writes = wrote 5 ∷ interrupted ∷ wrote 70000 ∷ [];
  fsync = true;
  meanwhile = λ disk. disk;
}

abbrev pub creation : Creation
creation = record {
  kernel = kernel;
  parent_opened = true;
  file = some new_file;
  locked = true;
  parent_fsync = true;
}

abbrev no_writer : Writer
no_writer = record {
  manifest = manifest;
  entries = [];
  completed = [];
  digest = "";
  stat = (0, 0);
  checkpoint_stat = info;
  last_offset = 0;
  last_raw = [];
  pid = 0;
  poisoned = true;
  closed = true;
}

abbrev made : Result JournalError Writer × Option Disk → Writer × Disk
made (ok w, some disk) = (w, disk)
made _ = (no_writer, new_file)

abbrev pub first : Writer × Disk
first = made (create host codec creation manifest)

abbrev pub second : Outcome
second = append host codec kernel first.0 (entry "a/extra" 0 pending) first.1

abbrev pub third : Outcome
third = append host codec kernel second.1 extra_failed second.2

pub created_ok : create host codec creation manifest ≡ (ok first.0, some first.1)
unfolding create codec validate_manifest frame check_file create_write write_all
created_ok = refl

appended_ok : second ≡ (ok tt, second.1, second.2)
unfolding create append codec validate_manifest validate_entry frame check_file create_write
    write_all acknowledge append_frame checkpoint_eq
appended_ok = refl

failed_ok : third ≡ (ok tt, third.1, third.2)
unfolding create append codec validate_manifest validate_entry frame check_file create_write
    write_all acknowledge append_frame checkpoint_eq
failed_ok = refl

pub session : Session host codec manifest third.1 third.2
session =
    appended
      (appended (opened creation first.0 first.1 (λ disk. refl) created_ok) kernel
        (entry "a/extra" 0 pending) second.1 second.2 (λ disk. refl) appended_ok)
      kernel extra_failed third.1 third.2 (λ disk. refl) failed_ok
