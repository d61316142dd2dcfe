-- ===== src/Execution/Journal/Writer/File.antt =====
-- The journal file as the kernel shows it: `_check_file`, `_checkpoint_stat` and `_write_all`.
use Prim.Native.Nat.{bit_and}
use anime_db.Base.{
  ℕ, zero, suc, Bool, true, false, not, ◌&&◌, ◌||◌, Option, none, some, List, [], ◌∷◌, ◌++◌, length,
  take, drop, Result, ok, err, if◌then◌else◌, nat_eq,
}
use anime_db.Execution.Journal.History.{JournalError, rejected}

-- `os.stat_result`; `regular` is `S_ISREG(st_mode)`.
pub record FileStat : Type 0 where
  pub dev : ℕ
  pub ino : ℕ
  pub size : ℕ
  pub mtime_ns : ℕ
  pub ctime_ns : ℕ
  pub mode : ℕ
  pub uid : ℕ
  pub gid : ℕ
  pub nlink : ℕ
  pub regular : Bool

-- The open file, and what `os.stat` finds under its name.
pub record Disk : Type 0 where
  pub content : List ℕ
  pub info : FileStat
  pub named : Option FileStat

-- `os.fstat(fd)`
abbrev pub stat_of : Disk → FileStat
stat_of disk = record disk.info { size = length disk.content }

abbrev pub same_file : FileStat → FileStat → Bool
same_file a b = nat_eq a.dev b.dev && nat_eq a.ino b.ino

abbrev checked : ℕ → FileStat → Option FileStat → Result JournalError FileStat
checked euid info none = err (rejected "FileNotFoundError")
checked euid info (some current) =
    if not info.regular
      || (not (nat_eq info.nlink 1)
          || (not (nat_eq info.uid euid)
              || (not (nat_eq (bit_and info.mode 0o022) 0)
                  || (not current.regular || not (same_file current info)))))
    then err (rejected "journal must remain an independent regular file at its original path")
    else ok info

-- `_check_file`
unfoldable pub check_file : ℕ → Disk → Result JournalError FileStat
check_file euid disk = checked euid (stat_of disk) disk.named

-- Equality of two `_checkpoint_stat` tuples.
unfoldable pub checkpoint_eq : FileStat → FileStat → Bool
checkpoint_eq a b =
    nat_eq a.dev b.dev
    && (nat_eq a.ino b.ino
        && (nat_eq a.size b.size
            && (nat_eq a.mtime_ns b.mtime_ns
                && (nat_eq a.ctime_ns b.ctime_ns
                    && (nat_eq a.mode b.mode
                        && (nat_eq a.uid b.uid
                            && (nat_eq a.gid b.gid && nat_eq a.nlink b.nlink)))))))

-- What `os.write` does: an InterruptedError, a count of bytes taken, or another error.
pub data Answer : Type 0 where
  interrupted : Answer
  wrote : ℕ → Answer
  refused : Answer

-- `_write_all`: whether all of `remaining` was taken, and the file's content. A process that gets no
-- further answer has stopped inside the call.
unfoldable pub write_all : List Answer → List ℕ → List ℕ → Bool × List ℕ
write_all answers [] content = (true, content)
write_all [] (b ∷ remaining) content = (false, content)
write_all (interrupted ∷ answers) (b ∷ remaining) content =
    write_all answers (b ∷ remaining) content
write_all (refused ∷ answers) (b ∷ remaining) content = (false, content)
write_all (wrote zero ∷ answers) (b ∷ remaining) content = (false, content)
write_all (wrote (suc n) ∷ answers) (b ∷ remaining) content =
    write_all answers (drop n remaining) (content ++ b ∷ take n remaining)
