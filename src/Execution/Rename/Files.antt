-- ===== src/Execution/Rename/Files.antt =====
-- The tree of files behind a rename session, and the exceptions of its operations.
use anime_db.Base.{
  ℕ, String, Bool, ◌&&◌, Option, none, some, List, [], ◌∷◌, ok, err, if◌then◌else◌, nat_eq, ◌==◌,
  ℕ_eq, String_eq, Result,
}
use anime_db.Base.Effects.{Effect}
use anime_db.Execution.Manifest.{ℤ}

-- A name in an open directory.
abbrev pub Location : Type 0
Location = ℕ × String

abbrev pub location_eq : Location → Location → Bool
location_eq (d, n) (e, m) = nat_eq d e && n == m

-- An inode: a regular file, owned by us and writable by nobody else, with one name, on the device and
-- the mount of the root.
pub record Node : Type 0 where
  pub regular : Bool
  pub own : Bool
  pub nlink : ℕ
  pub size : ℤ
  pub mtime_ns : ℤ
  pub on_device : Bool
  pub on_mount : Bool

-- `RenameRejected` with its errno, `RenameReconciliationRequired` with `syscall_succeeded`, an
-- `OSError`, another `ValueError`, and `KeyboardInterrupt` or `SystemExit`.
pub data Exn : Type 0 where
  rejected : Option ℕ → Exn
  reconciliation : Option Bool → Exn
  os_error : ℕ → Exn
  value_error : Exn
  interrupt : Exn

-- The environment's answer to a call: it works, it raises, or it raises although it took effect.
pub data Answer : Type 0 where
  fine : Answer
  raises : Exn → Answer
  applied : Exn → Answer

-- The directory entries are all that a rename changes. `synced` holds the inodes and directories whose
-- `fsync` returned since the last change.
pub record Disk : Type 0 where
  pub entries : List (Location × ℕ)
  pub synced : List ℕ

abbrev pub lookup : Location → List (Location × ℕ) → Option ℕ
lookup l [] = none
lookup l ((k, inode) ∷ rest) = if location_eq l k then some inode else lookup l rest

abbrev pub erase : Location → List (Location × ℕ) → List (Location × ℕ)
erase l [] = []
erase l ((k, inode) ∷ rest) =
    let later = erase l rest in if location_eq l k then later else (k, inode) ∷ later

-- The errno codes that the code names.
abbrev pub enoent : ℕ
enoent = 2

abbrev pub eexist : ℕ
eexist = 17

abbrev pub exdev : ℕ
exdev = 18

-- `_KNOWN_REJECTIONS`, by their numbers on Linux
abbrev pub known_rejections : List ℕ
known_rejections = 17 ∷ 18 ∷ 38 ∷ 95 ∷ 22 ∷ 13 ∷ 1 ∷ 30 ∷ 2 ∷ 20 ∷ 21 ∷ 40 ∷ 36 ∷ 39 ∷ []

-- A local session: its fields, and the locals `attempted` and `succeeded` of a call of `rename`.
pub record Session : Type 0 where
  pub attempted_keys : List (String × String)
  pub poisoned : Bool
  pub closed : Bool

pub record RenameState : Type 0 where
  pub session : Session
  pub disk : Disk
  pub answers : List Answer
  pub attempted : Bool
  pub succeeded : Bool

abbrev pub Act : Type 0 → Type 0
Act A = Effect Exn RenameState A

-- The next answer, for a call that changes nothing.
abbrev pub answered : List Answer → Act (Unit {0})
answered [] s = (ok tt, s)
answered (fine ∷ rest) s = (ok tt, record s { answers = rest })
answered (raises e ∷ rest) s = (err e, record s { answers = rest })
answered (applied e ∷ rest) s = (err e, record s { answers = rest })

unfoldable pub step : Act (Unit {0})
step s = answered s.answers s

-- What `renameat2` with RENAME_NOREPLACE does to the entries, and what it returns.
abbrev pub place_at :
    Location → Location → Option ℕ → Option ℕ → Disk → Result Exn (Unit {0}) × Disk
place_at source target held (some other) d = (err (os_error eexist), d)
place_at source target none none d = (err (os_error enoent), d)
place_at source target (some inode) none d =
    (ok tt, record { entries = (target, inode) ∷ erase source d.entries; synced = [] })

unfoldable pub renameat2 : Location → Location → Disk → Result Exn (Unit {0}) × Disk
renameat2 source target d =
    place_at source target (lookup source d.entries) (lookup target d.entries) d

abbrev pub renamed : Result Exn (Unit {0}) × Disk → Act (Unit {0})
renamed (r, d) s = (r, record s { disk = d })

abbrev pub call_rename : List Answer → Location → Location → Act (Unit {0})
call_rename [] source target s = renamed (renameat2 source target s.disk) s
call_rename (fine ∷ rest) source target s =
    renamed (renameat2 source target s.disk) (record s { answers = rest })
call_rename (raises e ∷ rest) source target s = (err e, record s { answers = rest })
call_rename (applied e ∷ rest) source target s =
    (err e, record s { disk = (renameat2 source target s.disk).1; answers = rest })

-- `_rename_noreplace`
unfoldable pub rename_noreplace : Location → Location → Act (Unit {0})
unfolding renameat2
rename_noreplace source target s = call_rename s.answers source target s

abbrev pub record_sync :
    ℕ → Result Exn (Unit {0}) × RenameState → Result Exn (Unit {0}) × RenameState
record_sync id (ok _, s) =
    (ok tt, record s { disk = record s.disk { synced = id ∷ s.disk.synced } })
record_sync id (err e, s) = (err e, s)

-- `os.fsync`
unfoldable pub fsync : ℕ → Act (Unit {0})
unfolding step
fsync id s = record_sync id (step s)
