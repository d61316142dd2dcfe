-- ===== src/Execution/Journal/Writer.antt =====
-- `DurableJournal` of app/target_execution_journal.py: one live writer session over one file. What
-- the kernel answers is an argument of each operation, and so is what other processes do meanwhile.
mod File
pub mod Creating
pub mod Content
pub mod Appending
pub mod Steps
pub mod Roundtrip
unfoldable pub use File.{check_file, write_all, checkpoint_eq}
pub use File.{FileStat, Disk, Answer, interrupted, wrote, refused, stat_of}
use anime_db.Base.{
  ℕ, zero, suc, ◌+◌, String, Bool, true, false, not, ◌&&◌, ◌||◌, Option, none, some, List, [], ◌∷◌,
  ◌++◌, length, take, drop, list_eq, Result, ok, err, if◌then◌else◌, ◌==◌, nat_eq, bool_eq,
  String_eq, option_eq,
}
use anime_db.Execution.Platform.{Platform}
use anime_db.Execution.Manifest.{ExecutionManifest, JournalEntry}
use anime_db.Execution.Journal.{validate_entry, State_eq}
use anime_db.Execution.Journal.Lifecycle.{complete_with}
use anime_db.Execution.Journal.History.{
  Body, header, event, Codec, JournalError, rejected, reconciliation_required, header_of, frame,
  read_history, same_header,
}

-- The entries stand newest first. `stat` is (st_size, st_mtime_ns).
pub record Writer : Type 0 where
  pub manifest : ExecutionManifest
  pub entries : List JournalEntry
  pub completed : List String
  pub digest : String
  pub stat : ℕ × ℕ
  pub checkpoint_stat : FileStat
  pub last_offset : ℕ
  pub last_raw : List ℕ
  pub pid : ℕ
  pub poisoned : Bool
  pub closed : Bool

-- The answers to one operation's calls: whether the parent directory passes `_check_parent` before
-- and after, the results of `os.write` and `os.fsync`, and what others do to the file in between.
pub record Kernel : Type 0 where
  pub pid : ℕ
  pub euid : ℕ
  pub parent_before : Bool
  pub parent_after : Bool
  pub writes : List Answer
  pub fsync : Bool
  pub meanwhile : Disk → Disk

-- An operation on the file that may raise; what was written before stays written.
abbrev pub Action : Type 0 → Type 0
Action A = Disk → Result JournalError A × Disk

module _ {A B : Type 0} where
  abbrev pub then_with : Result JournalError A → (A → Action B) → Action B
  then_with (ok a) f = f a
  then_with (err e) f = λ disk. (err e, disk)

  infixl 5 ◌>>=◌ ◌>>◌
  abbrev pub ◌>>=◌ : Action A → (A → Action B) → Action B
  m >>= f = λ disk. let (result, after) = m disk in then_with result f after

  abbrev pub ◌>>◌ : Action A → Action B → Action B
  m >> n = m >>= λ _. n

abbrev pub return {ℓ} : {A : Type ℓ} → A → Disk → Result JournalError A × Disk
return a disk = (ok a, disk)

abbrev pub stop_if : Bool → JournalError → Action (Unit {0})
stop_if true e disk = (err e, disk)
stop_if false e disk = (ok tt, disk)

abbrev pub os_error : JournalError
os_error = rejected "OSError"

abbrev pub current_stat : ℕ → Action FileStat
current_stat euid disk = (check_file euid disk, disk)

abbrev pub written : Disk → Bool × List ℕ → Result JournalError (Unit {0}) × Disk
written disk (true, content) = (ok tt, record disk { content = content })
written disk (false, content) = (err os_error, record disk { content = content })

abbrev pub write : Kernel → List ℕ → Action (Unit {0})
write k raw disk = written disk (write_all k.writes raw disk.content)

abbrev pub others_run : Kernel → Action (Unit {0})
others_run k disk = (ok tt, k.meanwhile disk)

-- Equality of two journal entries.
abbrev pub entry_eq : JournalEntry → JournalEntry → Bool
entry_eq a b =
    a.manifest_id == b.manifest_id
    && (a.action_id == b.action_id
        && (nat_eq a.action_index b.action_index
            && (State_eq a.state b.state
                && (option_eq ◌==◌ a.failure_code b.failure_code
                    && (option_eq bool_eq a.source_intact b.source_intact
                        && (option_eq bool_eq a.target_absent b.target_absent
                            && (option_eq bool_eq a.primary_dependencies_clear
                                  b.primary_dependencies_clear
                                && option_eq bool_eq a.failure_journaled b.failure_journaled)))))))

-- `os.pread(fd, len(last_raw) + 1, last_offset) != last_raw`
abbrev pub last_frame_at : Writer → Action (Unit {0})
last_frame_at w disk =
    stop_if
      (not (
        list_eq nat_eq (take (suc (length w.last_raw)) (drop w.last_offset disk.content))
          w.last_raw))
      (reconciliation_required [] false) disk

-- The statements of `append` under its `try`.
unfoldable pub append_frame : Kernel → Writer → List ℕ → Action FileStat
append_frame k w raw = do
  stop_if (not k.parent_before) (rejected "journal parent changed or became unsafe")
  current ← current_stat k.euid
  stop_if
      (not (nat_eq current.size w.stat.0 && nat_eq current.mtime_ns w.stat.1)
        || not (checkpoint_eq current w.checkpoint_stat))
      (reconciliation_required w.entries false)
  write k raw
  stop_if (not k.fsync) os_error
  others_run k
  stop_if (not k.parent_after) (rejected "journal parent changed or became unsafe")
  after ← current_stat k.euid
  stop_if (not (nat_eq after.size (w.stat.0 + length raw)))
      (reconciliation_required w.entries false)
  return after

-- `except BaseException: self._poisoned = True`, and the acknowledgement behind the `try`.
unfoldable pub acknowledge :
    Writer
    → JournalEntry
    → List ℕ
    → String
    → Result JournalError FileStat
    → Result JournalError (Unit {0}) × Writer
acknowledge w entry raw digest (err e) = (err e, record w { poisoned = true })
acknowledge w entry raw digest (ok current) = (
  ok tt,
  record w {
    entries = entry ∷ w.entries;
    completed = complete_with entry w.completed;
    digest = digest;
    last_offset = w.stat.0;
    last_raw = raw;
    stat = (current.size, current.mtime_ns);
    checkpoint_stat = current;
  },
)

-- Result, writer and file behind an operation.
abbrev pub Outcome : Type 0
Outcome = Result JournalError (Unit {0}) × Writer × Disk

abbrev pub write_framed :
    Kernel → Writer → JournalEntry → Disk → Result String (List ℕ × String) → Outcome
write_framed k w entry disk (err message) = (err (rejected message), w, disk)
write_framed k w entry disk (ok (raw, digest)) =
    let (result, disk') = append_frame k w raw disk in
    let (answer, w') = acknowledge w entry raw digest result in (answer, w', disk')

module _ (pf : Platform) (codec : Codec) where
  abbrev pub frame_of : Writer → JournalEntry → Result String (List ℕ × String)
  frame_of w entry = frame pf codec (event (suc (length w.entries)) w.digest entry)

  abbrev pub append_valid :
      Kernel → Writer → JournalEntry → Disk → Result String (Unit {0}) → Outcome
  append_valid k w entry disk (err message) = (err (rejected message), w, disk)
  append_valid k w entry disk (ok _) = write_framed k w entry disk (frame_of w entry)

  -- `DurableJournal.append`
  unfoldable pub append : Kernel → Writer → JournalEntry → Disk → Outcome
  append k w entry disk =
      if not (nat_eq k.pid w.pid)
      then (err (rejected "writer inherited by another process"), w, disk)
      else if w.poisoned
      then (err (reconciliation_required w.entries false), w, disk)
      else if w.closed
      then (err (rejected "writer closed or inherited by another process"), w, disk)
      else append_valid k w entry disk (validate_entry pf w.manifest w.entries w.completed entry)

-- `checkpoint`: it reads, and poisons the writer if the last acknowledged frame is not in place.
checkpoint_read : Kernel → Writer → Action (Unit {0})
checkpoint_read k w = do
  stop_if (not k.parent_before) (rejected "journal parent changed or became unsafe")
  before ← current_stat k.euid
  stop_if (not (checkpoint_eq before w.checkpoint_stat)) (reconciliation_required [] false)
  last_frame_at w
  others_run k
  after ← current_stat k.euid
  stop_if (not (checkpoint_eq after w.checkpoint_stat)) (reconciliation_required [] false)

unfoldable pub poison : Writer → Result JournalError (Unit {0}) × Disk → Outcome
poison w (ok _, disk) = (ok tt, w, disk)
poison w (err e, disk) = (err e, record w { poisoned = true }, disk)

unfoldable pub checkpoint : Kernel → Bool → Writer → Disk → Outcome
unfolding checkpoint_read poison
checkpoint k same_manifest w disk =
    if not (nat_eq k.pid w.pid)
    then (err (rejected "writer inherited by another process"), w, disk)
    else if w.closed || (w.poisoned || not same_manifest)
    then (err (reconciliation_required [] false), w, disk)
    else poison w (checkpoint_read k w disk)

module _ (pf : Platform) (codec : Codec) where
  -- The body of `inspect_live` under its `try`.
  inspect_read : Kernel → ExecutionManifest → Writer → Action (Unit {0})
  inspect_read k m w = do
    stop_if (not k.parent_before) (rejected "journal parent changed or became unsafe")
    before ← current_stat k.euid
    entries ← (λ disk. (read_history pf codec m disk.content, disk))
    others_run k
    after ← current_stat k.euid
    stop_if (not k.parent_after) (rejected "journal parent changed or became unsafe")
    stop_if
        (not (list_eq entry_eq entries w.entries)
          || (not (nat_eq before.size w.stat.0 && nat_eq before.mtime_ns w.stat.1)
              || not (nat_eq after.size w.stat.0 && nat_eq after.mtime_ns w.stat.1)))
        (reconciliation_required entries false)

  pub same_headers : Result String Body → Result String Body → Bool
  same_headers (ok a) (ok b) = same_header pf codec a b
  same_headers _ _ = false

  -- `inspect_live`; on success its entries are those of the writer.
  unfoldable pub inspect_live : Kernel → ExecutionManifest → Writer → Disk → Outcome
  unfolding inspect_read poison same_headers header_of
  inspect_live k m w disk =
      if not (nat_eq k.pid w.pid)
      then (err (rejected "writer inherited by another process"), w, disk)
      else if w.closed
      then (err (rejected "writer closed"), w, disk)
      else if w.poisoned
      then (err (reconciliation_required w.entries false), w, disk)
      else if not (same_headers (header_of pf codec m) (header_of pf codec w.manifest))
      then (err (rejected "live writer exact manifest binding mismatch"), w, disk)
      else poison w (inspect_read k m w disk)

-- `close`
unfoldable pub close : Writer → Writer
close w = record w { closed = true }
