-- ===== src/Execution/Journal/Loading.antt =====
-- `load_journal` of app/target_execution_journal.py, and the binding of a manifest to its Windows root.
mod Examples
use anime_db.Base.{
  ℕ, String, ◌≡◌, refl, ap, sym, ◌∙◌, Bool, true, false, not, ◌&&◌, ◌||◌, Option, none, some, List,
  [], ◌∷◌, ◌++◌, Result, ok, err, ◌>>=◌, ◌>>◌, >>-ok, >>=-ok, raise_if, raise_if-ok, if◌then◌else◌,
  ◌==◌, nat_eq, option_eq, String_eq, ok-injective, if_ind,
}
use mathlib.Core.Path.{subst}
use anime_db.Execution.Platform.{Platform}
use anime_db.Execution.Manifest.{ExecutionManifest, JournalEntry, PayloadType}
use anime_db.Execution.Manifest.Validate.{validate_manifest}
use anime_db.Execution.Journal.Lifecycle.{Admitted}
use anime_db.Execution.Journal.History.{
  Codec, JournalError, rejected, reconciliation_required, header_of, or_reject, read_history,
}
use anime_db.Execution.Journal.History.Soundness.{read_history-Admitted}
use anime_db.Execution.Journal.Writer.{Disk, Kernel, FileStat, check_file, stat_of}

pub record JournalSnapshot : Type 0 where
  pub manifest_id : String
  pub entries : List JournalEntry
  pub reconciliation_required : Bool

-- What an inspection meets: the directory, the existing file, its shared lock, and the kernel.
pub record Inspection : Type 0 where
  pub kernel : Kernel
  pub parent_opened : Bool
  pub file : Option Disk
  pub locked : Bool

abbrev pub opened : Option Disk → Result JournalError Disk
opened none = err (rejected "FileNotFoundError")
opened (some disk) = ok disk

module _ (pf : Platform) (codec : Codec) where
  -- The statements under the `try`, on the open file.
  abbrev pub load_open : Inspection → ExecutionManifest → Disk → Result JournalError JournalSnapshot
  load_open i m disk = do
    before ← check_file i.kernel.euid disk
    raise_if (not i.locked) (rejected "journal held by another session")
    raise_if (not i.kernel.parent_before) (rejected "journal parent changed or became unsafe")
    entries ← read_history pf codec m disk.content
    after ← check_file i.kernel.euid (i.kernel.meanwhile disk)
    raise_if (not i.kernel.parent_after) (rejected "journal parent changed or became unsafe")
    raise_if (not (nat_eq before.size after.size && nat_eq before.mtime_ns after.mtime_ns))
        (reconciliation_required entries false)
    ok (record { manifest_id = m.manifest_id; entries = entries; reconciliation_required = true })

  -- `load_journal`
  unfoldable pub load_journal : Inspection → ExecutionManifest → Result JournalError JournalSnapshot
  load_journal i m = do
    header ← or_reject pf codec (header_of pf codec m)
    raise_if (not i.parent_opened) (rejected "journal requires a safe private directory")
    disk ← opened i.file
    load_open i m disk

  -- What a loaded snapshot is: it never grants resumption, and its entries are an admitted history.
  abbrev pub Inspected : ExecutionManifest → JournalSnapshot → Type 0
  Inspected m s =
      (s.reconciliation_required ≡ true)
      × (s.manifest_id ≡ m.manifest_id)
      × ((c : List String) × Admitted pf m s.entries c)

  load_open-Inspected :
      (i : Inspection) (m : ExecutionManifest) (disk : Disk) (s : JournalSnapshot)
      → load_open i m disk ≡ ok s
      → Inspected m s
  load_open-Inspected i m disk s h =
      let (before, _, h1) = >>=-ok (check_file i.kernel.euid disk) _ h in
      let (_, h2) = >>-ok (raise_if (not i.locked) _) _ h1 in
      let (_, h3) = >>-ok (raise_if (not i.kernel.parent_before) _) _ h2 in
      let (entries, read, h4) = >>=-ok (read_history pf codec m disk.content) _ h3 in
      let (after, _, h5) = >>=-ok (check_file i.kernel.euid (i.kernel.meanwhile disk)) _ h4 in
      let (_, h6) = >>-ok (raise_if (not i.kernel.parent_after) _) _ h5 in
      let (_, h7) =
        >>-ok
          (raise_if (not (nat_eq before.size after.size && nat_eq before.mtime_ns after.mtime_ns))
            (reconciliation_required entries false))
          _ h6 in
      subst (Inspected m) (ok-injective _ s h7)
        (refl, refl, read_history-Admitted pf codec m disk.content entries read)

  -- A journal that `load_journal` returns is an admitted history of its manifest, and its snapshot
  -- always asks for reconciliation.
  pub load_journal-Inspected :
      (i : Inspection) (m : ExecutionManifest) (s : JournalSnapshot)
      → load_journal i m ≡ ok s
      → Inspected m s
  unfolding load_journal
  load_journal-Inspected i m s h =
      let (_, _, h1) = >>=-ok (or_reject pf codec (header_of pf codec m)) _ h in
      let (_, h2) = >>-ok (raise_if (not i.parent_opened) _) _ h1 in
      let (disk, _, h3) = >>=-ok (opened i.file) (load_open i m) h2 in
      load_open-Inspected i m disk s h3
