-- ===== src/Execution/Rename.antt =====
-- `ScratchRenameSession` of app/target_execution_filesystem.py: one rename, without replacement, of a
-- file that was checked before and is checked again after, in a tree that nobody else changes.
pub mod Files
pub mod Checks
pub mod Keeps
pub mod Moves
pub mod Syscall
pub mod Durable
pub mod Outcomes
pub mod Once
pub mod Runs
pub mod Unhindered
pub mod Applied
pub mod Live
mod Examples
use anime_db.Base.{
  ℕ, String, Bool, true, false, not, ◌&&◌, ◌||◌, Option, none, some, List, [], ◌∷◌, any, elem,
  is_some, Result, ok, err, if◌then◌else◌, nat_eq, ◌==◌, ℕ_eq, String_eq,
}
use anime_db.Base.Effects.{◌>>=◌, ◌>>◌, pure, raise, raise_if, modify}
use anime_db.Execution.Platform.{Platform}
use anime_db.Execution.Manifest.{ManifestAction, ExecutionManifest}
use anime_db.Execution.Rename.Files.{
  Location, Node, Exn, Answer, Disk, Session, RenameState, Act, step, rename_noreplace, fsync,
  lookup, rejected, reconciliation, os_error, value_error, interrupt, known_rejections,
}
use anime_db.Execution.Rename.Checks.{
  Host, file_name, locator, validate_scratch_action, check_root, parent, parent_binding, named,
  check_fd, check_source, absent,
}

pub record RenameResult : Type 0 where
  pub manifest_id : String
  pub action_id : String
  pub outcome : String
  pub syscall_succeeded : Bool
  pub durability_confirmed : Bool

-- `ScratchObservation`: whether it is live and bound to this session, manifest and action, and the
-- inodes that it holds.
pub record Observation : Type 0 where
  pub bound : Bool
  pub source_parent : ℕ
  pub target_parent : ℕ
  pub source : ℕ

abbrev pub key_eq : String × String → String × String → Bool
key_eq (m, a) (n, b) = m == n && a == b

module _ (pf : Platform) (host : Host) where
  -- `ScratchObservation._check` and `check_before`
  unfoldable pub check_before : ManifestAction → Observation → ℕ → ℕ → ℕ → Act (Unit {0})
  unfolding check_root locator parent_binding check_fd
  check_before a o source_fd source_parent target_parent = do
    raise_if (not o.bound) (rejected none)
    check_root pf host false
    source_parts ← locator pf host a.source
    parent_binding pf host source_parts o.source_parent
    target_parts ← locator pf host a.target
    parent_binding pf host target_parts o.target_parent
    check_fd pf host o.source
    raise_if (not (nat_eq (host.stat o.source).nlink 1)) (rejected none)
    raise_if
        (not (nat_eq source_fd o.source)
          || (not (nat_eq source_parent o.source_parent)
              || not (nat_eq target_parent o.target_parent)))
        (rejected none)

  abbrev pub check_observation : ManifestAction → Option Observation → ℕ → ℕ → ℕ → Act (Unit {0})
  check_observation a none source_fd source_parent target_parent = pure tt
  check_observation a (some o) source_fd source_parent target_parent =
      check_before a o source_fd source_parent target_parent

  -- `_verify_applied`
  unfoldable pub verify_applied :
      ManifestAction → List String → List String → ℕ → ℕ → ℕ → Act (Unit {0})
  unfolding check_root parent_binding absent check_source
  verify_applied a source_parts target_parts source_fd source_parent target_parent = do
    check_root pf host true
    parent_binding pf host source_parts source_parent
    parent_binding pf host target_parts target_parent
    absent pf host (source_parent, file_name source_parts)
    check_source pf host source_fd (target_parent, file_name target_parts) a (some source_fd)

  abbrev pub mark_attempted : String × String → RenameState → RenameState
  mark_attempted key s = record s {
    session = record s.session { attempted_keys = key ∷ s.session.attempted_keys };
    attempted = true;
  }

  abbrev pub is_location : ℕ → Option ℕ → Bool
  is_location inode none = false
  is_location inode (some other) = nat_eq inode other

  -- The syscall returned a known errno: check that nothing happened, then reject.
  unfoldable pub known_rejection :
      ManifestAction → List String → List String → ℕ → ℕ → ℕ → ℕ → Act (Unit {0})
  unfolding check_root parent_binding check_source step
  known_rejection a source_parts target_parts source_fd source_parent target_parent errno = do
    check_root pf host true
    parent_binding pf host source_parts source_parent
    parent_binding pf host target_parts target_parent
    check_source pf host source_fd (source_parent, file_name source_parts) a (some source_fd)
    step
    λ s.
        raise_if
          (is_location source_fd (lookup (target_parent, file_name target_parts) s.disk.entries))
          (reconciliation none) s
    modify (λ s. record s { attempted = false })
    raise (rejected (some errno))

  abbrev pub handle_syscall :
      ManifestAction
      → List String
      → List String
      → ℕ
      → ℕ
      → ℕ
      → Result Exn (Unit {0})
      → Act (Unit {0})
  handle_syscall a source_parts target_parts source_fd source_parent target_parent (ok _) = pure tt
  handle_syscall a source_parts target_parts source_fd source_parent target_parent
        (err (os_error errno)) =
      if elem errno known_rejections
      then known_rejection a source_parts target_parts source_fd source_parent target_parent errno
      else raise (os_error errno)
  handle_syscall a source_parts target_parts source_fd source_parent target_parent (err e) = raise e

  -- `try: _rename_noreplace(...) except OSError`
  unfoldable pub try_rename :
      ManifestAction → List String → List String → ℕ → ℕ → ℕ → Act (Unit {0})
  unfolding rename_noreplace known_rejection
  try_rename a source_parts target_parts source_fd source_parent target_parent s =
      let (r, s') =
        rename_noreplace (source_parent, file_name source_parts)
          (target_parent, file_name target_parts) s in
      handle_syscall a source_parts target_parts source_fd source_parent target_parent r s'

  -- From the syscall to the last check.
  unfoldable pub apply_rename :
      ExecutionManifest → ManifestAction → List String → List String → ℕ → ℕ → ℕ → Act RenameResult
  unfolding check_root try_rename verify_applied fsync
  apply_rename m a source_parts target_parts source_fd source_parent target_parent = do
    check_root pf host true
    modify (mark_attempted (m.manifest_id, a.action_id))
    try_rename a source_parts target_parts source_fd source_parent target_parent
    modify (λ s. record s { succeeded = true })
    verify_applied a source_parts target_parts source_fd source_parent target_parent
    fsync source_fd
    fsync target_parent
    if nat_eq source_parent target_parent then pure tt else fsync source_parent
    verify_applied a source_parts target_parts source_fd source_parent target_parent
    pure (record {
      manifest_id = m.manifest_id;
      action_id = a.action_id;
      outcome = "DURABLE";
      syscall_succeeded = true;
      durability_confirmed = true;
    })

  abbrev pub kept : ExecutionManifest → ManifestAction → RenameResult
  kept m a = record {
    manifest_id = m.manifest_id;
    action_id = a.action_id;
    outcome = "KEEP";
    syscall_succeeded = false;
    durability_confirmed = false;
  }

  -- The block under `with ExitStack()`.
  unfoldable pub attempt_rename :
      ExecutionManifest → ManifestAction → Option Observation → Act RenameResult
  unfolding check_root locator parent named check_fd check_source absent parent_binding check_before
      apply_rename
  attempt_rename m a observation = do
    check_root pf host false
    source_parts ← locator pf host a.source
    target_parts ← locator pf host a.target
    source_parent ← parent pf host source_parts
    target_parent ← parent pf host target_parts
    source_fd ← named pf host (source_parent, file_name source_parts)
    check_fd pf host source_fd
    check_source pf host source_fd (source_parent, file_name source_parts) a none
    if a.action == "KEEP" then pure tt else absent pf host (target_parent, file_name target_parts)
    check_root pf host false
    parent_binding pf host source_parts source_parent
    parent_binding pf host target_parts target_parent
    check_source pf host source_fd (source_parent, file_name source_parts) a (some source_fd)
    check_observation a observation source_fd source_parent target_parent
    if a.action == "KEEP"
        then pure (kept m a)
        else apply_rename m a source_parts target_parts source_fd source_parent target_parent

  -- Closing the descriptors: an exception that is under way stays, unless a signal replaces it.
  abbrev pub replaced : Exn → Result Exn (Unit {0}) → Exn
  replaced e (err interrupt) = interrupt
  replaced e _ = e

  abbrev pub after_closing :
      Result Exn RenameResult → Result Exn (Unit {0}) → Result Exn RenameResult
  after_closing (ok r) (ok _) = ok r
  after_closing (ok r) (err e) = err e
  after_closing (err e) c = err (replaced e c)

  unfoldable pub closing : Act RenameResult → Act RenameResult
  unfolding step
  closing body s = let (r, s') = body s in let (c, s'') = step s' in (after_closing r c, s'')

  abbrev pub poison : RenameState → RenameState
  poison s = record s { session = record s.session { poisoned = true } }

  -- The exception that `rename` raises where no syscall was attempted.
  abbrev pub refused : Exn → Exn
  refused (os_error errno) = rejected (some errno)
  refused value_error = rejected none
  refused e = e

  abbrev pub settle : Exn → RenameState → Result Exn RenameResult × RenameState
  settle e s =
      if s.attempted
      then (err (reconciliation (if s.succeeded then some true else none)), poison s)
      else (err (refused e), s)

  -- `except BaseException`
  abbrev pub handle : Exn → RenameState → Result Exn RenameResult × RenameState
  handle interrupt s = (err interrupt, poison s)
  handle e s = settle e s

  abbrev pub handled : Result Exn RenameResult × RenameState → Result Exn RenameResult × RenameState
  handled (ok r, s) = (ok r, s)
  handled (err e, s) = handle e s

  -- `rename`, in the process that owns the session; `same_process` is that it is that process.
  unfoldable pub rename :
      Bool → ExecutionManifest → ManifestAction → Option Observation → Act RenameResult
  unfolding validate_scratch_action attempt_rename closing
  rename same_process m a observation = do
    raise_if (not same_process) (rejected none)
    λ s. raise_if s.session.poisoned (reconciliation none) s
    λ s. raise_if s.session.closed (rejected none) s
    validate_scratch_action pf host m a
    λ s.
        raise_if (any (key_eq (m.manifest_id, a.action_id)) s.session.attempted_keys)
          (rejected none) s
    modify (λ s. record s { attempted = false; succeeded = false })
    λ s. handled (closing (attempt_rename m a observation) s)
