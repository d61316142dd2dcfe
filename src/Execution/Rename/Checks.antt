-- ===== src/Execution/Rename/Checks.antt =====
-- The checks around a rename in app/target_execution_filesystem.py: the binding of an action to the
-- manifest, the root, parents, descriptors and the source file.
use anime_db.Base.{
  ℕ, String, Bool, true, false, not, ◌&&◌, ◌||◌, Option, none, some, List, [], ◌∷◌, any, elem,
  is_some, Result, ok, err, nat_eq, ◌==◌, ℕ_eq, String_eq, list_eq,
}
use anime_db.Base.Effects.{◌>>=◌, ◌>>◌, pure, raise, raise_if}
use anime_db.Execution.Paths.{split, has_char, relative_locator_safe}
use anime_db.Execution.Platform.{Platform}
use anime_db.Execution.Manifest.{ManifestAction, ExecutionManifest}
use anime_db.Execution.Manifest.Keys.{ℤ_eq, id_eq}
use anime_db.Execution.Manifest.Validate.{validate_manifest, import_namespace, recycled}
use anime_db.Execution.Rename.Files.{
  Location, Node, Act, step, lookup, rejected, os_error, value_error, enoent, eexist, exdev,
}

-- What the host shows of the root: each test of `_check_root`.
pub record RootView : Type 0 where
  pub mounts_same : Bool
  pub held_same : Bool
  pub secure : Bool
  pub media_mount : Bool
  pub reopened_same : Bool

-- What does not change during a session: the inodes, the directory that parts lead to if each part
-- opens as a directory of ours on the mount, the root, and whether a checkpoint of this thread is open.
pub record Host : Type 0 where
  pub stat : ℕ → Node
  pub directory : List String → Option ℕ
  pub root : String
  pub mount_identity : String
  pub view : RootView
  pub checkpoint : Bool

abbrev pub texts_eq : List String → List String → Bool
texts_eq = list_eq ◌==◌

abbrev pub bool_same : Bool → Bool → Bool
bool_same true b = b
bool_same false b = not b

-- `==` of two actions
abbrev pub action_eq : ManifestAction → ManifestAction → Bool
action_eq a b =
    a.action_id == b.action_id
    && (a.object_kind == b.object_kind
        && (id_eq a.object_id b.object_id
            && (a.action == b.action
                && (a.source == b.source
                    && (a.target == b.target
                        && (ℤ_eq a.expected_size b.expected_size
                            && (ℤ_eq a.expected_mtime_ns b.expected_mtime_ns
                                && (a.expected_source_kind == b.expected_source_kind
                                    && (bool_same a.expected_target_absent b.expected_target_absent
                                        && (a.criticality == b.criticality
                                            && (a.criticality_reason == b.criticality_reason
                                                && (texts_eq a.warning_ids b.warning_ids
                                                    && (texts_eq a.depends_on b.depends_on
                                                        && a.failure_policy
                                                          == b.failure_policy)))))))))))))

abbrev pub file_name : List String → String
file_name [] = ""
file_name (part ∷ []) = part
file_name (part ∷ p ∷ rest) = file_name (p ∷ rest)

-- `parts[:-1]`
abbrev pub directories_of : List String → List String
directories_of [] = []
directories_of (part ∷ []) = []
directories_of (part ∷ p ∷ rest) = part ∷ directories_of (p ∷ rest)

abbrev pub nonempty_texts : List String → Bool
nonempty_texts [] = false
nonempty_texts (t ∷ ts) = true

module _ (pf : Platform) (host : Host) where
  -- `_locator`
  unfoldable pub locator : String → Act (List String)
  unfolding relative_locator_safe has_char recycled split
  locator raw = do
    raise_if (not (relative_locator_safe raw) || (has_char 0 raw || recycled pf raw))
        (rejected none)
    pure (split raw)

  abbrev pub is_ok : Result String (Unit {0}) → Bool
  is_ok (ok _) = true
  is_ok (err e) = false

  -- `_validate_scratch_binding`
  unfoldable pub validate_scratch_binding : ExecutionManifest → ManifestAction → Act (Unit {0})
  unfolding locator validate_manifest import_namespace
  validate_scratch_binding m a = do
    raise_if
        (not (m.payload.library_root == host.root)
          || not (m.payload.mount_identity == host.mount_identity))
        (rejected none)
    raise_if (not (is_ok (validate_manifest pf m))) (rejected none)
    raise_if (not (any (action_eq a) m.payload.actions)) (rejected none)
    raise_if (import_namespace pf a.source || import_namespace pf a.target) (rejected none)
    raise_if
        (not (elem a.action ("KEEP" ∷ "MOVE" ∷ "QUARANTINE" ∷ [])) || a.criticality == "REVIEW")
        (rejected none)
    raise_if (nonempty_texts m.payload.generation_diagnostics) (rejected none)
    locator a.source
    locator a.target
    pure tt

  -- `_validate_scratch_action`
  unfoldable pub validate_scratch_action : ExecutionManifest → ManifestAction → Act (Unit {0})
  unfolding validate_scratch_binding
  validate_scratch_action m a = do
    validate_scratch_binding m a
    raise_if (nonempty_texts a.depends_on) (rejected none)

  -- `_check_root`
  unfoldable pub check_root : Bool → Act (Unit {0})
  unfolding step
  check_root fresh = do
    step
    raise_if ((fresh || not host.checkpoint) && not host.view.mounts_same) (rejected none)
    raise_if (not host.view.held_same) (rejected none)
    raise_if (not host.view.secure) (rejected none)
    raise_if ((fresh || not host.checkpoint) && not host.view.media_mount) value_error
    raise_if ((fresh || not host.checkpoint) && not host.view.reopened_same) (rejected none)

  abbrev pub opened : Option ℕ → Act ℕ
  opened none = raise (os_error enoent)
  opened (some id) = pure id

  -- `_parent`
  unfoldable pub parent : List String → Act ℕ
  unfolding step
  parent parts = do step; opened (host.directory (directories_of parts))

  -- `_parent_binding`
  unfoldable pub parent_binding : List String → ℕ → Act (Unit {0})
  unfolding parent
  parent_binding parts held = do
    current ← parent parts
    raise_if (not (nat_eq current held)) (rejected none)

  -- `os.stat(name, dir_fd=parent, follow_symlinks=False)`, or opening the name: its inode.
  unfoldable pub named : Location → Act ℕ
  unfolding step
  named l s = (step >> λ s'. opened (lookup l s'.disk.entries) s') s

  -- `_check_fd`
  unfoldable pub check_fd : ℕ → Act (Unit {0})
  unfolding step
  check_fd fd = do
    step
    raise_if (not (host.stat fd).on_device) (rejected (some exdev))
    raise_if (not (host.stat fd).on_mount) (rejected none)

  abbrev pub differs_from : ℕ → Option ℕ → Bool
  differs_from fd none = false
  differs_from fd (some before) = not (nat_eq fd before)

  -- `_check_source`; `expected` is the inode that the file had before.
  unfoldable pub check_source : ℕ → Location → ManifestAction → Option ℕ → Act (Unit {0})
  unfolding named
  check_source fd l a expected = do
    inode ← named l
    raise_if
        (not (host.stat fd).regular
          || (not (nat_eq (host.stat fd).nlink 1)
              || (not (host.stat fd).own
                  || (not (nat_eq fd inode)
                      || (not (ℤ_eq (host.stat fd).size a.expected_size)
                          || (not (ℤ_eq (host.stat fd).mtime_ns a.expected_mtime_ns)
                              || differs_from fd expected))))))
        (rejected none)

  -- `_absent`
  unfoldable pub absent : Location → Act (Unit {0})
  unfolding step
  absent l s =
      (step >> λ s'. raise_if (is_some (lookup l s'.disk.entries)) (rejected (some eexist)) s') s
