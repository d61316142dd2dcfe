-- ===== src/Execution/Manifest/Validate.antt =====
-- `_validate_manifest` of app/target_execution_manifest.py: one check for each `raise`, in its order.
pub mod Accepted
use anime_db.Base.{
  ℕ, String, Bool, not, ◌&&◌, ◌||◌, some, List, [], ◌∷◌, map, length, any, distinct, in_order, elem,
  list_eq, Result, ok, ◌>>◌, raise_if, for_each, if◌then◌else◌, ◌==◌, ltb, nat_eq, bool_eq,
  String_eq, List_eq,
}
use anime_db.Execution.Paths.{relative_locator_safe, parents, split, str_lt, stripped_nonempty}
use anime_db.Execution.Platform.{Platform, Atom}
use anime_db.Execution.Manifest.{
  ℤ, ManifestAction, CriticalityAuthority, LocatorPatch, WarningRecord, WarningAcknowledgement,
  ManifestDuplicateEvidence, GraphReport, PayloadType, ManifestPayload, ExecutionManifest,
}
use anime_db.Execution.Manifest.Keys.{id_text, id_atom, id_eq, ℤ_eq, negative, ◌+ℤ◌}
pub use anime_db.Execution.Manifest.Derived.{
  version, policy_id, planner_id, requirements, moves, same_record, action_ids, policy_of,
  dir_before, approved_field, graph_values, version_of,
}
unfoldable pub use anime_db.Execution.Manifest.Derived.{
  move_bytes, action_before, insert_dir, insert_dirs, expected_directories,
}

abbrev pub Checked : Type 0
Checked = Result String (Unit {0})

abbrev first_part : List String → String
first_part [] = ""
first_part (part ∷ _) = part

module _ (pf : Platform) where
  open pf use {
    tuple_digest, payload_digest, fold_key, casefold, is_iso, is_absolute, inventory_root_valid,
    windows_root_valid,
  }

  -- `_TECHNICAL_ROOTS.get(key)`, for the one lane that the validator asks about
  unfoldable pub import_namespace : String → Bool
  unfolding relative_locator_safe split
  import_namespace path =
      relative_locator_safe path && (fold_key (first_part (split path)) == "import")

  unfoldable pub recycled : String → Bool
  unfolding split
  recycled path = any (λ part. casefold part == "#recycle") (split path)

  abbrev pub action_key : ManifestAction → List Atom
  action_key a =
      Atom.text a.object_kind
      ∷ id_atom a.object_id
      ∷ Atom.text a.action
      ∷ Atom.text a.source
      ∷ Atom.text a.target
      ∷ []

  -- The body of `for a in p.actions`.
  unfoldable pub check_action : List String → ManifestAction → Checked
  unfolding import_namespace recycled relative_locator_safe
  check_action ids a = do
    raise_if
        (not (elem a.action ("KEEP" ∷ "MOVE" ∷ "QUARANTINE" ∷ []))
          || not (elem a.criticality ("PRIMARY" ∷ "LOW" ∷ "REVIEW" ∷ [])))
        "invalid action or criticality"
    raise_if (not (relative_locator_safe a.source) || not (relative_locator_safe a.target))
        "unsafe action locator"
    raise_if (import_namespace a.source || import_namespace a.target)
        "IMPORT is outside V6 reorganization authority"
    raise_if (recycled a.source || recycled a.target) "system excluded action"
    raise_if
        (negative a.expected_size || (negative a.expected_mtime_ns || a.criticality_reason == ""))
        "invalid source precondition"
    raise_if (not (bool_eq (a.action == "KEEP") (a.source == a.target)))
        "action and locator disagree"
    raise_if (not (a.action_id == tuple_digest (action_key a))) "action identity mismatch"
    raise_if
        (not (a.expected_source_kind == "regular")
          || not (bool_eq a.expected_target_absent (moves a)))
        "invalid action precondition"
    raise_if (not (a.failure_policy == policy_of a.criticality)) "invalid failure policy"
    raise_if (any (λ d. not (elem d ids)) a.depends_on) "unknown action dependency"

  -- The body of `for patch in p.locator_patches`.
  unfoldable pub check_patch : LocatorPatch → Checked
  unfolding import_namespace relative_locator_safe
  check_patch patch = do
    raise_if (not (approved_field patch.object_kind patch.field)) "unapproved locator field"
    raise_if (import_namespace patch.before || import_namespace patch.after)
        "IMPORT locators require explicit review outside V6 reorganization"
    raise_if
        (not (
            relative_locator_safe patch.before
            || (patch.object_kind == "video"
                && (patch.field == "root_folder" && patch.before == ".")))
          || not (relative_locator_safe patch.after))
        "unsafe locator patch"

  unfoldable pub check_warning : WarningRecord → Checked
  check_warning w =
      raise_if
        (not (
          w.warning_id
          == tuple_digest (
              Atom.text w.warning_class
              ∷ Atom.text w.object_kind
              ∷ id_atom w.object_id
              ∷ Atom.text w.source
              ∷ [])))
        "warning identity mismatch"

  unfoldable pub check_authority : List ManifestAction → CriticalityAuthority → Checked
  unfolding stripped_nonempty
  check_authority actions authority =
      raise_if
        (not (elem authority.severity ("PRIMARY" ∷ "LOW" ∷ []))
          || (not (stripped_nonempty authority.reason)
              || (not (stripped_nonempty authority.actor) || not (any matches actions))))
        "invalid criticality authority"
    where
      matches : ManifestAction → Bool
      matches a =
          a.object_kind == authority.object_kind
          && (id_eq a.object_id authority.object_id
              && (a.criticality == authority.severity && a.criticality_reason == authority.reason))

  unfoldable pub check_acknowledgement : WarningAcknowledgement → Checked
  unfolding stripped_nonempty
  check_acknowledgement ack = do
    raise_if (not (is_iso ack.acknowledged_at)) "UTC timestamp required"
    raise_if (not (stripped_nonempty ack.actor)) "acknowledgement actor required"

  unfoldable pub check_evidence : ManifestDuplicateEvidence → Checked
  check_evidence e = do
    raise_if (not (elem e.side_asset_accounting ("COMPLETE" ∷ "INCOMPLETE" ∷ "UNKNOWN" ∷ [])))
        "invalid duplicate accounting"
    raise_if (not (e.validity == "valid") || nat_eq e.secondary_video_id e.primary_video_id)
        "invalid duplicate relation"
    raise_if
        (any (λ s. not (nat_eq s.secondary_video_id e.secondary_video_id) || s.provenance == "")
          e.known_side_assets)
        "invalid duplicate side asset"

  pub check_windows_root : PayloadType → Checked
  check_windows_root (PayloadType.current (some root)) =
      raise_if (not (windows_root_valid root)) "invalid Windows root"
  check_windows_root _ = ok tt

  pub check_envelope : ExecutionManifest → Checked
  check_envelope m = do
    let p = m.payload
    raise_if (not (is_absolute p.library_root)) "library root must be absolute"
    raise_if (not (inventory_root_valid p.library_root)) "library root is unsafe"
    raise_if (not (payload_digest p == m.manifest_id)) "manifest hash mismatch"
    raise_if (not (is_iso m.created_at)) "UTC timestamp required"
    raise_if
        (not (list_eq ◌==◌ p.requirements requirements)
          || (p.filesystem_hash == "" || p.plan_hash == ""))
        "invalid planner requirements or hashes"

  pub check_actions : ManifestPayload → Checked
  unfolding check_action move_bytes action_before expected_directories import_namespace
  check_actions p = do
    raise_if (not (ℤ_eq p.logical_move_bytes (move_bytes p.actions))) "move byte count mismatch"
    raise_if (any negative (graph_values p.graph)) "invalid graph report"
    raise_if (not (in_order action_before p.actions)) "actions out of canonical order"
    raise_if (not (distinct same_record p.actions)) "duplicate action"
    raise_if (not (distinct ◌==◌ (action_ids p.actions))) "duplicate action identity"
    for_each p.actions (check_action (action_ids p.actions))
    raise_if (any import_namespace p.directories)
        "IMPORT cannot be a planned reorganization directory"
    raise_if (not (list_eq ◌==◌ p.directories (expected_directories p.actions)))
        "directory dependency mismatch"

  abbrev pub check_details : ExecutionManifest → Checked
  check_details m = do
    let p = m.payload
    raise_if
        (not (
          distinct
            (λ v w.
              v.object_kind == w.object_kind
              && (nat_eq v.object_id w.object_id && v.field == w.field))
            p.locator_patches))
        "duplicate locator patch"
    for_each p.locator_patches check_patch
    raise_if (not (distinct (λ v w. v.warning_id == w.warning_id) p.warnings)) "duplicate warning"
    for_each p.warnings check_warning
    raise_if
        (any (λ a. any (λ w. not (elem w (map (λ x. x.warning_id) p.warnings))) a.warning_ids)
          p.actions)
        "action warning identity mismatch"
    raise_if
        (not (
          distinct (λ a b. a.object_kind == b.object_kind && id_eq a.object_id b.object_id)
            p.criticality_authorities))
        "duplicate criticality authority"
    for_each p.criticality_authorities (check_authority p.actions)
    raise_if (not (distinct (λ a b. a.warning_id == b.warning_id) m.acknowledgements))
        "duplicate acknowledgement"
    for_each m.acknowledgements check_acknowledgement
    for_each p.duplicate_evidence check_evidence

  unfoldable pub validate_manifest : ExecutionManifest → Checked
  unfolding check_windows_root check_envelope check_actions check_action check_patch check_warning
      check_authority check_acknowledgement check_evidence move_bytes action_before
      expected_directories import_namespace
  validate_manifest m = do
    raise_if
        (not (nat_eq m.payload.version (version_of m.payload.payload_type))
          || (not (m.payload.policy_id == policy_id) || not (m.payload.planner_id == planner_id)))
        "unknown manifest version or policy"
    check_windows_root m.payload.payload_type
    check_envelope m
    check_actions m.payload
    check_details m
