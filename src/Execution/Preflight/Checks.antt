-- ===== src/Execution/Preflight/Checks.antt =====
-- The single checks of a preflight, and its result.
use anime_db.Base.{
  String, Bool, false, not, ◌&&◌, Option, none, some, List, [], ◌∷◌, ◌++◌, map, any, elem,
  if◌then◌else◌, ◌==◌, nat_eq, option_eq, String_eq,
}
use anime_db.Execution.Paths.{concat, parents, stripped_nonempty}
use anime_db.Execution.Manifest.{
  ℤ, ManifestAction, GraphReport, WarningRecord, WarningAcknowledgement, ManifestPayload,
  ExecutionManifest,
}
use anime_db.Execution.Manifest.Keys.{ℤ_eq, id_eq}
use anime_db.Execution.Preflight.Inputs.{
  Kind_eq, Kind, Entry, Snapshot, FreshPlan, when, blocks_of, inventory, sorted_set,
  starts_with_any,
}

pub data Status : Type 0 where
  error not_ready stale ready_for_execution : Status

-- The result; the hashes are those of the fresh plan, where there is one.
pub record PreflightResult : Type 0 where
  pub status : Status
  pub blockers : List String
  pub checks : List (String × String)
  pub manifest_id : String
  pub plan : Option FreshPlan
  pub logical_move_bytes : ℤ

abbrev pub result_of :
    Status
    → List String
    → List (String × String)
    → Option FreshPlan
    → ExecutionManifest
    → PreflightResult
result_of status blockers checks plan m = record {
  status = status;
  blockers = blockers;
  checks = checks;
  manifest_id = m.manifest_id;
  plan = plan;
  logical_move_bytes = m.payload.logical_move_bytes;
}

-- `if diagnostics: return PreflightResult('STALE', ...)`
abbrev pub stale_if : ExecutionManifest → List String → PreflightResult → PreflightResult
stale_if m [] rest = rest
stale_if m (d ∷ ds) rest = result_of stale (sorted_set (d ∷ ds)) [] none m

abbrev pub status_of : List String → Status
status_of [] = ready_for_execution
status_of (b ∷ bs) = not_ready

abbrev pub verdict : Bool → String
verdict blocked = if blocked then "BLOCKED" else "MATCH"

-- `entry is not None and entry.kind == kind`
abbrev pub has_kind : Kind → Option Entry → Bool
has_kind kind none = false
has_kind kind (some entry) = Kind_eq entry.kind kind

abbrev pub source_symlinks : Snapshot → ManifestAction → List String
source_symlinks snapshot a =
    blocks_of
      (λ path.
        when (has_kind Kind.symlink (inventory snapshot path)) (concat "source_symlink:" path))
      (a.source ∷ parents a.source)

-- The source is in the inventory as it was sealed.
abbrev pub same_source : ManifestAction → Option Entry → Bool
same_source a none = false
same_source a (some entry) =
    Kind_eq entry.kind Kind.regular
    && (option_eq ℤ_eq entry.size (some a.expected_size)
        && option_eq ℤ_eq entry.mtime_ns (some a.expected_mtime_ns))

abbrev pub source_changes : Snapshot → ManifestAction → List String
source_changes snapshot a =
    when (not (same_source a (inventory snapshot a.source))) (concat "source_changed:" a.source)

abbrev pub acknowledges : WarningRecord → WarningAcknowledgement → Bool
acknowledges w ack =
    ack.warning_class == w.warning_class
    && (ack.object_kind == w.object_kind
        && (id_eq ack.object_id w.object_id && stripped_nonempty ack.actor))

-- `{a.warning_id: a for a in acknowledgements}.get(id)`: the last one counts.
abbrev pub acknowledgement_of : String → List WarningAcknowledgement → Option WarningAcknowledgement
acknowledgement_of id [] = none
acknowledgement_of id (ack ∷ rest) = elim (acknowledgement_of id rest) [
  | some later ↦ some later
  | none ↦ if ack.warning_id == id then some ack else none
]

abbrev pub acknowledged : WarningRecord → Option WarningAcknowledgement → Bool
acknowledged w none = false
acknowledged w (some ack) = acknowledges w ack

abbrev pub warning_blockers : ExecutionManifest → List String
warning_blockers m =
    blocks_of
      (λ w.
        when (not (acknowledged w (acknowledgement_of w.warning_id m.acknowledgements)))
          (concat "warning_unacknowledged:" w.warning_id))
      m.payload.warnings
    ++ when
        (any (λ ack. not (elem ack.warning_id (map (λ w. w.warning_id) m.payload.warnings)))
          m.acknowledgements)
        "unknown_warning_acknowledgement"

abbrev zero_count : ℤ → Bool
zero_count (ℤ.pos n) = nat_eq n 0
zero_count (ℤ.negsuc n) = false

-- No cycle, swap, occupied target or collision that staging would have to resolve.
abbrev pub graph_resolved : GraphReport → Bool
graph_resolved g =
    zero_count g.cycles
    && (zero_count g.swaps
        && (zero_count g.occupied_targets
            && (zero_count g.ancestor_interactions
                && (zero_count g.case_only && zero_count g.unicode_only))))

abbrev pub payload_blockers : ManifestPayload → List String
payload_blockers p =
    when (not (graph_resolved p.graph)) "unresolved_move_graph"
    ++ (when (any (λ a. a.criticality == "REVIEW") p.actions) "criticality_review_required"
        ++ when (option_eq ◌==◌ p.expected_post_hash none) "expected_post_state_unavailable")

abbrev pub namespace_prefixes : List String
namespace_prefixes =
    "target_occupied:" ∷ "target_symlink:" ∷ "system_excluded_target:"
    ∷ "occupied_by_source_requires_staging:" ∷ "move_cycle:" ∷ []

abbrev pub directory_prefixes : List String
directory_prefixes = "target_parent_not_directory:" ∷ "unplanned_target_directory:" ∷ []

-- The blockers that a stale result keeps visible.
abbrev pub stale_prefixes : List String
stale_prefixes = "target_occupied:" ∷ "target_symlink:" ∷ "target_parent_not_directory:" ∷ []

abbrev pub with_prefix : List String → List String → List String
with_prefix prefixes = blocks_of (λ x. when (starts_with_any prefixes x) x)

-- The checks that precede the comparison of the plan's hash.
abbrev pub plan_checks : ManifestPayload → FreshPlan → List String → List (String × String)
plan_checks p fresh found =
    ("database_fingerprint", "MATCH")
    ∷ ("source_preconditions", "MATCH")
    ∷ (
      "filesystem_snapshot",
      if option_eq ◌==◌ fresh.filesystem_hash (some p.filesystem_hash) then "MATCH" else "CHANGED",
    )
    ∷ ("target_namespace", verdict (any (starts_with_any namespace_prefixes) found))
    ∷ ("directory_dependencies", verdict (any (starts_with_any directory_prefixes) found))
    ∷ []
