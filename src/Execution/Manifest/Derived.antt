-- ===== src/Execution/Manifest/Derived.antt =====
-- The constants of app/target_execution_manifest.py, and what its validator derives from the actions.
use anime_db.Base.{
  ℕ, String, Bool, not, ◌&&◌, ◌||◌, List, [], ◌∷◌, map, length, elem, if◌then◌else◌, ◌==◌, ltb,
  nat_eq, String_eq, List_eq,
}
use anime_db.Execution.Paths.{parents, split, str_lt}
use anime_db.Execution.Manifest.{ℤ, ManifestAction, GraphReport, PayloadType}
use anime_db.Execution.Manifest.Keys.{id_text, id_eq, ◌+ℤ◌}

abbrev pub version : ℕ
version = 2

abbrev pub policy_id : String
policy_id = "v6-execution-preflight-1"

abbrev pub planner_id : String
planner_id = "target-planner-post-state-1"

abbrev pub requirements : List String
requirements =
    "scanner_paused_through_verification" ∷ "inventory_writer_paused_through_verification"
    ∷ "snapshot_bound_to_manifest" ∷ "db_backup_bound_to_manifest" ∷ "actual_windows_root_checked"
    ∷ "mount_read_write_checked" ∷ "safe_write_capability_proven"
    ∷ "rename_noreplace_capability_proven" ∷ []

abbrev pub moves : ManifestAction → Bool
moves a = not (a.action == "KEEP")

-- sum(a.expected_size for a in p.actions if a.action != 'KEEP')
unfoldable pub move_bytes : List ManifestAction → ℤ
move_bytes [] = ℤ.pos 0
move_bytes (a ∷ rest) =
    let total = move_bytes rest in if moves a then a.expected_size +ℤ total else total

-- (a.source, a.object_kind, str(a.object_id)), as Python orders tuples
unfoldable pub action_before : ManifestAction → ManifestAction → Bool
unfolding str_lt id_text
action_before a b =
    str_lt a.source b.source
    || (a.source == b.source
        && (str_lt a.object_kind b.object_kind
            || (a.object_kind == b.object_kind
                && str_lt (id_text a.object_id) (id_text b.object_id))))

abbrev pub same_record : ManifestAction → ManifestAction → Bool
same_record a b =
    a.object_kind == b.object_kind && (id_eq a.object_id b.object_id && a.source == b.source)

abbrev pub action_ids : List ManifestAction → List String
action_ids = map (λ a. a.action_id)

abbrev pub policy_of : String → String
policy_of criticality =
    if criticality == "PRIMARY"
    then "STOP"
    else if criticality == "LOW"
    then "CONTINUE_IF_SAFE"
    else "REVIEW"

-- A directory set sorted by depth and text, without repetitions.
pub dir_before : String → String → Bool
unfolding str_lt split
dir_before a b =
    ltb (length (split a)) (length (split b))
    || (nat_eq (length (split a)) (length (split b)) && str_lt a b)

unfoldable pub insert_dir : String → List String → List String
unfolding dir_before
insert_dir d [] = d ∷ []
insert_dir d (e ∷ rest) =
    let later = insert_dir d rest in
    if d == e then e ∷ rest else if dir_before d e then d ∷ e ∷ rest else e ∷ later

unfoldable pub insert_dirs : List String → List String → List String
unfolding insert_dir
insert_dirs [] known = known
insert_dirs (d ∷ ds) known = insert_dir d (insert_dirs ds known)

unfoldable pub expected_directories : List ManifestAction → List String
unfolding insert_dirs parents
expected_directories [] = []
expected_directories (a ∷ rest) = insert_dirs (parents a.target) (expected_directories rest)

abbrev pub approved_field : String → String → Bool
approved_field kind field =
    if kind == "video"
    then elem field ("relative_path" ∷ "root_folder" ∷ [])
    else if kind == "collection" || kind == "title"
    then field == "relative_root_path"
    else (kind == "subtitle" || kind == "unmatched_subtitle") && field == "relative_path"

abbrev pub graph_values : GraphReport → List ℤ
graph_values g =
    g.source_target_chains ∷ g.cycles ∷ g.swaps ∷ g.occupied_targets ∷ g.case_only ∷ g.unicode_only
    ∷ g.ancestor_interactions ∷ []

-- The version whose payloads have this class.
abbrev pub version_of : PayloadType → ℕ
version_of PayloadType.legacy = 1
version_of (PayloadType.current root) = version
