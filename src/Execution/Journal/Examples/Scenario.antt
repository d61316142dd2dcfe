-- ===== src/Execution/Journal/Examples/Scenario.antt =====
-- A manifest of three moves and a run of it: the expendable first action fails at once, the second
-- completes, and the third, which depends on the second, starts.
use anime_db.Base.{ℕ, String, ◌≡◌, refl, true, none, some, List, [], ◌∷◌, ok}
use anime_db.Execution.Platform.{Platform, Atom}
use anime_db.Execution.Manifest.{
  ObjectId, ℤ, State, pending, fs_applied, fs_verified, db_reconciled, complete, failed,
  ManifestAction, PayloadType, ExecutionManifest, JournalEntry,
}
use anime_db.Execution.Manifest.Validate.{
  version, policy_id, planner_id, requirements, validate_manifest,
}
use anime_db.Execution.Journal.{validate_entry, can_continue_after_failure}
use anime_db.Execution.Journal.Lifecycle
use anime_db.Execution.Journal.Lifecycle.{Admitted, empty}

-- Stands in for a hash of an action: its source, which no two actions share.
abbrev source_of : List Atom → String
source_of (kind ∷ id ∷ action ∷ Atom.text source ∷ rest) = source
source_of _ = "none"

abbrev pub host : Platform
host = record {
  tuple_digest = source_of;
  payload_digest = λ p. "manifest";
  fold_key = λ s. s;
  casefold = λ s. s;
  nfc = λ s. s;
  is_iso = λ s. true;
  is_absolute = λ s. true;
  inventory_root_valid = λ s. true;
  windows_root_valid = λ s. true;
}

abbrev move : ℕ → String → String → String → String → List String → ManifestAction
move id source target criticality policy depends_on = record {
  action_id = source;
  object_kind = "video";
  object_id = ObjectId.num id;
  action = "MOVE";
  source = source;
  target = target;
  expected_size = ℤ.pos 10;
  expected_mtime_ns = ℤ.pos 0;
  expected_source_kind = "regular";
  expected_target_absent = true;
  criticality = criticality;
  criticality_reason = "reason";
  warning_ids = [];
  depends_on = depends_on;
  failure_policy = policy;
}

abbrev pub extra : ManifestAction
extra = move 1 "a/extra" "b/extra" "LOW" "CONTINUE_IF_SAFE" []

abbrev pub film : ManifestAction
film = move 2 "c/film" "d/film" "PRIMARY" "STOP" []

abbrev pub subtitle : ManifestAction
subtitle = move 3 "e/subtitle" "f/subtitle" "PRIMARY" "STOP" ("c/film" ∷ [])

abbrev pub manifest : ExecutionManifest
manifest = record {
  payload = record {
    payload_type = PayloadType.current none;
    version = version;
    policy_id = policy_id;
    planner_id = planner_id;
    plan_hash = "plan";
    db_fingerprint = record { sha256 = "db"; size = 1; mtime_ns = 1; user_version = 7 };
    filesystem_hash = "files";
    library_root = "/library";
    mount_identity = "mount";
    actions = extra ∷ film ∷ subtitle ∷ [];
    directories = "b" ∷ "d" ∷ "f" ∷ [];
    graph = record {
      source_target_chains = ℤ.pos 0;
      cycles = ℤ.pos 0;
      swaps = ℤ.pos 0;
      occupied_targets = ℤ.pos 0;
      case_only = ℤ.pos 0;
      unicode_only = ℤ.pos 0;
      ancestor_interactions = ℤ.pos 0;
    };
    locator_patches = [];
    warnings = [];
    criticality_authorities = [];
    duplicate_evidence = [];
    requirements = requirements;
    counts = [];
    logical_move_bytes = ℤ.pos 30;
    expected_post_hash = none;
    generation_diagnostics = [];
  };
  manifest_id = "manifest";
  created_at = "2026-01-01T00:00:00Z";
  acknowledgements = [];
}

pub manifest_valid : validate_manifest host manifest ≡ ok tt
unfolding validate_manifest
manifest_valid = refl

abbrev pub entry : String → ℕ → State → JournalEntry
entry action_id action_index state = record {
  manifest_id = "manifest";
  action_id = action_id;
  action_index = action_index;
  state = state;
  failure_code = none;
  source_intact = none;
  target_absent = none;
  primary_dependencies_clear = none;
  failure_journaled = none;
}

abbrev pub extra_failed : JournalEntry
extra_failed = record (entry "a/extra" 0 failed) {
  failure_code = some "EIO";
  source_intact = some true;
  target_absent = some true;
  primary_dependencies_clear = some true;
  failure_journaled = some true;
}

abbrev pub film_at : State → JournalEntry
film_at = entry "c/film" 1

abbrev pub extra_history : List JournalEntry
extra_history = extra_failed ∷ entry "a/extra" 0 pending ∷ []

abbrev pub film_history : List JournalEntry
film_history =
    film_at complete
    ∷ film_at db_reconciled
    ∷ film_at fs_verified
    ∷ film_at fs_applied
    ∷ film_at pending
    ∷ extra_history

abbrev pub subtitle_pending : JournalEntry
subtitle_pending = entry "e/subtitle" 2 pending

module _ where
  pub extra_admitted : Admitted host manifest extra_history []
  unfolding validate_entry validate_manifest can_continue_after_failure
  extra_admitted = Lifecycle.append (Lifecycle.append empty _ refl) extra_failed refl

  pub film_admitted : Admitted host manifest film_history ("c/film" ∷ [])
  unfolding validate_entry validate_manifest can_continue_after_failure
  film_admitted =
      Lifecycle.append
        (Lifecycle.append
          (Lifecycle.append
            (Lifecycle.append (Lifecycle.append extra_admitted (film_at pending) refl)
              (film_at fs_applied) refl)
            (film_at fs_verified) refl)
          (film_at db_reconciled) refl)
        (film_at complete) refl

  pub run_admitted : Admitted host manifest (subtitle_pending ∷ film_history) ("c/film" ∷ [])
  unfolding validate_entry validate_manifest can_continue_after_failure
  run_admitted = Lifecycle.append film_admitted subtitle_pending refl
