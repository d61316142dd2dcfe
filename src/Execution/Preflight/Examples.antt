-- ===== src/Execution/Preflight/Examples.antt =====
-- Tests: a manifest that is valid, a preflight that ends ready, and walks along moves.
use anime_db.Base.{
  String, ◌≡◌, ◌≢◌, refl, ◌⊎◌, true, false, none, some, [], ◌∷◌, ok, elem, String_eq,
}
use anime_db.Execution.Manifest.{
  ℤ, DatabaseFingerprint, PayloadType, ExecutionManifest, RuntimeEvidence,
}
use anime_db.Execution.Manifest.Validate.{validate_manifest}
use anime_db.Execution.Manifest.Validate.Accepted.{Accepted, validate_manifest-Accepted}
use anime_db.Execution.Preflight.Inputs.{Kind, Entry, Snapshot, FreshPlan, Outside}
use anime_db.Execution.Preflight.Namespace.{Moves, target_of, walk}
use anime_db.Execution.Preflight.Cycles.{Reaches, walk-Ended}
use anime_db.Execution.Preflight.GraphCycles.{Finished, trace_ends, count_cycles-cycle}
use anime_db.Execution.Manifest.Graph.{Tally, trace, count_cycles}
use anime_db.Execution.Journal.Examples.Scenario.{host, manifest}

-- The scenario's manifest, bound to a Windows root and a known post state.
abbrev sealed : ExecutionManifest
sealed = record manifest {
  payload = record manifest.payload {
    payload_type = PayloadType.current (some "C:/anime");
    expected_post_hash = some "post";
  };
}

abbrev file : String → Entry
file path = record {
  relative_path = path;
  kind = Kind.regular;
  size = some (ℤ.pos 10);
  mtime_ns = some (ℤ.pos 0);
}

abbrev snapshot : Snapshot
snapshot = record {
  root = "/library";
  entries = file "a/extra" ∷ file "c/film" ∷ file "e/subtitle" ∷ [];
}

abbrev db : DatabaseFingerprint
db = record { sha256 = "db"; size = 1; mtime_ns = 1; user_version = 7 }

abbrev fresh : FreshPlan
fresh = record { plan_hash = "plan"; filesystem_hash = some "files" }

abbrev outside : Outside
outside = record {
  not_before = λ a b. true;
  backup = λ path. record {
    inside_repository_or_library = false;
    regular = true;
    nlink = 1;
    fingerprint = some db;
  };
  within_budget = λ root target. true;
  graph_text = λ g. "graph";
  plan_library = λ s root. ok fresh;
  reference_matches = λ s plan m. ok true;
}

abbrev evidence : RuntimeEvidence
evidence = record {
  scanner_paused_through_verification = true;
  inventory_writer_paused_through_verification = true;
  snapshot_id = some "snapshot";
  snapshot_at = some "2026-01-02T00:00:00Z";
  snapshot_manifest_id = some "manifest";
  snapshot_capable = true;
  db_backup_path = some "/backup/db";
  db_backup_sha256 = some "db";
  db_backup_size = some 1;
  db_backup_user_version = some 7;
  db_backup_manifest_id = some "manifest";
  actual_windows_root = some "C:/anime";
  mount_read_write_checked = true;
  mount_read_only_now = some false;
  safe_write_capability_proven = true;
  rename_noreplace_capability_proven = true;
  mount_identity = some "mount";
  free_bytes = some 1000;
}

accepted : validate_manifest host sealed ≡ ok tt
unfolding validate_manifest
accepted = refl

validate_manifest-Accepted_example : Accepted host sealed
validate_manifest-Accepted_example = validate_manifest-Accepted host sealed accepted

-- Two files that change places, and a third that moves to the first.
abbrev swap : Moves
swap = ("a", "b") ∷ ("b", "a") ∷ ("c", "a") ∷ []

walk-Ended_example :
    (target_of swap (walk swap "c").1 ≡ none)
    ⊎ ((elem (walk swap "c").1 (walk swap "c").0 ≡ true)
        × Reaches swap (walk swap "c").1 (walk swap "c").1)
walk-Ended_example = walk-Ended swap "c"

abbrev tally : Tally
tally = count_cycles swap (record { cycles = 0; swaps = 0; seen = [] }) swap

one_swap : tally.swaps ≡ 1
unfolding count_cycles
one_swap = refl

cycle_counted : tally.cycles ≢ 0
unfolding count_cycles
cycle_counted h = cc

count_cycles-cycle_example : (node : String) × Reaches swap node node
count_cycles-cycle_example = count_cycles-cycle swap cycle_counted

trace_ends_example : Finished swap ("a" ∷ []) (trace 4 swap ("a" ∷ []) [] "c")
trace_ends_example = trace_ends swap ("a" ∷ []) "c"
