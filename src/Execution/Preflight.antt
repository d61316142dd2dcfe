-- ===== src/Execution/Preflight.antt =====
-- `preflight_execution_manifest` of app/target_execution_manifest.py: a sealed manifest against a
-- fresh database fingerprint, a fresh inventory, a fresh plan and the evidence of the operator.
pub mod Inputs
pub mod Checks
pub mod Runtime
pub mod Namespace
pub mod Blockers
pub mod Guarantees
pub mod Ready
pub mod Cycles
pub mod GraphCycles
mod Examples
use anime_db.Base.{
  ℕ, ◌+◌, String, Bool, true, false, not, ◌&&◌, ◌||◌, Option, none, some, List, [], ◌∷◌, ◌++◌, map,
  all, any, elem, Result, ok, err, if◌then◌else◌, ◌==◌, nat_eq, option_eq, String_eq,
}
use anime_db.Execution.Paths.{concat, parents, stripped_nonempty}
use anime_db.Execution.Platform.{Platform}
use anime_db.Execution.Manifest.{
  ℤ, DatabaseFingerprint, ManifestAction, GraphReport, PayloadType, WarningRecord,
  WarningAcknowledgement, ManifestPayload, ExecutionManifest, RuntimeEvidence,
}
use anime_db.Execution.Manifest.Keys.{ℤ_eq, id_eq}
use anime_db.Execution.Manifest.Validate.{validate_manifest, moves}
use anime_db.Execution.Preflight.Inputs.{
  Kind, Entry, Snapshot, FreshPlan, Outside, when, blocks_of, inventory, sorted_set,
  starts_with_any, root_of, fingerprint_eq,
}
use anime_db.Execution.Preflight.Runtime.{runtime_checks}
use anime_db.Execution.Preflight.Namespace.{target_blockers, occupied_blockers}
pub use Checks.{
  Status, PreflightResult, result_of, stale_if, status_of, verdict, has_kind, source_symlinks,
  same_source, source_changes, acknowledges, acknowledgement_of, acknowledged, warning_blockers,
  graph_resolved, payload_blockers, namespace_prefixes, directory_prefixes, stale_prefixes,
  with_prefix, plan_checks, error, not_ready, stale, ready_for_execution,
}

module _ (pf : Platform) (out : Outside) where
  -- All checks passed up to the last: what is left decides between NOT_READY and READY.
  unfoldable pub conclude :
      ExecutionManifest
      → RuntimeEvidence
      → FreshPlan
      → List (String × String)
      → List String
      → Bool
      → PreflightResult
  conclude m runtime fresh checks found matches =
      let before =
        found
        ++ (when (not matches) "manifest_projection_mismatch"
            ++ (payload_blockers m.payload ++ warning_blockers m)) in
      let missing = runtime_checks pf out m runtime in
      let blockers = before ++ missing in
      result_of (status_of blockers) (sorted_set blockers)
        (checks
          ++ (("manifest_projection", if matches then "MATCH" else "MISMATCH")
              ∷ ("graph", out.graph_text m.payload.graph)
              ∷ (
                "warning_acknowledgements",
                verdict (
                    any
                      (starts_with_any
                        ("warning_unacknowledged:" ∷ "unknown_warning_acknowledgement" ∷ []))
                      before),
              )
              ∷ ("runtime_requirements", elim missing [ [] ↦ "MATCH" | _ ∷ _ ↦ "BLOCKED" ])
              ∷ []))
        (some fresh) m

  -- The reference manifest of the fresh plan.
  unfoldable pub compare_reference :
      ExecutionManifest
      → RuntimeEvidence
      → FreshPlan
      → List (String × String)
      → List String
      → Result String Bool
      → PreflightResult
  unfolding conclude
  compare_reference m runtime fresh checks found (err message) =
      result_of error (concat "reference_projection_error:" message ∷ []) checks (some fresh) m
  compare_reference m runtime fresh checks found (ok matches) =
      conclude m runtime fresh checks found matches

  -- The checks against the fresh plan.
  unfoldable pub compare_plan :
      ExecutionManifest → Snapshot → RuntimeEvidence → Result String FreshPlan → PreflightResult
  unfolding compare_reference
  compare_plan m snapshot runtime (err kind) =
      result_of error (concat "planner_error:" kind ∷ []) [] none m
  compare_plan m snapshot runtime (ok fresh) =
      let p = m.payload in
      let found =
        p.generation_diagnostics
        ++ (blocks_of (target_blockers pf p snapshot) p.actions ++ occupied_blockers p snapshot) in
      let checks = plan_checks p fresh found in
      if not (fresh.plan_hash == p.plan_hash)
      then result_of stale (sorted_set ("plan_hash_changed" ∷ with_prefix stale_prefixes found))
          checks (some fresh) m
      else compare_reference m runtime fresh checks found (out.reference_matches snapshot fresh m)

  -- The checks of a valid manifest against the fingerprint and the inventory.
  unfoldable pub compare_inputs :
      ExecutionManifest
      → Snapshot
      → DatabaseFingerprint
      → RuntimeEvidence
      → Option String
      → PreflightResult
  unfolding compare_plan
  compare_inputs m snapshot db runtime root =
      let p = m.payload in
      let changed =
        when (not (fingerprint_eq db p.db_fingerprint)) "database_fingerprint_changed"
        ++ when (not (snapshot.root == p.library_root)) "library_root_changed" in
      let symlinks = blocks_of (source_symlinks snapshot) p.actions in
      let moved = blocks_of (source_changes snapshot) p.actions in
      stale_if m changed (
        stale_if m symlinks
          (stale_if m moved (compare_plan m snapshot runtime (out.plan_library snapshot root))))

  -- The sealed Windows root; the caller may give one of its own, which must be the same.
  unfoldable pub compare_root :
      ExecutionManifest
      → Snapshot
      → DatabaseFingerprint
      → RuntimeEvidence
      → Option (Option String)
      → PayloadType
      → PreflightResult
  unfolding compare_inputs
  compare_root m snapshot db runtime given PayloadType.legacy =
      result_of not_ready ("legacy_windows_binding_unavailable" ∷ []) [] none m
  compare_root m snapshot db runtime given (PayloadType.current root) =
      if not (option_eq (option_eq ◌==◌) given none)
        && not (option_eq (option_eq ◌==◌) given (some root))
      then result_of not_ready ("windows_root_mismatch" ∷ []) [] none m
      else compare_inputs m snapshot db runtime root

  unfoldable pub compare_valid :
      ExecutionManifest
      → Snapshot
      → DatabaseFingerprint
      → RuntimeEvidence
      → Option (Option String)
      → Result String (Unit {0})
      → PreflightResult
  unfolding compare_root
  compare_valid m snapshot db runtime given (err message) =
      result_of error (concat "invalid_manifest:" message ∷ []) [] none m
  compare_valid m snapshot db runtime given (ok _) =
      compare_root m snapshot db runtime given m.payload.payload_type

  -- `preflight_execution_manifest`
  unfoldable pub preflight :
      ExecutionManifest
      → Snapshot
      → DatabaseFingerprint
      → RuntimeEvidence
      → Option (Option String)
      → PreflightResult
  unfolding compare_valid
  preflight m snapshot db runtime given =
      compare_valid m snapshot db runtime given (validate_manifest pf m)
