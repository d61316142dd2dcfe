-- ===== src/Execution/Preflight/Ready.antt =====
-- What the verdict READY_FOR_EXECUTION guarantees.
use anime_db.Base.{String, ◌≡◌, true, [], Result, ok, ◌==◌, String_eq}
use anime_db.Execution.Platform.{Platform}
use anime_db.Execution.Manifest.{DatabaseFingerprint, ExecutionManifest, RuntimeEvidence}
use anime_db.Execution.Preflight.Inputs.{Snapshot, FreshPlan, Outside, blocks_of}
use anime_db.Execution.Preflight.Namespace.{target_blockers, occupied_blockers}
use anime_db.Execution.Preflight.Guarantees.{Evidence, Decided}

module _ (pf : Platform) (out : Outside) (m : ExecutionManifest) (snapshot : Snapshot)
    (db : DatabaseFingerprint) (r : RuntimeEvidence) where
  -- What the checks against the fresh plan guarantee.
  abbrev PlanReady : Result String FreshPlan → Type 0
  PlanReady planned =
      (fresh : FreshPlan) × (planned ≡ ok fresh)
      × ((fresh.plan_hash == m.payload.plan_hash) ≡ true)
      × (out.reference_matches snapshot fresh m ≡ ok true)
      × (blocks_of (target_blockers pf m.payload snapshot) m.payload.actions ≡ [])
      × (occupied_blockers m.payload snapshot ≡ [])
      × Decided m
      × Evidence pf out m r
