-- ===== src/Execution/Preflight/Guarantees.antt =====
-- What a preflight guarantees, part by part.
use anime_db.Base.{
  String, ◌≡◌, refl, ap, Bool, true, false, not, ◌&&◌, ◌||◌, Option, none, some, List, [], ◌∷◌, All,
  any, elem, ok, if◌then◌else◌, ◌==◌, String_eq, if_ind, or_split, and_both, not-false, inl, inr,
  ◌⊎◌, option_eq, is_some,
}
use anime_db.Execution.Paths.{concat, relative_locator_safe, parents}
use anime_db.Execution.Platform.{Platform}
use anime_db.Execution.Manifest.{
  DatabaseFingerprint, ManifestAction, PayloadType, ExecutionManifest, RuntimeEvidence,
}
use anime_db.Execution.Manifest.Validate.{validate_manifest, moves, recycled}
use anime_db.Execution.Preflight.Inputs.{
  Kind, Kind_eq, Entry, Snapshot, FreshPlan, Outside, when, blocks_of, inventory, fingerprint_eq,
  root_of,
}
use anime_db.Execution.Preflight.Runtime.{
  runtime_lists, runtime_checks, bound_snapshot, bound_backup, backup_path, client_root,
  path_budgets,
}
use anime_db.Execution.Preflight.Namespace.{
  target_blockers, occupied_blockers, taken, target_entry, sources_of, staging_blocker, moves_of,
}
use anime_db.Execution.Preflight.{
  ready_for_execution, conclude, has_kind, same_source, source_symlinks, acknowledged,
  acknowledgement_of, warning_blockers, payload_blockers, graph_resolved,
}
use anime_db.Execution.Preflight.Blockers.{
  append_empty, when_empty, blocks_of-empty, status_of-empty, read_only_state-empty, when_off,
  All-both, blocks_of-when, blocks_of-when-not,
}

-- The operator's evidence of the maintenance window.
pub record Evidence (pf : Platform) (out : Outside) (m : ExecutionManifest) (r : RuntimeEvidence)
    : Type 0 where
  pub scanner : r.scanner_paused_through_verification ≡ true
  pub inventory_writer : r.inventory_writer_paused_through_verification ≡ true
  pub snapshot : bound_snapshot pf out m r ≡ true
  pub backup : bound_backup pf out m r ≡ true
  pub backup_file : backup_path pf out m.payload.db_fingerprint r.db_backup_path ≡ []
  pub sealed_root : is_some (root_of m.payload.payload_type) ≡ true
  pub client_root : client_root pf out (root_of m.payload.payload_type) r.actual_windows_root ≡ []
  pub path_budgets : path_budgets pf out (root_of m.payload.payload_type) m.payload.actions ≡ []
  pub read_write : r.mount_read_write_checked ≡ true
  pub writable_now : r.mount_read_only_now ≡ some false
  pub safe_write : r.safe_write_capability_proven ≡ true
  pub noreplace : r.rename_noreplace_capability_proven ≡ true
  pub mount_known : (m.payload.mount_identity == "UNVERIFIED") ≡ false
  pub same_mount : r.mount_identity ≡ some m.payload.mount_identity
  pub free_bytes : is_some r.free_bytes ≡ true

either_off : (a b : Bool) → (a || b) ≡ false → (a ≡ false) × (b ≡ false)
either_off true b h = cc
either_off false b h = (refl, h)

is_this :
    (found : Option String) (x : String) → option_eq ◌==◌ found (some x) ≡ true → found ≡ some x
is_this none x h = cc
is_this (some y) x h = ap some ((String_eq.decides y x).0 h)

module _ (pf : Platform) (out : Outside) where
  pub runtime_checks-Evidence :
      (m : ExecutionManifest) (r : RuntimeEvidence)
      → runtime_checks pf out m r ≡ []
      → Evidence pf out m r
  unfolding runtime_checks
  runtime_checks-Evidence m r h =
      let (a, (b, (_, (d, (e, (f, (c, (g, (i, (k, (l, (n, (o, (p, (q, _))))))))))))))) =
        blocks_of-empty (λ missing. missing) (runtime_lists pf out m r) h in
      record {
        scanner = when_empty _ _ a;
        inventory_writer = when_empty _ _ b;
        snapshot = when_empty _ _ d;
        backup = when_empty _ _ e;
        backup_file = f;
        sealed_root = when_empty _ _ c;
        client_root = g;
        path_budgets = i;
        read_write = when_empty _ _ k;
        writable_now = read_only_state-empty r.mount_read_only_now l;
        safe_write = when_empty _ _ n;
        noreplace = when_empty _ _ o;
        mount_known = (either_off _ _ (when_off _ _ p)).0;
        same_mount =
            is_this r.mount_identity m.payload.mount_identity
              (not-false _ (either_off _ _ (when_off _ _ p)).1);
        free_bytes = when_empty _ _ q;
      }

  pub conclude-Evidence :
      (m : ExecutionManifest) (r : RuntimeEvidence) (fresh : FreshPlan)
      (checks : List (String × String)) (found : List String) (matches : Bool)
      → (conclude pf out m r fresh checks found matches).status ≡ ready_for_execution
      → (found ≡ [])
        × (matches ≡ true)
        × (payload_blockers m.payload ≡ [])
        × (warning_blockers m ≡ [])
        × Evidence pf out m r
  unfolding conclude
  conclude-Evidence m r fresh checks found matches h =
      let none_left = status_of-empty _ h in
      let (before, missing) = append_empty _ (runtime_checks pf out m r) none_left in
      let (nothing, rest) = append_empty found _ before in
      let (same, more) = append_empty (when (not matches) "manifest_projection_mismatch") _ rest in
      let (payload, warnings) = append_empty (payload_blockers m.payload) _ more in
      (nothing, when_empty matches _ same, payload, warnings, runtime_checks-Evidence m r missing)

-- The target of a move does not exist yet; a KEEP has none to make.
abbrev pub TargetFree : Snapshot → ManifestAction → Type 0
TargetFree snapshot a = (moves a ≡ false) ⊎ (inventory snapshot a.target ≡ none)

-- No part of the source's path is a symbolic link.
abbrev pub NoSymlinks : Snapshot → ManifestAction → Type 0
NoSymlinks snapshot a =
    All (λ path. has_kind Kind.symlink (inventory snapshot path) ≡ false)
      (a.source ∷ parents a.source)

-- The manifest agrees with the inventory: sources as sealed, and targets free.
pub record NamespaceReady (m : ExecutionManifest) (snapshot : Snapshot) : Type 0 where
  pub library_root : (snapshot.root == m.payload.library_root) ≡ true
  pub no_symlinks : All (NoSymlinks snapshot) m.payload.actions
  pub sources : All (λ a. same_source a (inventory snapshot a.source) ≡ true) m.payload.actions
  pub targets : All (TargetFree snapshot) m.payload.actions

-- Nothing about the manifest is left to a person.
pub record Decided (m : ExecutionManifest) : Type 0 where
  pub graph : graph_resolved m.payload.graph ≡ true
  pub reviewed : any (λ a. a.criticality == "REVIEW") m.payload.actions ≡ false
  pub post_state : option_eq ◌==◌ m.payload.expected_post_hash none ≡ false
  pub warnings :
      All
        (λ w. acknowledged w (acknowledgement_of w.warning_id m.acknowledgements) ≡ true)
        m.payload.warnings

pub record IsReady (pf : Platform) (out : Outside) (m : ExecutionManifest) (snapshot : Snapshot)
    (db : DatabaseFingerprint) (r : RuntimeEvidence) : Type 0 where
  pub valid : validate_manifest pf m ≡ ok tt
  pub root : Option String
  pub sealed_root : m.payload.payload_type ≡ PayloadType.current root
  pub fingerprint : fingerprint_eq db m.payload.db_fingerprint ≡ true
  pub namespace : NamespaceReady m snapshot
  pub plan : FreshPlan
  pub planned : out.plan_library snapshot root ≡ ok plan
  pub same_plan : (plan.plan_hash == m.payload.plan_hash) ≡ true
  pub reproduced : out.reference_matches snapshot plan m ≡ ok true
  pub decided : Decided m
  pub evidence : Evidence pf out m r

pub NoSymlinks-of :
    (snapshot : Snapshot) (a : ManifestAction)
    → source_symlinks snapshot a ≡ []
    → NoSymlinks snapshot a
NoSymlinks-of snapshot a =
    blocks_of-when (λ path. has_kind Kind.symlink (inventory snapshot path))
      (concat "source_symlink:") (a.source ∷ parents a.source)

pub payload_blockers-Decided :
    (m : ExecutionManifest) → payload_blockers m.payload ≡ [] → warning_blockers m ≡ [] → Decided m
payload_blockers-Decided m h warnings =
    let (graph, rest) = append_empty (when (not (graph_resolved m.payload.graph)) _) _ h in
    let (review, post) =
      append_empty (when (any (λ a. a.criticality == "REVIEW") m.payload.actions) _) _ rest in
    let (acked, _) = append_empty (blocks_of _ m.payload.warnings) _ warnings in
    record {
      graph = when_empty _ _ graph;
      reviewed = when_off _ _ review;
      post_state = when_off _ _ post;
      warnings =
          blocks_of-when-not
            (λ w. acknowledged w (acknowledgement_of w.warning_id m.acknowledgements))
            (λ w. concat "warning_unacknowledged:" w.warning_id) m.payload.warnings acked;
    }

-- The bits of one move: it moves, its locators are safe, its target is a link, or another's source.
still :
    (mv safe link source : Bool) (x y : String)
    → safe ≡ true
    → (if not mv then [] else if link then x ∷ [] else when (not source) y) ≡ []
    → ((mv && safe) && (not link && source)) ≡ false
    → mv ≡ false
still false safe link source x y s h free = refl
still true false link source x y s h free = cc
still true true true source x y s h free = cc
still true true false true x y s h free = cc
still true true false false x y s h free = cc

module _ (pf : Platform) (m : ExecutionManifest) (snapshot : Snapshot) where
  TargetFree-of :
      (a : ManifestAction)
      → target_blockers pf m.payload snapshot a ≡ []
      → taken snapshot (sources_of m.payload.actions) a ≡ false
      → TargetFree snapshot a
  unfolding target_blockers
  TargetFree-of a h free =
      if_ind (λ (z : List String). z ≡ [] → TargetFree snapshot a)
        (not (relative_locator_safe a.source) || not (relative_locator_safe a.target)) (λ _ h'. cc)
        (λ safe h'.
          let (_, rest) = append_empty (when (recycled pf a.target) _) _ h' in
          let (entry, _) =
            append_empty
              (target_entry (sources_of m.payload.actions) a (inventory snapshot a.target)) _
              rest in
          go (inventory snapshot a.target) safe entry free)
        h
    where
      go :
          (e : Option Entry)
          → (not (relative_locator_safe a.source) || not (relative_locator_safe a.target)) ≡ false
          → target_entry (sources_of m.payload.actions) a e ≡ []
          → ((moves a && (relative_locator_safe a.source && relative_locator_safe a.target))
              && elim e [
                | none ↦ false
                | some entry ↦
                    not (Kind_eq entry.kind Kind.symlink)
                    && elem a.target (sources_of m.payload.actions)
              ])
            ≡ false
          → (moves a ≡ false) ⊎ (e ≡ none)
      go none safe entry free = inr refl
      go (some e) safe entry free =
          let (s, t) = or_split (not (relative_locator_safe a.source)) _ safe in
          inl (
            still (moves a) (relative_locator_safe a.source && relative_locator_safe a.target)
              (Kind_eq e.kind Kind.symlink) (elem a.target (sources_of m.payload.actions)) _ _
              (and_both (not-false _ s) (not-false _ t)) entry free)

  pub TargetsFree-of :
      blocks_of (target_blockers pf m.payload snapshot) m.payload.actions ≡ []
      → occupied_blockers m.payload snapshot ≡ []
      → All (TargetFree snapshot) m.payload.actions
  unfolding occupied_blockers
  TargetsFree-of targets occupied =
      All-both _ _ (TargetFree snapshot) TargetFree-of m.payload.actions
        (blocks_of-empty (target_blockers pf m.payload snapshot) m.payload.actions targets)
        (blocks_of-when (taken snapshot (sources_of m.payload.actions))
          (λ a. staging_blocker (moves_of m.payload.actions) a.target) m.payload.actions occupied)
