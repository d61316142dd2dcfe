-- ===== src/Execution/Preflight/Runtime.antt =====
-- `_runtime_checks` of app/target_execution_manifest.py: the evidence of a maintenance window.
use anime_db.Base.{
  String, Bool, true, false, not, ◌&&◌, ◌||◌, Option, none, some, List, [], ◌∷◌, if◌then◌else◌,
  ◌==◌, nat_eq, option_eq, nonempty, is_some, String_eq,
}
use anime_db.Execution.Paths.{concat}
use anime_db.Execution.Platform.{Platform}
use anime_db.Execution.Manifest.{
  DatabaseFingerprint, ManifestAction, ExecutionManifest, RuntimeEvidence,
}
use anime_db.Execution.Preflight.Inputs.{Backup, Outside, when, blocks_of, root_of}

-- `actual_backup[key] != getattr(p.db_fingerprint, key)` for none of the three keys
abbrev pub same_database : DatabaseFingerprint → DatabaseFingerprint → Bool
same_database a b =
    a.sha256 == b.sha256 && (nat_eq a.size b.size && nat_eq a.user_version b.user_version)

abbrev pub backup_bytes : DatabaseFingerprint → Option DatabaseFingerprint → List String
backup_bytes sealed none = "db_backup_unreadable" ∷ []
backup_bytes sealed (some actual) =
    when (not (same_database actual sealed)) "db_backup_bytes_mismatch"

abbrev pub backup_file : DatabaseFingerprint → Backup → List String
backup_file sealed b =
    if b.inside_repository_or_library
    then "db_backup_not_outside_repo_and_library" ∷ []
    else if not b.regular
    then "db_backup_file_missing_or_not_regular" ∷ []
    else if not (nat_eq b.nlink 1)
    then "db_backup_not_independent_copy" ∷ []
    else backup_bytes sealed b.fingerprint

abbrev pub read_only_state : Option Bool → List String
read_only_state (some true) = "current_mount_read_only" ∷ []
read_only_state (some false) = []
read_only_state none = "current_mount_state_not_proven" ∷ []

module _ (pf : Platform) (out : Outside) where
  abbrev pub snapshot_time : ExecutionManifest → Option String → Bool
  snapshot_time m none = false
  snapshot_time m (some at) =
      not (at == "") && (pf.is_iso at && (pf.is_iso m.created_at && out.not_before at m.created_at))

  abbrev pub backup_path : DatabaseFingerprint → Option String → List String
  backup_path sealed none = "db_backup_local_path_not_proven" ∷ []
  backup_path sealed (some path) =
      if path == ""
      then "db_backup_local_path_not_proven" ∷ []
      else backup_file sealed (out.backup path)

  abbrev pub client_root : Option String → Option String → List String
  client_root sealed none = "actual_windows_root_not_proven" ∷ []
  client_root sealed (some root) =
      if pf.windows_root_valid root
      then when (not (option_eq ◌==◌ (some root) sealed)) "windows_root_mismatch"
      else "actual_windows_root_invalid" ∷ []

  abbrev pub path_budgets : Option String → List ManifestAction → List String
  path_budgets none actions = []
  path_budgets (some root) actions =
      blocks_of
        (λ a. when (not (out.within_budget root a.target)) (concat "windows_path_budget:" a.target))
        actions

  -- The snapshot and the backup are bound to this manifest.
  abbrev pub bound_snapshot : ExecutionManifest → RuntimeEvidence → Bool
  bound_snapshot m r =
      r.snapshot_capable
      && (nonempty r.snapshot_id
          && (snapshot_time m r.snapshot_at
              && option_eq ◌==◌ r.snapshot_manifest_id (some m.manifest_id)))

  abbrev pub bound_backup : ExecutionManifest → RuntimeEvidence → Bool
  bound_backup m r =
      option_eq ◌==◌ r.db_backup_sha256 (some m.payload.db_fingerprint.sha256)
      && (option_eq nat_eq r.db_backup_size (some m.payload.db_fingerprint.size)
          && (option_eq nat_eq r.db_backup_user_version (some m.payload.db_fingerprint.user_version)
              && option_eq ◌==◌ r.db_backup_manifest_id (some m.manifest_id)))

  -- One list for each check, in the order of the code.
  abbrev pub runtime_lists : ExecutionManifest → RuntimeEvidence → List (List String)
  runtime_lists m r =
      let p = m.payload in
      let root = root_of p.payload_type in
      when (not r.scanner_paused_through_verification) "scanner_maintenance_not_proven"
      ∷ when (not r.inventory_writer_paused_through_verification)
          "inventory_writer_maintenance_not_proven"
      ∷ when (nonempty r.snapshot_at && not (snapshot_time m r.snapshot_at))
          "snapshot_time_invalid_or_prebaseline"
      ∷ when (not (bound_snapshot m r)) "bound_snapshot_not_proven"
      ∷ when (not (bound_backup m r)) "bound_db_backup_not_proven"
      ∷ backup_path p.db_fingerprint r.db_backup_path
      ∷ when (not (is_some root)) "sealed_windows_root_not_bound"
      ∷ client_root root r.actual_windows_root
      ∷ path_budgets root p.actions
      ∷ when (not r.mount_read_write_checked) "mount_read_write_not_proven"
      ∷ read_only_state r.mount_read_only_now
      ∷ when (not r.safe_write_capability_proven) "safe_write_capability_not_proven"
      ∷ when (not r.rename_noreplace_capability_proven) "rename_noreplace_not_proven"
      ∷ when
          (p.mount_identity == "UNVERIFIED"
            || not (option_eq ◌==◌ r.mount_identity (some p.mount_identity)))
          "mount_identity_not_proven"
      ∷ when (not (is_some r.free_bytes)) "free_bytes_not_reported"
      ∷ []

  unfoldable pub runtime_checks : ExecutionManifest → RuntimeEvidence → List String
  runtime_checks m r = blocks_of (λ missing. missing) (runtime_lists m r)
