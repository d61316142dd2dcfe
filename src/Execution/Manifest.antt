-- ===== src/Execution/Manifest.antt =====
-- The sealed data of app/target_execution_manifest.py. The fields are those of the dataclasses.
pub mod Keys
pub mod Derived
pub mod Validate
pub mod Graph
use anime_db.Base.{ℕ, String, Bool, Option, List}

pub data ObjectId : Type 0 where
  num : ℕ → ObjectId
  name : String → ObjectId

-- A Python `int` that a file may make negative.
pub data ℤ : Type 0 where
  pos : ℕ → ℤ
  negsuc : ℕ → ℤ

pub record DatabaseFingerprint : Type 0 where
  pub sha256 : String
  pub size : ℕ
  pub mtime_ns : ℕ
  pub user_version : ℕ

pub record ManifestAction : Type 0 where
  pub action_id : String
  pub object_kind : String
  pub object_id : ObjectId
  pub action : String
  pub source : String
  pub target : String
  pub expected_size : ℤ
  pub expected_mtime_ns : ℤ
  pub expected_source_kind : String
  pub expected_target_absent : Bool
  pub criticality : String
  pub criticality_reason : String
  pub warning_ids : List String
  pub depends_on : List String
  pub failure_policy : String

pub record CriticalityAuthority : Type 0 where
  pub object_kind : String
  pub object_id : ObjectId
  pub severity : String
  pub reason : String
  pub actor : String

pub record LocatorPatch : Type 0 where
  pub object_kind : String
  pub object_id : ℕ
  pub field : String
  pub before : String
  pub after : String

pub record WarningRecord : Type 0 where
  pub warning_id : String
  pub warning_class : String
  pub object_kind : String
  pub object_id : ObjectId
  pub source : String

pub record WarningAcknowledgement : Type 0 where
  pub warning_id : String
  pub warning_class : String
  pub object_kind : String
  pub object_id : ObjectId
  pub actor : String
  pub acknowledged_at : String

pub record ManifestSideAsset : Type 0 where
  pub source : String
  pub secondary_video_id : ℕ
  pub provenance : String
  pub expected_size : Option ℕ
  pub expected_sha256 : Option String
  pub object_kind : String
  pub object_id : Option ObjectId
  pub primary_archive_source : Option String
  pub primary_archive_sha256 : Option String

pub record ManifestDuplicateEvidence : Type 0 where
  pub secondary_video_id : ℕ
  pub primary_video_id : ℕ
  pub validity : String
  pub known_side_assets : List ManifestSideAsset
  pub side_asset_accounting : String
  pub provenance : List String

pub record GraphReport : Type 0 where
  pub source_target_chains : ℤ
  pub cycles : ℤ
  pub swaps : ℤ
  pub occupied_targets : ℤ
  pub case_only : ℤ
  pub unicode_only : ℤ
  pub ancestor_interactions : ℤ

-- The class of a payload: version 1 has no Windows root, version 2 has the field `windows_root`.
pub data PayloadType : Type 0 where
  legacy : PayloadType
  current : (windows_root : Option String) → PayloadType

pub record ManifestPayload : Type 0 where
  pub payload_type : PayloadType
  pub version : ℕ
  pub policy_id : String
  pub planner_id : String
  pub plan_hash : String
  pub db_fingerprint : DatabaseFingerprint
  pub filesystem_hash : String
  pub library_root : String
  pub mount_identity : String
  pub actions : List ManifestAction
  pub directories : List String
  pub graph : GraphReport
  pub locator_patches : List LocatorPatch
  pub warnings : List WarningRecord
  pub criticality_authorities : List CriticalityAuthority
  pub duplicate_evidence : List ManifestDuplicateEvidence
  pub requirements : List String
  pub counts : List (String × ℕ)
  pub logical_move_bytes : ℤ
  pub expected_post_hash : Option String
  pub generation_diagnostics : List String

pub record ExecutionManifest : Type 0 where
  pub payload : ManifestPayload
  pub manifest_id : String
  pub created_at : String
  pub acknowledgements : List WarningAcknowledgement

pub record RuntimeEvidence : Type 0 where
  pub scanner_paused_through_verification : Bool
  pub inventory_writer_paused_through_verification : Bool
  pub snapshot_id : Option String
  pub snapshot_at : Option String
  pub snapshot_manifest_id : Option String
  pub snapshot_capable : Bool
  pub db_backup_path : Option String
  pub db_backup_sha256 : Option String
  pub db_backup_size : Option ℕ
  pub db_backup_user_version : Option ℕ
  pub db_backup_manifest_id : Option String
  pub actual_windows_root : Option String
  pub mount_read_write_checked : Bool
  pub mount_read_only_now : Option Bool
  pub safe_write_capability_proven : Bool
  pub rename_noreplace_capability_proven : Bool
  pub mount_identity : Option String
  pub free_bytes : Option ℕ

-- The states of a journal entry; `JournalEntry.__post_init__` refuses any other text.
pub data State : Type 0 where
  pending fs_applied fs_verified db_reconciled complete failed : State

-- `__post_init__` refuses a negative index, so it is a natural number.
pub record JournalEntry : Type 0 where
  pub manifest_id : String
  pub action_id : String
  pub action_index : ℕ
  pub state : State
  pub failure_code : Option String
  pub source_intact : Option Bool
  pub target_absent : Option Bool
  pub primary_dependencies_clear : Option Bool
  pub failure_journaled : Option Bool
