-- ===== src/Execution/Journal.antt =====
-- The rules by which app/target_execution_journal.py admits an entry. A history is kept with its
-- newest entry first, so `history[-1]` is the head and `history[-2]` the one behind it.
pub mod Admission
pub mod Lifecycle
pub mod History
pub mod Writer
pub mod Loading
pub mod Examples
use anime_db.Base.{
  ℕ, zero, suc, ◌+◌, String, ◌≡◌, Bool, true, false, not, ◌&&◌, ◌||◌, Option, none, some, List, [],
  ◌∷◌, any, get_elem?, elem, Result, ok, err, ◌>>=◌, ◌>>◌, raise_if, if◌then◌else◌, ◌==◌, nat_eq,
  nonempty, is_true, is_some, String_eq,
}
use anime_db.Execution.Paths.{stripped_nonempty}
use anime_db.Execution.Platform
use anime_db.Execution.Platform.{Platform}
use anime_db.Execution.Manifest.{
  State, pending, fs_applied, fs_verified, db_reconciled, complete, failed, ManifestAction,
  ExecutionManifest, JournalEntry,
}
use anime_db.Execution.Manifest.Validate.{Checked, validate_manifest}

abbrev pub State_eq : State → State → Bool
State_eq pending pending = true
State_eq fs_applied fs_applied = true
State_eq fs_verified fs_verified = true
State_eq db_reconciled db_reconciled = true
State_eq complete complete = true
State_eq failed failed = true
State_eq _ _ = false

-- `_TRANSITIONS[from]` contains `to`
abbrev pub allowed : State → State → Bool
allowed pending fs_applied = true
allowed pending failed = true
allowed fs_applied fs_verified = true
allowed fs_applied failed = true
allowed fs_verified db_reconciled = true
allowed fs_verified failed = true
allowed db_reconciled complete = true
allowed db_reconciled failed = true
allowed _ _ = false

-- `JournalEntry.__post_init__`
unfoldable pub post_init : JournalEntry → Checked
post_init e = do
  raise_if (e.action_id == "" || e.manifest_id == "") "invalid journal identity"
  raise_if (State_eq e.state failed && not (nonempty e.failure_code))
      "failed journal entry needs failure code"

abbrev pub has_failure_values : JournalEntry → Bool
has_failure_values e =
    is_some e.failure_code
    || (is_some e.source_intact
        || (is_some e.target_absent
            || (is_some e.primary_dependencies_clear || is_some e.failure_journaled)))

abbrev pub stripped_code : Option String → Bool
stripped_code none = false
stripped_code (some code) = stripped_nonempty code

-- The checks of an entry against its own action.
unfoldable pub check_evidence : ManifestAction → JournalEntry → Checked
unfolding stripped_nonempty
check_evidence action e = do
  raise_if (not (e.action_id == action.action_id)) "journal action identity mismatch"
  raise_if (action.criticality == "REVIEW") "criticality REVIEW cannot enter execution lifecycle"
  raise_if (not (State_eq e.state failed) && has_failure_values e)
      "failure evidence belongs only to FAILED"
  raise_if (State_eq e.state failed && not (stripped_code e.failure_code))
      "nonempty failure code required"

-- `any(action_id in other.depends_on and other.criticality == 'PRIMARY' for other in actions)`
abbrev pub primary_depends_on : String → List ManifestAction → Bool
primary_depends_on id actions =
    any (λ other. elem id other.depends_on && other.criticality == "PRIMARY") actions

-- `can_continue_after_failure` behind its validation of the manifest
unfoldable pub failure_conditions : List ManifestAction → ManifestAction → JournalEntry → Bool
failure_conditions actions action e =
    (e.action_id == action.action_id && (State_eq e.state failed && action.criticality == "LOW"))
    && ((nonempty e.failure_code
          && (is_true e.source_intact
              && (is_true e.target_absent
                  && (is_true e.primary_dependencies_clear && is_true e.failure_journaled))))
        && not (primary_depends_on action.action_id actions))

unfoldable pub conditions_at : List ManifestAction → Option ManifestAction → JournalEntry → Bool
unfolding failure_conditions
conditions_at actions none e = false
conditions_at actions (some action) e = failure_conditions actions action e

-- `before_failure` was the PENDING entry of the same action.
abbrev pub direct_failure : List JournalEntry → JournalEntry → Bool
direct_failure [] previous = false
direct_failure (before ∷ _) previous =
    State_eq before.state pending
    && (before.manifest_id == previous.manifest_id
        && (before.action_id == previous.action_id
            && nat_eq before.action_index previous.action_index))

abbrev pub expected_index : List JournalEntry → ℕ
expected_index [] = 0
expected_index (previous ∷ _) = previous.action_index + 1

module _ (pf : Platform) where
  unfoldable pub can_continue_after_failure : ExecutionManifest → JournalEntry → Result String Bool
  unfolding conditions_at
  can_continue_after_failure m e = do
    validate_manifest pf m
    ok (
        e.manifest_id == m.manifest_id
        && conditions_at m.payload.actions (get_elem? m.payload.actions e.action_index) e)

  -- A new action may start behind this unfinished one.
  unfoldable pub check_waived : ExecutionManifest → List JournalEntry → JournalEntry → Checked
  check_waived m before previous =
      let consult = do
        met ← can_continue_after_failure m previous
        raise_if (not met) "STOP: prior action incomplete or failure cannot continue"
      in if direct_failure before previous
        then consult
        else err "STOP: prior action incomplete or failure cannot continue"

  unfoldable pub check_prior : ExecutionManifest → List JournalEntry → Checked
  unfolding check_waived
  check_prior m [] = ok tt
  check_prior m (previous ∷ before) =
      if State_eq previous.state complete then ok tt else check_waived m before previous

  -- The first entry of an action.
  unfoldable pub check_start :
      ExecutionManifest → List JournalEntry → List String → ManifestAction → JournalEntry → Checked
  unfolding check_prior
  check_start m history completed action e = do
    raise_if
        (not (nat_eq e.action_index (expected_index history)) || not (State_eq e.state pending))
        "actions must start PENDING in immutable manifest order"
    check_prior m history
    raise_if (any (λ d. not (elem d completed)) action.depends_on)
        "STOP: action dependencies are not explicitly COMPLETE"

  unfoldable pub check_order :
      ExecutionManifest → List JournalEntry → List String → ManifestAction → JournalEntry → Checked
  unfolding check_start
  check_order m [] completed action e = check_start m [] completed action e
  check_order m (previous ∷ before) completed action e =
      if nat_eq e.action_index previous.action_index
      then raise_if (not (allowed previous.state e.state)) "invalid or duplicate journal transition"
      else check_start m (previous ∷ before) completed action e

  unfoldable pub check_action :
      ExecutionManifest
      → List JournalEntry
      → List String
      → Option ManifestAction
      → JournalEntry
      → Checked
  unfolding check_evidence check_order
  check_action m history completed none e = err "journal manifest/action index mismatch"
  check_action m history completed (some action) e = do
    raise_if (not (e.manifest_id == m.manifest_id)) "journal manifest/action index mismatch"
    check_evidence action e
    check_order m history completed action e

  -- `_validate_entry`
  unfoldable pub validate_entry :
      ExecutionManifest → List JournalEntry → List String → JournalEntry → Checked
  unfolding post_init check_action
  validate_entry m history completed e = do
    post_init e
    check_action m history completed (get_elem? m.payload.actions e.action_index) e
