-- ===== src/Execution/Restart.antt =====
-- The verdict of `inspect_scratch_action` of app/target_execution_reconciliation.py: what a restart
-- may conclude from the journal, the evidence and the two locators of an action. It always stops.
pub mod Consistent
mod Examples
use anime_db.Base.{
  ℕ, String, Bool, true, false, not, ◌&&◌, ◌||◌, Option, none, some, List, [], ◌∷◌, ◌++◌, any,
  if◌then◌else◌, ◌==◌, String_eq,
}
use anime_db.Execution.Manifest.{
  State, pending, fs_applied, fs_verified, db_reconciled, complete, failed, JournalEntry,
}
use anime_db.Execution.Preflight.Inputs.{when}

pub data Presence : Type 0 where
  present absent unsafe unknown : Presence

pub data Match : Type 0 where
  match mismatch undecided : Match

-- `LocatorComparison`, as far as the verdict reads it.
pub record Comparison : Type 0 where
  pub presence : Presence
  pub content : Match
  pub filesystem : Match

pub data Observed : Type 0 where
  source_only target_only both_present both_absent unsafe_state unknown_state : Observed

-- The status of the journal or of the evidence.
pub data Trust : Type 0 where
  valid invalid untrusted unavailable not_inspected : Trust

pub record JournalInspection : Type 0 where
  pub status : Trust
  pub entries : List JournalEntry
  pub last_action_phase : Option State

pub record ScratchRestartInspection : Type 0 where
  pub journal : JournalInspection
  pub evidence : Trust
  pub observed : Observed
  pub stop_reasons : List String
  pub contradictions : List String
  pub outcome : String

-- `_state`
abbrev pub state : Presence → Presence → Observed
state present absent = source_only
state absent present = target_only
state present present = both_present
state absent absent = both_absent
state unsafe _ = unsafe_state
state _ unsafe = unsafe_state
state _ _ = unknown_state

-- `next((e.state for e in reversed(entries) if e.action_index == index), None)`; newest entry first
abbrev pub last_phase : (JournalEntry → Bool) → List JournalEntry → Option State
last_phase of_action [] = none
last_phase of_action (e ∷ entries) =
    if of_action e then some e.state else last_phase of_action entries

-- An exception revokes what was trusted.
abbrev pub revoke : Bool → Trust → Trust
revoke true valid = untrusted
revoke _ trust = trust

abbrev pub is_valid : Trust → Bool
is_valid valid = true
is_valid _ = false

abbrev pub dubious : Option Comparison → Bool
dubious none = false
dubious (some c) = elim c.presence [ unknown ↦ true | unsafe ↦ true | _ ↦ false ]

abbrev pub is_mismatch : Match → Bool
is_mismatch mismatch = true
is_mismatch _ = false

abbrev pub mismatches : Option Comparison → List String
mismatches none = []
mismatches (some c) =
    when (is_mismatch c.content) "CONTENT_MISMATCH"
    ++ when (is_mismatch c.filesystem) "METADATA_MISMATCH"

abbrev pub is_target_only : Observed → Bool
is_target_only target_only = true
is_target_only _ = false

-- The journal records that the file was moved.
abbrev pub records_progress : Option State → Bool
records_progress (some fs_applied) = true
records_progress (some fs_verified) = true
records_progress (some db_reconciled) = true
records_progress (some complete) = true
records_progress _ = false

abbrev pub is_pending : Option State → Bool
is_pending (some pending) = true
is_pending _ = false

abbrev pub presence_reasons : Observed → List String
presence_reasons both_present = "SOURCE_AND_TARGET_PRESENT" ∷ []
presence_reasons both_absent = "SOURCE_AND_TARGET_ABSENT" ∷ []
presence_reasons _ = []

-- `tuple(dict.fromkeys(texts))`
abbrev without : String → List String → List String
without x [] = []
without x (y ∷ ys) = if x == y then without x ys else y ∷ without x ys

unfoldable pub first_of_each : List String → List String
first_of_each [] = []
first_of_each (x ∷ xs) = x ∷ without x (first_of_each xs)

abbrev pub contradictions_of :
    Observed → Option State → Option Comparison → Option Comparison → List String
contradictions_of observed phase source target =
    mismatches source
    ++ (mismatches target
        ++ (when (is_pending phase && is_target_only observed) "PENDING_WITH_TARGET_ONLY"
            ++ when (records_progress phase && not (is_target_only observed))
                "RECORDED_FS_PROGRESS_WITHOUT_TARGET"))

abbrev pub observed_state : Bool → Option Comparison → Option Comparison → Observed
observed_state false (some source) (some target) = state source.presence target.presence
observed_state _ _ _ = unknown_state

-- The verdict. `raised` says that the inspection ended in an exception.
unfoldable pub inspect_scratch_action :
    Bool
    → JournalInspection
    → Trust
    → Option Comparison
    → Option Comparison
    → ScratchRestartInspection
unfolding first_of_each
inspect_scratch_action raised journal evidence source target =
    let observed = observed_state raised source target in
    let history = record journal { status = revoke raised journal.status } in
    let contradictions = contradictions_of observed history.last_action_phase source target in
    let reasons =
      "IDENTITY_CONTINUITY_UNPROVEN"
      ∷ (when raised "INSPECTION_UNCERTAIN"
          ++ (when (not (is_valid history.status)) "JOURNAL_UNTRUSTED"
              ++ (when (not (is_valid (revoke raised evidence))) "EVIDENCE_UNTRUSTED"
                  ++ (when (dubious source) "UNSAFE_LOCATOR"
                      ++ (when (dubious target) "UNSAFE_LOCATOR"
                          ++ (presence_reasons observed ++ contradictions)))))) in
    record {
      journal = history;
      evidence = revoke raised evidence;
      observed = observed;
      stop_reasons = first_of_each reasons;
      contradictions = first_of_each contradictions;
      outcome = "STOP";
    }
