-- ===== src/Execution/Restart/Consistent.antt =====
-- What a restart inspection without contradictions says.
use anime_db.Base.{
  String, ◌≡◌, ◌≢◌, refl, Bool, true, false, not, ◌&&◌, Option, none, some, List, [], ◌∷◌,
  not-false,
}
use anime_db.Execution.Manifest.{
  State, pending, fs_applied, fs_verified, db_reconciled, complete, failed,
}
use anime_db.Execution.Preflight.Inputs.{when}
use anime_db.Execution.Preflight.Blockers.{append_empty, when_off}
use anime_db.Execution.Restart.{
  Presence, present, absent, unsafe, unknown, Match, mismatch, state, Comparison, Trust,
  JournalInspection, is_mismatch, mismatches, is_target_only, records_progress, is_pending,
  first_of_each, contradictions_of, observed_state, inspect_scratch_action,
}

-- Content and metadata of a locator that was compared do not differ from the evidence.
abbrev pub Unmixed : Option Comparison → Type 0
Unmixed none = Unit
Unmixed (some c) = (c.content ≢ mismatch) × (c.filesystem ≢ mismatch)

-- The file was seen at its target, and its source was seen empty.
abbrev pub HasMoved : Bool → Option Comparison → Option Comparison → Type 0
HasMoved false (some source) (some target) =
    (source.presence ≡ absent) × (target.presence ≡ present)
HasMoved _ _ _ = ⊥

-- What each phase of the journal leaves possible: PENDING that the file has not moved alone to its
-- target, and FS_APPLIED, FS_VERIFIED, DB_RECONCILED and COMPLETE that it has.
abbrev pub Tells : Option State → Bool → Option Comparison → Option Comparison → Type 0
Tells none raised source target = Unit
Tells (some pending) raised source target = ¬ HasMoved raised source target
Tells (some fs_applied) raised source target = HasMoved raised source target
Tells (some fs_verified) raised source target = HasMoved raised source target
Tells (some db_reconciled) raised source target = HasMoved raised source target
Tells (some complete) raised source target = HasMoved raised source target
Tells (some failed) raised source target = Unit

-- The journal and the two locators tell the same story.
pub record IsConsistent (raised : Bool) (journal : JournalInspection)
    (source target : Option Comparison) : Type 0 where
  pub source_fits : Unmixed source
  pub target_fits : Unmixed target
  pub story : Tells journal.last_action_phase raised source target

first_of_each-empty : (xs : List String) → first_of_each xs ≡ [] → xs ≡ []
unfolding first_of_each
first_of_each-empty [] h = refl
first_of_each-empty (x ∷ xs) h = cc

no_mismatch : (x : Match) → is_mismatch x ≡ false → x ≢ mismatch
no_mismatch x h is = cc

mismatches-empty : (c : Option Comparison) → mismatches c ≡ [] → Unmixed c
mismatches-empty none h = tt
mismatches-empty (some c) h =
    let (content, filesystem) = append_empty (when (is_mismatch c.content) _) _ h in
    (
      no_mismatch c.content (when_off _ _ content),
      no_mismatch c.filesystem (when_off _ _ filesystem),
    )

-- Only one pair of presences makes the state of a file that is at its target alone.
state-moved :
    (source target : Presence)
    → is_target_only (state source target) ≡ true
    → (source ≡ absent) × (target ≡ present)
state-moved present present h = cc
state-moved present absent h = cc
state-moved present unsafe h = cc
state-moved present unknown h = cc
state-moved absent present h = (refl, refl)
state-moved absent absent h = cc
state-moved absent unsafe h = cc
state-moved absent unknown h = cc
state-moved unsafe target h = cc
state-moved unknown present h = cc
state-moved unknown absent h = cc
state-moved unknown unsafe h = cc
state-moved unknown unknown h = cc

moved :
    (raised : Bool) (source target : Option Comparison)
    → is_target_only (observed_state raised source target) ≡ true
    → HasMoved raised source target
moved false (some s) (some t) h = state-moved s.presence t.presence h
moved false (some s) none h = cc
moved false none target h = cc
moved true source target h = cc

seen :
    (raised : Bool) (source target : Option Comparison)
    → HasMoved raised source target
    → is_target_only (observed_state raised source target) ≡ true
seen false (some s) (some t) (at_source, at_target) = rw (at_source, at_target) refl
seen false (some s) none h = elim h [ ]
seen false none target h = elim h [ ]
seen true source target h = elim h [ ]

module _ (raised : Bool) (source target : Option Comparison) where
  abbrev alone : Bool
  alone = is_target_only (observed_state raised source target)

  story :
      (phase : Option State)
      → (is_pending phase && alone) ≡ false
      → (records_progress phase && not alone) ≡ false
      → Tells phase raised source target
  story none waits went = tt
  story (some pending) waits went = λ h. let is = seen raised source target h in cc
  story (some fs_applied) waits went = moved raised source target (not-false alone went)
  story (some fs_verified) waits went = moved raised source target (not-false alone went)
  story (some db_reconciled) waits went = moved raised source target (not-false alone went)
  story (some complete) waits went = moved raised source target (not-false alone went)
  story (some failed) waits went = tt

-- When the inspection reports no contradiction, no locator that was compared mismatches the evidence;
-- if the last phase of the action is PENDING, the file is not at its target alone, and if it is one of
-- FS_APPLIED, FS_VERIFIED, DB_RECONCILED and COMPLETE, it is.
pub contradictions-IsConsistent :
    (raised : Bool) (journal : JournalInspection) (evidence : Trust)
    (source target : Option Comparison)
    → (inspect_scratch_action raised journal evidence source target).contradictions ≡ []
    → IsConsistent raised journal source target
unfolding inspect_scratch_action
contradictions-IsConsistent raised journal evidence source target h =
    let observed = observed_state raised source target in
    let phase = journal.last_action_phase in
    let clear = first_of_each-empty (contradictions_of observed phase source target) h in
    let (first, rest) = append_empty (mismatches source) _ clear in
    let (second, more) = append_empty (mismatches target) _ rest in
    let (waits, went) =
      append_empty (when (is_pending phase && is_target_only observed) _) _ more in
    record {
      source_fits = mismatches-empty source first;
      target_fits = mismatches-empty target second;
      story = story raised source target phase (when_off _ _ waits) (when_off _ _ went);
    }
