-- ===== src/Execution/Rollback.antt =====
-- `rollback_scratch_video_move` of app/target_execution_rollback.py: one approved return of a file to
-- where it was, recorded before and after, never retried.
pub mod Steps
pub mod Recorded
mod Examples
use anime_db.Base.{
  ℕ, String, Bool, true, false, not, ◌&&◌, ◌||◌, List, [], ◌∷◌, Result, ok, err, if◌then◌else◌,
  ◌==◌, String_eq, ◌+◌,
}
use anime_db.Base.Effects.{◌>>=◌, ◌>>◌, pure, raise_if, modify}
use anime_db.Execution.World as World
use anime_db.Execution.World.{World, Reply, ask, consult, expect, change, set_own, with_close}

pub data Phase : Type 0 where
  validation approval_evidence attempt_evidence rename verification durability result_evidence :
      Phase

-- `ScratchRollbackStopped` as raised inside, another `Exception`, and a signal
pub data Exn : Type 0 where
  stop other interrupt : Exn

pub data Mark : Type 0 where
  approved attempt verified : Mark

-- The record file is created and framed with a sequence number; the file is renamed and synchronised.
pub data Event : Type 0 where
  created : Event
  recorded : Mark → ℕ → Event
  renamed synced_file synced_source synced_target : Event

-- The locals of the call
pub record Locals : Type 0 where
  pub phase : Phase
  pub attempted : Bool
  pub record_open : Bool
  pub sequence : ℕ

abbrev pub Act : Type 0 → Type 0
Act A = World.Act Exn Event Locals A

abbrev pub Rollback : Type 0
Rollback = World Exn Event Locals

-- `RollbackApproval`: its types, its texts, and whether it is signed by somebody.
pub record Approval : Type 0 where
  pub is_approval : Bool
  pub decision : String
  pub acknowledgement : String
  pub signed : Bool

abbrev pub identity_limitation : String
identity_limitation =
    "Historical inode continuity is UNKNOWN after restart. Matching SHA-256 and numeric metadata do not prove original physical identity; this approval authorizes only returning the currently verified target to the original source."

abbrev pub is_approved : Approval → Bool
is_approved a =
    a.is_approval
    && (a.decision == "RETURN_TARGET_TO_SOURCE"
        && (a.acknowledgement == identity_limitation && a.signed))

abbrev pub at_phase : Phase → Locals → Locals
at_phase phase x = record x { phase = phase }

abbrev pub enter : Phase → Act (Unit {0})
enter phase = modify (set_own (at_phase phase))

-- The scope, the owner, and a fresh proposal that the approval must be for.
unfoldable pub validate : Approval → Act (Unit {0})
unfolding consult expect
validate a = do raise_if (not (is_approved a)) stop; consult; consult; consult; expect stop

-- The pins: root, mount and action, journal and evidence, database, both parents and the file.
unfoldable pub pin : Act (Unit {0})
unfolding consult expect
pin = do
  consult
  expect stop
  consult
  consult
  consult
  expect stop
  consult
  expect stop
  consult
  consult
  consult
  expect stop
  consult

-- `check_record`
unfoldable pub check_record : Act (Unit {0})
unfolding expect
check_record w = (if w.own.record_open then expect stop else pure tt) w

-- `stable`
unfoldable pub stable : Bool → Act (Unit {0})
unfolding consult expect check_record
stable moved = do
  consult
  consult
  check_record
  consult
  expect stop
  consult
  consult
  expect stop
  consult
  consult
  consult
  expect stop
  if moved then (expect stop >> expect stop) else pure tt

abbrev pub next : Locals → Locals
next x = record x { sequence = x.sequence + 1 }

-- `append`
unfoldable pub append : Mark → Act (Unit {0})
unfolding consult check_record change
append mark = do
  consult
  consult
  check_record
  λ w. change (recorded mark w.own.sequence) w
  consult
  consult
  check_record
  modify (set_own next)

abbrev pub open_record : Locals → Locals
open_record x = record x { record_open = true }

abbrev pub start_rename : Locals → Locals
start_rename x = record x { phase = rename; attempted = true }

-- Up to the record of the attempt.
unfoldable pub prepare : Act (Unit {0})
unfolding consult expect stable append change
prepare = do
  consult
  consult
  expect stop
  stable false
  enter approval_evidence
  change created
  modify (set_own open_record)
  consult
  consult
  append approved
  consult
  stable false
  enter attempt_evidence
  append attempt
  stable false

-- The rename and the barriers that make it durable.
unfoldable pub move_back : Bool → Act (Unit {0})
unfolding stable change
move_back one_directory = do
  modify (set_own start_rename)
  change renamed
  enter verification
  stable true
  enter durability
  change synced_file
  change synced_target
  if one_directory then pure tt else change synced_source
  enter verification
  stable true

abbrev pub on_close : Exn → Exn → Exn
on_close p e = e

abbrev pub on_release : Exn → Exn → Exn
on_release p interrupt = interrupt
on_release p e = p

unfoldable pub return_file : Bool → Act (Unit {0})
unfolding pin stable consult with_close prepare move_back append
return_file one_directory = do
  pin
  stable false
  consult
  with_close on_close (prepare >> move_back one_directory)
  stable true
  enter result_evidence
  append verified
  stable true

-- What the call raises
pub data Raised : Type 0 where
  stopped : Phase → Bool → Raised
  signal : Raised

abbrev pub handled : Result Exn (Unit {0}) × Rollback → Result Raised (Unit {0}) × Rollback
handled (ok r, w) = (ok r, w)
handled (err interrupt, w) = (err signal, w)
handled (err e, w) = (err (stopped w.own.phase w.own.attempted), w)

abbrev pub started : List (Reply Exn) → Rollback
started replies = record {
  own = record { phase = validation; attempted = false; record_open = false; sequence = 0 };
  log = [];
  replies = replies;
}

-- `rollback_scratch_video_move`, on the answers to its calls
unfoldable pub rollback : Approval → Bool → List (Reply Exn) → Result Raised (Unit {0}) × Rollback
unfolding validate with_close return_file
rollback a one_directory replies =
    handled ((validate a >> with_close on_release (return_file one_directory)) (started replies))
