-- ===== src/Execution/Sequence/Owner.antt =====
-- `_execute_once` and `_finish` of app/target_execution_sequence.py: one execution of an owner, the stop
-- that its failure becomes, and the release of what it holds.
use anime_db.Base.{
  Bool, true, false, not, ◌&&◌, ◌||◌, none, List, Result, ok, err, if◌then◌else◌, String_eq, ℕ_eq,
}
use anime_db.Base.Effects.{◌>>◌, raise_if, modify}
use anime_db.Execution.Manifest.{db_reconciled, ManifestAction}
use anime_db.Execution.Sequence.Stages.{
  Category, plain, filesystem, database, Phase, validation, db_validation, preflight,
  execution_guard, evidence_capture, recording, db_pre_update, db_update, db_commit,
  db_verification, db_final_verification, db_predecessor, p2c_completion, close, Exn, stopped,
  rename_rejected, identity_reconciliation, interrupt, Sequence, Act, guarded, directories_made,
  ask, consult, write, set_phase,
}
use anime_db.Execution.Sequence.{Scope, check_execution, execute_actions}

abbrev pub is_db : Phase → Bool
is_db db_validation = true
is_db (recording db_reconciled) = true
is_db db_pre_update = true
is_db db_update = true
is_db db_commit = true
is_db db_verification = true
is_db db_final_verification = true
is_db db_predecessor = true
is_db _ = false

abbrev pub is_p2c : Phase → Bool
is_p2c p2c_completion = true
is_p2c _ = false

abbrev pub is_early : Phase → Bool
is_early validation = true
is_early evidence_capture = true
is_early _ = false

abbrev pub is_plain : Category → Bool
is_plain plain = true
is_plain _ = false

abbrev pub other_category : Phase → Exn → Category
other_category phase identity_reconciliation = filesystem
other_category phase rename_rejected = plain
other_category phase e = if is_early phase then plain else filesystem

-- The category of an exception that is no stop yet
abbrev pub category_of : Phase → Exn → Category
category_of phase e =
    if is_p2c phase then filesystem else if is_db phase then database else other_category phase e

-- `except BaseException` of `_execute_once`: what it raises
abbrev pub classify : Phase → Exn → Exn
classify phase interrupt = interrupt
classify phase (stopped category at) =
    if is_p2c phase && is_plain category then stopped filesystem phase else stopped category at
classify phase e = stopped (category_of phase e) phase

abbrev pub stopping : Exn → Sequence → Sequence
stopping (stopped category at) s = record s { stop_class = category; phase = at }
stopping e s = record s { stop_class = filesystem }

abbrev pub settled : Result Exn (Unit {0}) × Sequence → Result Exn (Unit {0}) × Sequence
settled (ok r, s) = (ok r, s)
settled (err e, s) = let e' = classify s.phase e in (err e', stopping e' s)

-- `_finish`: what an exception on closing does to the outcome
abbrev pub closing_error : Exn → Sequence → Result Exn (Unit {0}) × Sequence
closing_error interrupt s = (err interrupt, s)
closing_error e s =
    (err (stopped filesystem close), record s { stop_class = filesystem; phase = close })

-- Which of two exceptions leaves the call: a signal, and else the first.
abbrev pub outlasting : Exn → Exn → Exn
outlasting p interrupt = interrupt
outlasting p e = p

abbrev pub after_finish :
    Result Exn (Unit {0}) → Result Exn Bool × Sequence → Result Exn (Unit {0}) × Sequence
after_finish r (ok b, s) = (r, s)
after_finish (ok r) (err e, s) = closing_error e s
after_finish (err p) (err e, s) = (err (outlasting p e), s)

abbrev pub shut : Sequence → Sequence
shut s = record s { closed = true; authorized_index = none }

unfoldable pub finish : Result Exn (Unit {0}) × Sequence → Result Exn (Unit {0}) × Sequence
unfolding ask
finish (r, s) = after_finish r (ask (shut s))

-- `_accept_scope` and `_prepare_execution`
unfoldable pub prepare : Act (Unit {0})
unfolding consult check_execution write
prepare = do
  check_execution
  consult
  modify (set_phase db_validation)
  consult
  modify (set_phase preflight)
  consult
  check_execution
  consult
  modify (set_phase execution_guard)
  write guarded
  write directories_made
  consult

unfoldable pub attempt : Scope → List ManifestAction → Act (Unit {0})
unfolding prepare execute_actions
attempt scope actions = prepare >> execute_actions scope actions

abbrev pub spend : Sequence → Sequence
spend s = record s { spent = true }

-- `_execute_once`; `same_process` is that the owner's process calls it.
unfoldable pub execute_once : Bool → Scope → List ManifestAction → Act (Unit {0})
unfolding attempt finish
execute_once same_process scope actions = do
  raise_if (not same_process) (stopped plain validation)
  λ s. raise_if (s.spent || s.closed) (stopped s.stop_class s.phase) s
  modify spend
  λ s. finish (settled (attempt scope actions s))
