-- ===== src/Execution/Sequence.antt =====
-- `_ExecutionSequence` and `ScratchManifestExecution` of app/target_execution_sequence.py: the actions
-- of a manifest one after the other, each recorded in the journal before and after what it changes.
pub mod Stages
pub mod Owner
pub mod Ahead
pub mod Moved
pub mod Order
pub mod Once
pub mod Calm
pub mod Live
pub mod Stops
mod Examples
use anime_db.Base.{
  ℕ, String, Bool, true, false, not, ◌&&◌, ◌||◌, Option, none, some, List, [], ◌∷◌, ◌++◌, elem,
  length, Result, ok, err, if◌then◌else◌, nat_eq, ltb, ◌==◌, String_eq, ℕ_eq, ◌+◌, ◌-◌, ◌*◌, zero,
  suc,
}
use anime_db.Base.Effects.{◌>>=◌, ◌>>◌, pure, raise, raise_if, modify}
use anime_db.Execution.Manifest.{
  State, pending, fs_applied, fs_verified, db_reconciled, complete, failed, ManifestAction,
}
use anime_db.Execution.Sequence.Stages.{
  Category, plain, filesystem, journal, database, Phase, validation, db_validation, preflight,
  execution_guard, evidence_capture, evidence_verify, journal_create, pre_rename_identity,
  rename_phase, recording, verification, identity_verification, db_pre_update, db_update, db_commit,
  db_verification, db_final_verification, dependency_gate, db_predecessor, predecessor_identity,
  p2c_completion, close, Exn, stopped, rename_rejected, rename_reconciliation,
  identity_reconciliation, other, interrupt, Event, evidenced, created, recorded, renamed, updated,
  committed, cleaned, rescanned, scanning, Sequence, Act, ask, consult, write, catching, as_journal,
  as_filesystem, set_phase, with_closing,
}

-- `for index in …`
unfoldable pub for_each : List ℕ → (ℕ → Act (Unit {0})) → Act (Unit {0})
for_each [] f = pure tt
for_each (i ∷ is) f = let rest = for_each is f in f i >> rest

abbrev pub is_complete : State → Bool
is_complete complete = true
is_complete _ = false

-- `_check_execution`
unfoldable pub check_execution : Act (Unit {0})
unfolding consult
check_execution = consult

-- `_identity_check`
unfoldable pub identity_check : ℕ → Act (Unit {0})
unfolding consult
identity_check i = consult

-- `_check_journal`, and `_require_journal`
unfoldable pub check_journal : Act (Unit {0})
unfolding ask catching
check_journal = catching as_journal (ask >>= λ same. raise_if (not same) other)

-- `_verify_physical` within another checkpoint of the file session, where it adds no check of its own
unfoldable pub verify_within : ℕ → Act (Unit {0})
unfolding ask catching
verify_within i =
    catching as_filesystem do same ← ask; λ s. raise_if (not same) (stopped filesystem s.phase) s

-- `_filesystem_checkpoint`: the root is checked before, and again after a body that returns. What these
-- checks raise leaves as it is.
abbrev pub checkpointed : Act (Unit {0}) → Act (Unit {0})
checkpointed body = do consult; body; consult

-- `_verify_physical`
unfoldable pub verify_physical : ℕ → Act (Unit {0})
unfolding verify_within consult
verify_physical i = checkpointed (verify_within i)

-- `_capture_indices`
abbrev pub capture_indices : Sequence → List ℕ
capture_indices s =
    (if not (nat_eq s.active_index 0) && elem (s.active_index - 1) s.captures
      then (s.active_index - 1) ∷ []
      else [])
    ++ (if elem s.active_index s.captures then s.active_index ∷ [] else [])

unfoldable pub check_capture : ℕ → Act (Unit {0})
unfolding identity_check verify_within
check_capture i = do
  identity_check i
  λ s. (if ltb i s.active_index then verify_within i else pure tt) s

-- `_append`
unfoldable pub append : State → Act (Unit {0})
unfolding check_execution check_capture check_journal identity_check for_each write catching consult
append state = checkpointed do
  modify (set_phase (recording state))
  check_execution
  λ s. for_each (capture_indices s) check_capture s
  check_journal
  catching as_journal do
    λ s. write (recorded s.active_index state) s
    modify (λ s. record s { history = (s.active_index, state) ∷ s.history })
    check_journal
  λ s. for_each (capture_indices s) identity_check s

-- `_require_predecessor`: five records for each action before, the last of them COMPLETE
abbrev pub incomplete : ℕ → List (ℕ × State) → Bool
incomplete active [] = true
incomplete active ((index, state) ∷ older) =
    not (nat_eq (suc (length older)) (5 * active))
    || (not (is_complete state) || not (nat_eq (index + 1) active))

unfoldable pub require_predecessor : Act (Unit {0})
unfolding check_journal consult verify_within
require_predecessor = checkpointed do
  modify (set_phase dependency_gate)
  check_journal
  λ s. raise_if (incomplete s.active_index s.history) (stopped journal s.phase) s
  modify (set_phase db_predecessor)
  consult
  modify (set_phase predecessor_identity)
  λ s. verify_within (s.active_index - 1) s
  check_journal

-- `range(from, to)`
abbrev pub range : ℕ → ℕ → List ℕ
range from zero = []
range from (suc to) = let rest = range from to in if ltb to from then [] else rest ++ (to ∷ [])

-- `_verification_indices`, among `n` actions
abbrev pub verification_indices : ℕ → ℕ → List ℕ
verification_indices n i = if nat_eq i (n - 1) then range 0 (i + 1) else range (i - 1) (i + 1)

-- `_check_prepared`
unfoldable pub check_prepared : Act (Unit {0})
unfolding consult ask
check_prepared = do consult; same ← ask; raise_if (not same) rename_rejected

-- The journal of the first action is created, and a later action has a predecessor.
abbrev pub open_journal : ℕ → Act (Unit {0})
open_journal zero = do
  modify (set_phase journal_create)
  catching as_journal (write created >> check_journal)
open_journal (suc i) = require_predecessor

-- `self._filesystem.rename`, which moves nothing for a KEEP.
abbrev pub call_rename : ManifestAction → ℕ → Act Bool
call_rename a i = if a.action == "KEEP" then ask else write (renamed i)

abbrev pub captured : ℕ → Sequence → Sequence
captured i s = record s { captures = i ∷ s.captures }

-- Up to the record that the rename is about to happen.
unfoldable pub before_rename : ℕ → Act (Unit {0})
unfolding check_execution check_prepared consult ask identity_check require_predecessor append write
    catching check_journal
before_rename i = do
  check_execution
  modify (set_phase validation)
  consult
  check_prepared
  modify (set_phase evidence_capture)
  same ← write (evidenced i)
  modify (set_phase evidence_verify)
  raise_if (not same) (stopped filesystem evidence_verify)
  consult
  modify (captured i)
  identity_check i
  open_journal i
  append pending

-- The rename, and the proof of its effect.
unfoldable pub rename_and_verify : ManifestAction → ℕ → Act (Unit {0})
unfolding identity_check append ask write catching
rename_and_verify a i = do
  modify (set_phase pre_rename_identity)
  identity_check i
  modify (set_phase rename_phase)
  durable ← call_rename a i
  raise_if (not durable) (stopped filesystem rename_phase)
  append fs_applied
  modify (set_phase verification)
  same ← catching as_filesystem ask
  raise_if (not same) (stopped filesystem verification)
  modify (set_phase identity_verification)
  identity_check i
  append fs_verified

-- The change of the database, in one transaction.
unfoldable pub update_database : List ℕ → ℕ → Act (Unit {0})
unfolding check_journal for_each verify_physical check_execution write
update_database indices i = do
  modify (set_phase db_pre_update)
  check_journal
  for_each indices verify_physical
  modify (set_phase db_update)
  check_execution
  write (updated i)
  modify (set_phase db_commit)
  check_execution
  write (committed i)
  pure tt

-- The loop over DB_RECONCILED and COMPLETE
unfoldable pub reconcile : List ℕ → State → Act (Unit {0})
unfolding consult for_each verify_physical append
reconcile indices state = do
  modify (set_phase db_verification)
  consult
  modify (set_phase identity_verification)
  for_each indices verify_physical
  append state

unfoldable pub final_verification : List ℕ → Act (Unit {0})
unfolding consult for_each verify_physical check_journal
final_verification indices = do
  modify (set_phase db_final_verification)
  consult
  modify (set_phase identity_verification)
  for_each indices verify_physical
  check_journal

-- `_run_move` of the base class
unfoldable pub run_move : ℕ → ManifestAction → ℕ → Act (Unit {0})
unfolding before_rename rename_and_verify update_database reconcile final_verification
run_move n a i = do
  before_rename i
  rename_and_verify a i
  update_database (verification_indices n i) i
  reconcile (verification_indices n i) db_reconciled
  reconcile (verification_indices n i) complete
  final_verification (verification_indices n i)

-- `_run_move`, with the pins of this action
unfoldable pub run_pinned : ℕ → ManifestAction → ℕ → Act (Unit {0})
unfolding run_move consult ask with_closing
run_pinned n a i = with_closing do
  run_move n a i
  consult
  same ← ask
  λ s. raise_if (not same) (stopped filesystem s.phase) s
  consult

abbrev pub authorize_index : ℕ → Sequence → Sequence
authorize_index i s = record s { authorized_index = some i }

abbrev pub activate : ℕ → Sequence → Sequence
activate i s = record s { active_index = i }

abbrev pub gate : ℕ → Act (Unit {0})
gate zero = pure tt
gate (suc i) = require_predecessor

-- The loop of `_execute_actions`, from an index on, among `n` actions.
unfoldable pub run_actions : ℕ → List ManifestAction → ℕ → Act (Unit {0})
unfolding require_predecessor run_pinned
run_actions n [] i = pure tt
run_actions n (a ∷ rest) i =
    let later = run_actions n rest (i + 1) in
    (modify (activate i) >> (gate i >> (modify (authorize_index i) >> (run_pinned n a i >> later))))

-- What the caller asked for: a review of what to clean up, a rescan, and scanning again after it.
pub record Scope : Type 0 where
  pub cleanup : Bool
  pub rescan : Bool
  pub resume : Bool

unfoldable pub rescan_library : Bool → Act (Unit {0})
unfolding write
rescan_library resume = do
  modify (set_phase p2c_completion)
  write rescanned
  if resume then (write scanning >> pure tt) else pure tt

-- `_execute_actions`
unfoldable pub execute_actions : Scope → List ManifestAction → Act (Unit {0})
unfolding run_actions check_journal consult for_each verify_physical rescan_library write
execute_actions scope actions = do
  run_actions (length actions) actions 0
  check_journal
  consult
  if scope.cleanup
      then (write cleaned >> pure tt)
      else for_each (range 0 (length actions)) verify_physical
  if scope.rescan then rescan_library scope.resume else pure tt
