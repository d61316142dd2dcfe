-- ===== src/Execution/Sequence/Stages.antt =====
-- The state of a sequential execution, app/target_execution_sequence.py, and its calls of the other
-- parts, whose answers the environment decides.
use anime_db.Base.{ℕ, Bool, true, false, Option, List, [], ◌∷◌, ◌++◌, Result, ok, err}
use anime_db.Base.Effects.{Effect, ◌>>◌, pure}
use anime_db.Execution.Manifest.{State}

-- `ScratchCoordinationStopped` and its three subclasses, which require reconciliation
pub data Category : Type 0 where
  plain filesystem journal database : Category

pub data Phase : Type 0 where
  validation db_validation preflight execution_guard : Phase
  evidence_capture evidence_verify journal_create pre_rename_identity rename_phase : Phase
  recording : State → Phase
  verification identity_verification db_pre_update db_update db_commit db_verification : Phase
  db_final_verification dependency_gate db_predecessor predecessor_identity p2c_completion close :
      Phase

-- A stop, `RenameRejected` and its subclass, `IdentityEvidenceReconciliationRequired`, another
-- `Exception`, and `KeyboardInterrupt` or `SystemExit`.
pub data Exn : Type 0 where
  stopped : Category → Phase → Exn
  rename_rejected rename_reconciliation identity_reconciliation other interrupt : Exn

-- What an execution writes, in the order of the changes: its guard, the directories of the targets and
-- the identity evidence of each action; the journal, the media files, the database; what is cleaned up,
-- and the rescan. A call that makes several such changes counts as one. The line STOP that `_finish`
-- may append to a guard which has let scanning begin again is not among them.
pub data Event : Type 0 where
  guarded directories_made : Event
  evidenced : ℕ → Event
  created : Event
  recorded : ℕ → State → Event
  renamed updated committed : ℕ → Event
  cleaned rescanned scanning : Event

-- The answer to a call: as expected, a value that differs, an exception, or an exception although the
-- call took effect.
pub data Answer : Type 0 where
  fine differs : Answer
  raises applied : Exn → Answer

pub record Sequence : Type 0 where
  pub phase : Phase
  pub active_index : ℕ
  pub authorized_index : Option ℕ
  pub spent : Bool
  pub closed : Bool
  -- newest first
  pub history : List (ℕ × State)
  pub captures : List ℕ
  pub stop_class : Category
  pub log : List Event
  pub answers : List Answer

abbrev pub Act : Type 0 → Type 0
Act A = Effect Exn Sequence A

abbrev pub reply : List Answer → Act Bool
reply [] s = (ok true, s)
reply (fine ∷ rest) s = (ok true, record s { answers = rest })
reply (differs ∷ rest) s = (ok false, record s { answers = rest })
reply (raises e ∷ rest) s = (err e, record s { answers = rest })
reply (applied e ∷ rest) s = (err e, record s { answers = rest })

-- A call that changes nothing outside, and whether what it returns is as expected.
unfoldable pub ask : Act Bool
ask s = reply s.answers s

-- The same where nothing is compared.
unfoldable pub consult : Act (Unit {0})
unfolding ask
consult = ask >> pure tt

abbrev pub logged : Event → Sequence → Sequence
logged e s = record s { log = s.log ++ (e ∷ []) }

abbrev pub perform : Event → List Answer → Act Bool
perform v [] s = (ok true, logged v s)
perform v (fine ∷ rest) s = (ok true, logged v (record s { answers = rest }))
perform v (differs ∷ rest) s = (ok false, logged v (record s { answers = rest }))
perform v (raises e ∷ rest) s = (err e, record s { answers = rest })
perform v (applied e ∷ rest) s = (err e, logged v (record s { answers = rest }))

-- A call that makes a change.
unfoldable pub write : Event → Act Bool
write v s = perform v s.answers s

abbrev pub relabelled :
    {A : Type 0} → (Phase → Exn → Exn) → Result Exn A × Sequence → Result Exn A × Sequence
relabelled f (ok a, s) = (ok a, s)
relabelled f (err e, s) = (err (f s.phase e), s)

-- `try: … except Exception as exc: raise … from exc`
unfoldable pub catching : {A : Type 0} → (Phase → Exn → Exn) → Act A → Act A
catching f m s = relabelled f (m s)

abbrev pub as_journal : Phase → Exn → Exn
as_journal phase interrupt = interrupt
as_journal phase e = stopped journal phase

-- `except ScratchCoordinationStopped: raise` stands before this one.
abbrev pub as_filesystem : Phase → Exn → Exn
as_filesystem phase interrupt = interrupt
as_filesystem phase (stopped c p) = stopped c p
as_filesystem phase e = stopped filesystem phase

abbrev pub set_phase : Phase → Sequence → Sequence
set_phase phase s = record s { phase = phase }

-- `ExitStack`: an exception on closing takes the place of one that is under way.
abbrev pub after_closing : {A : Type 0} → Result Exn A → Result Exn Bool → Result Exn A
after_closing r (err e) = err e
after_closing r (ok b) = r

unfoldable pub with_closing : {A : Type 0} → Act A → Act A
unfolding ask
with_closing body s = let (r, s') = body s in let (c, s'') = ask s' in (after_closing r c, s'')
