-- ===== src/Execution/Sequence/Examples.antt =====
-- Executions of one and of two actions: undisturbed, stopped by a signal, and refused afterwards.
use anime_db.Base.{ℕ, zero, suc, ◌≡◌, refl, true, false, none, List, [], ◌∷◌, ◌++◌, ok, err}
use anime_db.Base.Effects.{Outcome, ◌>>=◌, pure, raise, raise_if, modify}
use anime_db.Execution.Manifest.{pending, fs_applied, fs_verified, db_reconciled, complete}
use anime_db.Execution.Journal.Examples.Scenario.{film, subtitle}
use anime_db.Execution.Sequence.Stages.{
  stopped, plain, rename_rejected, other, validation, recording, Event, guarded, directories_made,
  evidenced, created, recorded, renamed, updated, committed, cleaned, rescanned, scanning, Answer,
  fine, raises, applied, Sequence,
}
use anime_db.Execution.Sequence.{Scope}
use anime_db.Execution.Sequence.Owner.{execute_once}
use anime_db.Execution.Sequence.Ahead.{plan}
use anime_db.Execution.Sequence.Once.{
  Call, after_calls, owner_plan, execute_once-in_order, after_calls-once,
}
use anime_db.Execution.Sequence.Live.{execute_once-completes}
use anime_db.Execution.Sequence.Stops.{Repeats, execute_once-Repeats}

abbrev fresh : Sequence
fresh = record {
  phase = validation;
  active_index = 0;
  authorized_index = none;
  spent = false;
  closed = false;
  history = [];
  captures = [];
  stop_class = plain;
  log = [];
  answers = [];
}

abbrev whole : Scope
whole = record { cleanup = true; rescan = true; resume = true }

film_plan :
    plan whole (film ∷ [])
    ≡ guarded
      ∷ directories_made
      ∷ evidenced 0
      ∷ created
      ∷ recorded 0 pending
      ∷ renamed 0
      ∷ recorded 0 fs_applied
      ∷ recorded 0 fs_verified
      ∷ updated 0
      ∷ committed 0
      ∷ recorded 0 db_reconciled
      ∷ recorded 0 complete
      ∷ cleaned
      ∷ rescanned
      ∷ scanning
      ∷ []
film_plan = refl

execute_once-completes_example :
    ((execute_once true whole (film ∷ subtitle ∷ []) fresh).0 ≡ ok tt)
    × ((execute_once true whole (film ∷ subtitle ∷ []) fresh).1.log
        ≡ plan whole (film ∷ subtitle ∷ []))
execute_once-completes_example =
    execute_once-completes whole (film ∷ subtitle ∷ []) fresh refl refl refl

abbrev answered : ℕ → List Answer → List Answer
answered zero rest = rest
answered (suc n) rest = fine ∷ answered n rest

-- Thirty answers as expected, up to the check that follows the rename, and then this one.
abbrev stopping_at : Answer → Sequence
stopping_at a = record fresh { answers = answered 30 (a ∷ []) }

execute_once-in_order_example :
    Outcome
      (λ _ t. t.log ≡ plan whole (film ∷ []))
      (λ _ t. (rest : List Event) × (plan whole (film ∷ []) ≡ t.log ++ rest))
      (execute_once true whole (film ∷ []) (stopping_at (applied other)))
execute_once-in_order_example =
    execute_once-in_order whole (film ∷ []) (stopping_at (applied other)) true

abbrev calls : List Call
calls =
    record { same_process = false; scope = whole; actions = subtitle ∷ [] }
    ∷ record { same_process = true; scope = whole; actions = film ∷ [] }
    ∷ record { same_process = true; scope = whole; actions = film ∷ subtitle ∷ [] }
    ∷ []

after_calls-once_example :
    (rest : List Event) × (owner_plan calls
      ≡ (after_calls calls (stopping_at (applied other))).log ++ rest)
after_calls-once_example = after_calls-once calls (stopping_at (applied other))

execute_once-Repeats_example :
    Outcome
      (λ _ t. execute_once true whole (film ∷ []) t ≡ (err (stopped t.stop_class t.phase), t))
      (λ e t. Repeats e t (execute_once true whole (film ∷ []) t))
      (execute_once true whole (film ∷ []) (stopping_at (raises other)))
execute_once-Repeats_example =
    execute_once-Repeats whole whole (film ∷ []) (film ∷ []) (stopping_at (raises other))

-- A rejection by a check after the rename, before the journal has it: a stop that asks for no
-- reconciliation.
late_rejection :
    (execute_once true whole (film ∷ []) (stopping_at (raises rename_rejected))).0
    ≡ err (stopped plain (recording fs_applied))
unfolding execute_once ◌>>=◌ pure raise raise_if modify
late_rejection = refl

late_log :
    (execute_once true whole (film ∷ []) (stopping_at (raises rename_rejected))).1.log
    ≡ guarded ∷ directories_made ∷ evidenced 0 ∷ created ∷ recorded 0 pending ∷ renamed 0 ∷ []
unfolding execute_once ◌>>=◌ pure raise raise_if modify
late_log = refl
