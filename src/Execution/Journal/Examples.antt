-- ===== src/Execution/Journal/Examples.antt =====
-- Tests: each theorem about the journal at a concrete run.
pub mod Wire
pub mod Frames
pub mod Scenario
pub mod Files
use mathlib.Core.Path.{sym}
use anime_db.Base.{
  ℕ, zero, suc, ◌*◌, ◌≤◌, String, ◌≡◌, ◌≢◌, refl, ◌⊎◌, inl, inr, Bool, true, false, Option, none,
  some, List, [], ◌∷◌, ◌++◌, length, Result, ok, err, arith,
}
use anime_db.Execution.Manifest.{
  pending, fs_applied, fs_verified, db_reconciled, failed, complete, JournalEntry,
}
use anime_db.Execution.Journal.{validate_entry}
use anime_db.Execution.Journal.Lifecycle
use anime_db.Execution.Journal.Lifecycle.{Admitted, empty}
use anime_db.Execution.Journal.Lifecycle.Bounds.{length-le-five_actions}
use anime_db.Execution.Journal.Lifecycle.Settled.{Settled, Admitted-Settled}
use anime_db.Execution.Journal.Lifecycle.Stops.{failure_stops}
use anime_db.Execution.Journal.Lifecycle.Phases.{FullRun, complete-FullRun}
use anime_db.Execution.Journal.Lifecycle.Dependencies.{Ready, Admitted-Ready}
use anime_db.Execution.Journal.History.{read_history}
use anime_db.Execution.Journal.History.Soundness.{read_history-Admitted}
use anime_db.Execution.Journal.Writer.{Disk, Outcome, Writer}
use anime_db.Execution.Journal.Writer.Appending.{Explained, append-Explained}
use anime_db.Execution.Journal.Writer.Roundtrip.{Session, Session-read_history}
use anime_db.Execution.Journal.Writer.Steps.{
  Step, appends, Reachable, fresh, stepped, Sound, Reachable-Sound,
}
use anime_db.Execution.Journal.Examples.Frames.{codec, codec_laws}
use anime_db.Execution.Journal.Examples.Files.{
  session, kernel, first, second, third, creation, new_file, created_ok,
}
use anime_db.Execution.Journal.Examples.Scenario.{
  host, manifest, entry, film_at, extra_history, film_history, subtitle_pending, extra_admitted,
  film_admitted, run_admitted, film,
}

-- The history before the second action is complete.
abbrev film_run : List JournalEntry
film_run =
    film_at db_reconciled
    ∷ film_at fs_verified
    ∷ film_at fs_applied
    ∷ film_at pending
    ∷ extra_history

length-le-five_actions_example : length (subtitle_pending ∷ film_history) ≤ 15
length-le-five_actions_example = length-le-five_actions host manifest _ _ run_admitted

Admitted-Settled_example : Settled manifest film_history 0
Admitted-Settled_example =
    Admitted-Settled host manifest subtitle_pending film_history _ 0 run_admitted (omega arith)

complete-FullRun_example : FullRun host manifest 1 film_run
complete-FullRun_example =
    complete-FullRun host manifest (film_at complete) film_run ("c/film" ∷ []) film_admitted refl

Admitted-Ready_example : Ready manifest subtitle_pending film_history
Admitted-Ready_example = Admitted-Ready host manifest subtitle_pending film_history _ run_admitted

abbrev film_failed : JournalEntry
film_failed = record (film_at failed) { failure_code = some "EIO" }

failure_stops_example :
    validate_entry host manifest (film_failed ∷ film_at pending ∷ extra_history) [] subtitle_pending
    ≢ ok tt
failure_stops_example =
    failure_stops host manifest film_failed (film_at pending ∷ extra_history) [] subtitle_pending
      refl (inl (film, refl, refl))

Session-read_history_example : read_history host codec manifest third.2.content ≡ ok third.1.entries
Session-read_history_example =
    Session-read_history host codec codec_laws manifest third.1 third.2 session

read_history-Admitted_example : (c : List String) × Admitted host manifest third.1.entries c
read_history-Admitted_example =
    read_history-Admitted host codec manifest third.2.content third.1.entries
      (Session-read_history host codec codec_laws manifest third.1 third.2 session)

append-Explained_example :
    Explained host codec kernel first.0 (entry "a/extra" 0 pending) first.1 second
append-Explained_example =
    append-Explained host codec kernel first.0 (entry "a/extra" 0 pending) first.1

Reachable-Sound_example : Sound host manifest second.1
Reachable-Sound_example = Reachable-Sound host codec manifest second.1 (
    stepped (fresh creation first.0 (some first.1) created_ok) first.1 second
      (appends kernel (entry "a/extra" 0 pending)))

abbrev poisoned_writer : Writer
poisoned_writer = record first.0 { poisoned = true }
