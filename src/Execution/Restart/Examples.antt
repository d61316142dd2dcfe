-- ===== src/Execution/Restart/Examples.antt =====
-- Test: a file found at its target, as the journal says.
use anime_db.Base.{◌≡◌, refl, false, Option, some, []}
use anime_db.Execution.Manifest.{fs_applied}
use anime_db.Execution.Restart.{
  Comparison, present, absent, match, undecided, valid, JournalInspection, inspect_scratch_action,
}
use anime_db.Execution.Restart.Consistent.{IsConsistent, contradictions-IsConsistent}

abbrev journal : JournalInspection
journal = record { status = valid; entries = []; last_action_phase = some fs_applied }

abbrev source : Option Comparison
source = some (record { presence = absent; content = undecided; filesystem = undecided })

abbrev target : Option Comparison
target = some (record { presence = present; content = match; filesystem = match })

consistent : (inspect_scratch_action false journal valid source target).contradictions ≡ []
unfolding inspect_scratch_action
consistent = refl

contradictions-IsConsistent_example : IsConsistent false journal source target
contradictions-IsConsistent_example =
    contradictions-IsConsistent false journal valid source target consistent
