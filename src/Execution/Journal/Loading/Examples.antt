-- ===== src/Execution/Journal/Loading/Examples.antt =====
-- Test: the journal of the examples' session is loaded.
use anime_db.Base.{◌≡◌, refl, true, some, [], ok}
use anime_db.Execution.Manifest.Validate.{validate_manifest}
use anime_db.Execution.Journal.History.{
  frame, header_of, read_history, read_line, decode_line, read_body,
}
use anime_db.Execution.Journal.Examples.Wire.{char_at}
use anime_db.Execution.Journal.Loading.{
  JournalSnapshot, Inspection, Inspected, load_journal, load_journal-Inspected,
}
use anime_db.Execution.Journal.Writer.{check_file, write_all}
use anime_db.Execution.Journal.Writer.Creating.{create, create_write}
use anime_db.Execution.Journal.Examples.Frames.{codec}
use anime_db.Execution.Journal.Examples.Scenario.{host, manifest}
use anime_db.Execution.Journal.Examples.Files.{kernel, first}

abbrev inspection : Inspection
inspection = record { kernel = kernel; parent_opened = true; file = some first.1; locked = true }

abbrev snapshot : JournalSnapshot
snapshot = record { manifest_id = "manifest"; entries = []; reconciliation_required = true }

loaded : load_journal host codec inspection manifest ≡ ok snapshot
unfolding load_journal header_of read_history check_file create create_write write_all frame codec
    validate_manifest read_line decode_line read_body char_at
loaded = refl

load_journal-Inspected_example : Inspected host codec manifest snapshot
load_journal-Inspected_example =
    load_journal-Inspected host codec inspection manifest snapshot loaded
