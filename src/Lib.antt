-- ===== src/Lib.antt =====
-- Verification of AnimeDB, a catalogue of an anime library that also reorganises the library's files.
--
-- A reorganisation is planned, sealed as an execution manifest, checked once more by a preflight, and
-- then carried out action by action under a maintenance lease, every step recorded in a durable
-- journal first. The parts modelled here are the ones that make this safe:
--
--   Execution/Manifest, its Derived and Validate: the dataclasses and `_validate_manifest` of
--     app/target_execution_manifest.py; Validate/Accepted says what a valid manifest guarantees.
--     Execution/Manifest/Graph is `_graph_report`.
--   Execution/Paths, Execution/Platform: locators as text (app/target_planner.py), and what the code
--     takes from Python and the host.
--   Execution/Criticality: `_base_criticality` and `_criticality` of the same file.
--   Execution/Preflight: `preflight_execution_manifest` (Preflight, Preflight/Namespace) and
--     `_runtime_checks` (Preflight/Runtime). The planner, the builder of the reference manifest and the
--     state of the backup file are the record `Outside`.
--   Execution/Journal: `_validate_entry` and `can_continue_after_failure`, that is, which entry may
--     follow a history. Journal/Admission inverts these rules, Journal/Lifecycle draws the conclusions.
--   Execution/Journal/History: `_frame` and `_read_history` of app/target_execution_journal.py over
--     the bytes of a file; Journal/Loading is `load_journal`.
--   Execution/Journal/Writer: `DurableJournal`, its fields as the record `Writer`, its methods as
--     functions of the writer, the file and the answers of the kernel.
--   Execution/Rename: `rename` of `ScratchRenameSession` in app/target_execution_filesystem.py, as an
--     effect on the session and on the directory entries; Rename/Checks are its checks. Rename/Outcomes
--     and Rename/Once say how a call ends, Rename/Runs speaks of many calls, Rename/Live of a tree in
--     order.
--   Execution/Sequence: `_ExecutionSequence` and `ScratchManifestExecution` of
--     app/target_execution_sequence.py, with Sequence/Owner for `_execute_once` and `_finish`. The parts
--     that it calls answer as the environment decides; `Event` lists what is written, but for
--     the line STOP that `_finish` may append to the guard.
--   Execution/Rollback: `rollback_scratch_video_move` of app/target_execution_rollback.py on
--     Execution/World, which is a state with the changes made and the answers to come.
--   Execution/Mounts: `_check_mounts` and `_check_production_mount` of
--     app/target_execution_mounts.py.
--   Execution/Restart: the verdict of `inspect_scratch_action` of
--     app/target_execution_reconciliation.py, which a restart is told.
--   Maintenance: `_Lease`, `_BorrowedLease` and `_acquire` of app/maintenance.py on one lock file.
--   Hierarchy/Authority, Hierarchy/Seasons: app/hierarchy_authority.py, with the effective values of
--     `CatalogTitle` of app/models.py.
--   Media/Duplicates, Media/Parts: `duplicate_relation_state` of app/numbering.py, and
--     app/media_parts.py.
--   Naming: app/canonical_filename.py (Naming/Canonical) and app/physical_naming_formatters.py
--     (Naming/Formatters), on texts as lists of code points; Naming/RoundTrip and Naming/Ambiguous say
--     how printed names are read.
--   Titles: `TitleLocatorIndex` of app/title_identity.py, on dictionaries as association lists
--     (Base/Dict).
--   Base holds the shared helpers; the modules called Examples hold the tests.
--
-- Effects. Base/Effects is a state with exceptions, where what was written before a raise stays
-- written, and the rules by which a postcondition is shown for a value and another for a raise.
--
-- Conventions. A history stands newest entry first, so that `history[-1]` is its head. An exception is
-- the error of a `Result`; an operation that mutates returns the new state beside its answer, also when
-- it raises. Numbers that Python keeps non-negative are ℕ, others ℤ. JSON with hashing is the parameter
-- `Codec`, of which `CodecLaws` asks that canonical JSON is one line and loads as what was dumped; a
-- concrete codec with these laws is in Execution/Journal/Examples/Frames. Hashes are not assumed to be
-- free of collisions.
--
-- Fuel. The walks along moves take one step more than there are moves (Preflight/Cycles and
-- Preflight/GraphCycles show that this is enough). The walk up the mounts has one step more than there
-- are mounts, and each step meets a new mount identity. `write_all` recurs on the kernel's answers: a
-- process that gets no further answer has stopped inside the call.
--
-- Not modelled: the parts of the program that only read or write files, databases and web pages, the
-- planner behind its interface, the parsing of the mount table, the fork handlers of the leases, and
-- threads within one process, whose operations the code runs under a mutex.
pub mod Base
pub mod Execution
pub mod Hierarchy
pub mod Maintenance
pub mod Media
pub mod Naming
pub mod Titles
