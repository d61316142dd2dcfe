-- ===== src/Execution/Rename/Applied.antt =====
-- The rename itself and its barriers return, where no call to the system fails.
use anime_db.Base.{
  ℕ, ◌≡◌, refl, sym, true, none, some, [], ◌∷◌, if◌then◌else◌, nat_eq, nat_eq_iff, String_eq, ℕ_eq,
  Bool-cases, inl, inr,
}
use mathlib.Core.Path.{subst}
use anime_db.Base.Effects.{Returns, chain, Returns-modify, Returns-pure, pure}
use anime_db.Execution.Paths.{split}
use anime_db.Execution.Platform.{Platform}
use anime_db.Execution.Manifest.{ManifestAction, ExecutionManifest}
use anime_db.Execution.Rename.Files.{
  Location, RenameState, Disk, lookup, rename_noreplace, renameat2, place_at, fsync,
}
use anime_db.Execution.Rename.Checks.{Host, file_name, directories_of}
use anime_db.Execution.Rename.Moves.{Moved, placed-Moved}
use anime_db.Execution.Rename.Durable.{durable}
use anime_db.Execution.Rename.{mark_attempted, apply_rename, try_rename, verify_applied}
use anime_db.Execution.Rename.Unhindered.{
  InOrder, Expected, check_root-Returns, parent_binding-Returns, absent-Returns, fsync-Returns,
  check_source-Returns,
}

module _ (pf : Platform) (host : Host) where
  module _ (m : ExecutionManifest) (a : ManifestAction) (sp tp fd : ℕ) (root : InOrder host)
      (file : Expected host a fd)
      (source_directory : host.directory (directories_of (split a.source)) ≡ some sp)
      (target_directory : host.directory (directories_of (split a.target)) ≡ some tp) where
    abbrev pub source : Location
    source = (sp, file_name (split a.source))

    abbrev pub target : Location
    target = (tp, file_name (split a.target))

    verify_applied-Returns :
        (s : RenameState)
        → s.answers ≡ []
        → lookup source s.disk.entries ≡ none
        → lookup target s.disk.entries ≡ some fd
        → Returns (verify_applied pf host a (split a.source) (split a.target) fd sp tp) s tt s
    unfolding verify_applied
    verify_applied-Returns s quiet gone arrived =
        chain _ (check_root-Returns pf host s quiet root true) (
          chain _ (parent_binding-Returns pf host s quiet (split a.source) sp source_directory) (
            chain _ (parent_binding-Returns pf host s quiet (split a.target) tp target_directory) (
              chain _ (absent-Returns pf host s quiet source gone) (
                check_source-Returns pf host s quiet a fd file target (some fd)
                  (rw ((nat_eq_iff fd fd).1 refl) refl) arrived))))

    try_rename-Returns :
        (s : RenameState)
        → s.answers ≡ []
        → lookup source s.disk.entries ≡ some fd
        → lookup target s.disk.entries ≡ none
        → Returns
            (try_rename pf host a (split a.source) (split a.target) fd sp tp)
            s
            tt
            (record s { disk = (place_at source target (some fd) none s.disk).1 })
    unfolding try_rename rename_noreplace renameat2 pure
    try_rename-Returns s quiet found free = record { is = rw (quiet, free, found) refl }

    source_sync-Returns :
        (s : RenameState)
        → s.answers ≡ []
        → (t : RenameState) × Returns (if nat_eq sp tp then pure tt else fsync sp) s tt t
          × (t.answers ≡ [])
          × (t.disk.entries ≡ s.disk.entries)
    source_sync-Returns s quiet = elim (Bool-cases (nat_eq sp tp)) [
      | inl one ↦ (s, record { is = rw one (Returns-pure.is) }, quiet, refl)
      | inr two ↦ (
        record s { disk = record s.disk { synced = sp ∷ s.disk.synced } },
        record { is = rw two ((fsync-Returns pf host s quiet sp).is) },
        quiet,
        refl,
      )
    ]

    pub apply_rename-Returns :
        (s : RenameState)
        → s.answers ≡ []
        → lookup source s.disk.entries ≡ some fd
        → lookup target s.disk.entries ≡ none
        → (t : RenameState) × Returns
            (apply_rename pf host m a (split a.source) (split a.target) fd sp tp)
            s
            (durable pf host s a m (split a.source) (split a.target) fd sp tp)
            t
          × (t.answers ≡ [])
          × Moved source target fd s.disk.entries t.disk.entries
    unfolding apply_rename
    apply_rename-Returns s quiet found free =
        let move = placed-Moved source target fd s.disk found free in
        let moved : Disk = (place_at source target (some fd) none s.disk).1 in
        let synced : RenameState = record (mark_attempted pf host (m.manifest_id, a.action_id) s) {
          succeeded = true;
          disk = record moved { synced = tp ∷ fd ∷ [] };
        } in
        let (t, same, quiet', entries) = source_sync-Returns synced quiet in
        (
          t,
          chain _ (check_root-Returns pf host s quiet root true) (
              chain _ (Returns-modify _) (
                chain _ (try_rename-Returns _ quiet found free) (
                  chain _ (Returns-modify _) (
                    chain _ (verify_applied-Returns _ quiet move.gone move.arrived) (
                      chain _ (fsync-Returns pf host _ quiet fd) (
                        chain _ (fsync-Returns pf host _ quiet tp) (
                          chain _ same (
                            chain _
                              (verify_applied-Returns t quiet' (rw entries move.gone)
                                (rw entries move.arrived))
                              Returns-pure)))))))),
          quiet',
          subst (Moved source target fd s.disk.entries) (sym entries) move,
        )
