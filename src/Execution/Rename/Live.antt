-- ===== src/Execution/Rename/Live.antt =====
-- A rename on a tree in order, where no call to the system fails, moves the file.
use anime_db.Base.{
  ℕ, ◌≡◌, refl, sym, ap, Bool, true, false, none, some, [], any, ok, Result, if◌then◌else◌,
  nat_eq_iff, ◌==◌, String_eq, ℕ_eq,
}
use mathlib.Core.Path.{subst}
use anime_db.Execution.Rename.Moves.{Moved}
use anime_db.Base.Effects.{Returns, chain, Returns-raise_if, Returns-modify, Returns-pure, raise_if}
use anime_db.Execution.Paths.{split}
use anime_db.Execution.Platform.{Platform}
use anime_db.Execution.Manifest.{ManifestAction, ExecutionManifest}
use anime_db.Execution.Rename.Files.{Exn, RenameState, Session, Disk, Act, lookup}
use anime_db.Execution.Rename.Checks.{Host, file_name, directories_of, validate_scratch_action}
use anime_db.Execution.Rename.{RenameResult, rename, key_eq, attempt_rename, closing, handled}
use anime_db.Execution.Rename.Unhindered.{
  InOrder, Expected, unsafe, step-Returns, check_root-Returns, parent-Returns,
  parent_binding-Returns, named-Returns, absent-Returns, check_fd-Returns, check_source-Returns,
  locator-Returns,
}
use anime_db.Execution.Rename.Applied.{apply_rename-Returns}

module _ (pf : Platform) (host : Host) where
  -- The file of the action is where it says, as it expects, with nothing at its target.
  pub record Placed (a : ManifestAction) (d : Disk) : Type 0 where
    pub moves : (a.action == "KEEP") ≡ false
    pub source_safe : unsafe pf host a.source ≡ false
    pub target_safe : unsafe pf host a.target ≡ false
    pub source_parent : ℕ
    pub target_parent : ℕ
    pub inode : ℕ
    pub source_directory : host.directory (directories_of (split a.source)) ≡ some source_parent
    pub target_directory : host.directory (directories_of (split a.target)) ≡ some target_parent
    pub found : lookup (source_parent, file_name (split a.source)) d.entries ≡ some inode
    pub free : lookup (target_parent, file_name (split a.target)) d.entries ≡ none
    pub file : Expected host a inode

  -- A request that a session has no reason to refuse: it is open, and the action is valid and new to it.
  pub record Ready (m : ExecutionManifest) (a : ManifestAction) (s : RenameState) : Type 0 where
    pub quiet : s.answers ≡ []
    pub usable : s.session.poisoned ≡ false
    pub live : s.session.closed ≡ false
    pub first : any (key_eq (m.manifest_id, a.action_id)) s.session.attempted_keys ≡ false
    pub valid : validate_scratch_action pf host m a s ≡ (ok tt, s)
    pub placed : Placed a s.disk

  -- The file has left its place for the target, and every other entry is as it was.
  abbrev pub Moves : {a : ManifestAction} {d : Disk} → Placed a d → RenameState → Type 0
  Moves {a} {d} p t =
      Moved (p.source_parent, file_name (split a.source))
        (p.target_parent, file_name (split a.target)) p.inode d.entries t.disk.entries

  module _ (m : ExecutionManifest) (a : ManifestAction) (root : InOrder host) where
    abbrev pub moved_result : RenameResult
    moved_result = record {
      manifest_id = m.manifest_id;
      action_id = a.action_id;
      outcome = "DURABLE";
      syscall_succeeded = true;
      durability_confirmed = true;
    }

    if_moves :
        {A : Type 0} (x y : Act A) (s s' : RenameState) (r : A)
        → (a.action == "KEEP") ≡ false
        → Returns y s r s'
        → Returns (if a.action == "KEEP" then x else y) s r s'
    if_moves x y s s' r moves h = record { is = rw moves h.is }

    attempt_rename-Returns :
        (s : RenameState) (quiet : s.answers ≡ []) (ready : Placed a s.disk)
        → (t : RenameState) × Returns (attempt_rename pf host m a none) s moved_result t
          × (t.answers ≡ [])
          × Moves ready t
    unfolding attempt_rename
    attempt_rename-Returns s quiet ready =
        let sp = ready.source_parent in
        let tp = ready.target_parent in
        let fd = ready.inode in
        let file = ready.file in
        let at_source = ready.source_directory in
        let at_target = ready.target_directory in
        let (t, renamed, quiet', move) =
          apply_rename-Returns pf host m a sp tp fd root file at_source at_target s quiet
            ready.found ready.free in
        (
          t,
          chain _ (check_root-Returns pf host s quiet root false) (
              chain _ (locator-Returns pf host s a.source ready.source_safe) (
                chain _ (locator-Returns pf host s a.target ready.target_safe) (
                  chain _ (parent-Returns pf host s quiet (split a.source) sp at_source) (
                    chain _ (parent-Returns pf host s quiet (split a.target) tp at_target) (
                      chain _
                        (named-Returns pf host s quiet (sp, file_name (split a.source)) fd
                          ready.found)
                        (chain _ (check_fd-Returns pf host s quiet a fd file) (
                          chain _
                            (check_source-Returns pf host s quiet a fd file
                              (sp, file_name (split a.source)) none refl ready.found)
                            (chain _
                              (if_moves _ _ s s tt ready.moves (
                                absent-Returns pf host s quiet (tp, file_name (split a.target))
                                  ready.free))
                              (chain _ (check_root-Returns pf host s quiet root false) (
                                chain _
                                  (parent_binding-Returns pf host s quiet (split a.source) sp
                                    at_source)
                                  (chain _
                                    (parent_binding-Returns pf host s quiet (split a.target) tp
                                      at_target)
                                    (chain _
                                      (check_source-Returns pf host s quiet a fd file
                                        (sp, file_name (split a.source)) (some fd)
                                        (rw ((nat_eq_iff fd fd).1 refl) refl) ready.found)
                                      (chain _ Returns-pure
                                        (if_moves _ _ s t _ ready.moves renamed)))))))))))))),
          quiet',
          move,
        )

    closing-Returns :
        (body : Act RenameResult) (s t : RenameState) (r : RenameResult)
        → Returns body s r t
        → t.answers ≡ []
        → closing pf host body s ≡ (ok r, t)
    unfolding closing
    closing-Returns body s t r h quiet = rw (h.is, (step-Returns pf host t quiet).is) refl

    test-Returns :
        (test : Session → Bool) (e : Exn) (s : RenameState)
        → test s.session ≡ false
        → Returns (λ s. raise_if (test s.session) e s) s tt s
    test-Returns test e s h = record { is = rw h ((Returns-raise_if e refl).is) }

    rename-completes :
        (s : RenameState) (ready : Ready m a s)
        → (t : RenameState) × Returns (rename pf host true m a none) s moved_result t
          × Moves ready.placed t
    unfolding rename
    rename-completes s ready =
        let started : RenameState = record s { attempted = false; succeeded = false } in
        let (t, attempt, quiet, move) = attempt_rename-Returns started ready.quiet ready.placed in
        let closed = closing-Returns (attempt_rename pf host m a none) started t _ attempt quiet in
        (
          t,
          chain _ (Returns-raise_if _ refl) (
              chain _ (test-Returns (λ z. z.poisoned) _ s ready.usable) (
                chain _ (test-Returns (λ z. z.closed) _ s ready.live) (
                  chain _ (record { is = ready.valid })
                    (chain _
                      (test-Returns
                        (λ z. any (key_eq (m.manifest_id, a.action_id)) z.attempted_keys) _ s
                        ready.first)
                      (chain _ (Returns-modify _)
                        (record { is = ap (handled pf host) closed })))))),
          move,
        )

    -- On a root in order, where no call fails, an open session moves the file of a valid action that
    -- is new to it from its place to the target, leaves every other entry as it was, and says so.
    pub rename-Returns :
        (s : RenameState) (ready : Ready m a s)
        → ((rename pf host true m a none s).0 ≡ ok moved_result)
          × Moves ready.placed (rename pf host true m a none s).1
    rename-Returns s ready =
        let (t, h, move) = rename-completes s ready in
        (
          ap (λ (r : Result Exn RenameResult × RenameState). r.0) h.is,
          subst (λ (r : Result Exn RenameResult × RenameState). Moves ready.placed r.1) (sym h.is)
              move,
        )
