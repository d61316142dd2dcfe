-- ===== src/Execution/Rename/Syscall.antt =====
-- The syscall of a rename, and what is concluded from its errors.
use anime_db.Base.{
  ℕ, String, ◌≡◌, refl, ◌∙◌, ◌⊎◌, inl, inr, Bool, true, false, some, List, [], ◌∷◌, elem, ok, err,
  Result, Bool-cases, ℕ_eq,
}
use mathlib.Core.Path.{subst}
use anime_db.Base.Effects.{
  Ensures, Outcome, ◌>>=◌, ◌>>◌, raise, raise_if, modify, pure, bind, bind_keep, weaken,
}
use anime_db.Execution.Platform.{Platform}
use anime_db.Execution.Manifest.{ManifestAction}
use anime_db.Execution.Rename.Files.{
  Location, Exn, Answer, Session, RenameState, Disk, fine, raises, applied, lookup,
  rename_noreplace, call_rename, renamed, renameat2, known_rejections, os_error, rejected,
  reconciliation, value_error, interrupt,
}
use anime_db.Execution.Rename.Checks.{Host, file_name}
use anime_db.Execution.Rename.Moves.{SomeMove, renameat2-Moved}
use anime_db.Execution.Rename.Keeps.{
  step-Keeps, check_root-Keeps, parent_binding-Keeps, check_source-Keeps,
}
use anime_db.Execution.Rename.{known_rejection, handle_syscall, try_rename}

abbrev pub with_key : String × String → Session → Session
with_key key session = record session { attempted_keys = key ∷ session.attempted_keys }

module _ (before : RenameState) (key : String × String) where
  -- The session has lost nothing, and has learned of this key at most.
  abbrev pub Grown : RenameState → Type 0
  Grown s = (s.session ≡ before.session) ⊎ (s.session ≡ with_key key before.session)

  -- Where the block raises: the syscall was attempted, or the files are as they were.
  abbrev pub Stopped : Exn → RenameState → Type 0
  Stopped e s = Grown s × ((s.attempted ≡ true) ⊎ ((s.attempted ≡ false) × (s.disk ≡ before.disk)))

  abbrev pub Marked : RenameState → Type 0
  Marked s =
      (s.attempted ≡ true) × (s.session ≡ with_key key before.session) × (s.disk ≡ before.disk)

  module _ (source target : Location) where
    abbrev pub Applied : RenameState → Type 0
    Applied s = (s.disk ≡ before.disk) ⊎ SomeMove source target before.disk s.disk

    abbrev pub Called : RenameState → Type 0
    Called s = (s.attempted ≡ true) × (s.session ≡ with_key key before.session) × Applied s

    abbrev pub Done : RenameState → Type 0
    Done s =
        (s.attempted ≡ true)
        × (s.session ≡ with_key key before.session)
        × SomeMove source target before.disk s.disk

    moved_from :
        (d : Disk) (r : Result Exn (Unit {0}) × Disk) (s : RenameState)
        → d ≡ before.disk
        → Outcome (λ _ d'. SomeMove source target d d') (λ _ d'. d' ≡ d) r
        → (s.attempted ≡ true) × (s.session ≡ with_key key before.session)
        → Outcome (λ _. Done) (λ _. Called) (renamed r s)
    moved_from d (ok _, d') s is moved (a, k) =
        (a, k, subst (λ z. SomeMove source target z d') is moved)
    moved_from d (err e, d') s is same (a, k) = (a, k, inl (same ∙ is))

    applied_from :
        (d : Disk) (r : Result Exn (Unit {0}) × Disk)
        → d ≡ before.disk
        → Outcome (λ _ d'. SomeMove source target d d') (λ _ d'. d' ≡ d) r
        → (r.1 ≡ before.disk) ⊎ SomeMove source target before.disk r.1
    applied_from d (ok _, d') is moved = inr (subst (λ z. SomeMove source target z d') is moved)
    applied_from d (err e, d') is same = inl (same ∙ is)

    call_rename-Called :
        (answers : List Answer) (s : RenameState)
        → Marked s
        → Outcome (λ _. Done) (λ _. Called) (call_rename answers source target s)
    call_rename-Called [] s (a, k, d) =
        moved_from s.disk (renameat2 source target s.disk) s d
          (renameat2-Moved source target s.disk) (a, k)
    call_rename-Called (fine ∷ rest) s (a, k, d) =
        moved_from s.disk (renameat2 source target s.disk) (record s { answers = rest }) d
          (renameat2-Moved source target s.disk) (a, k)
    call_rename-Called (raises e ∷ rest) s (a, k, d) = (a, k, inl d)
    call_rename-Called (applied e ∷ rest) s (a, k, d) = (
      a,
      k,
      applied_from s.disk (renameat2 source target s.disk) d (renameat2-Moved source target s.disk),
    )

    -- The syscall returns when the file has moved, and raises whether it has or not.
    rename_noreplace-Called :
        Ensures Marked (rename_noreplace source target) (λ _. Done) (λ _. Called)
    unfolding rename_noreplace
    rename_noreplace-Called = record { at = λ s m. call_rename-Called s.answers s m }

    pub Done-Stopped : (e : Exn) (s : RenameState) → Done s → Stopped e s
    Done-Stopped e s (a, k, d) = (inr k, inl a)

    Called-Stopped : (e : Exn) (s : RenameState) → Called s → Stopped e s
    Called-Stopped e s (a, k, d) = (inr k, inl a)

    pub Marked-Stopped : (e : Exn) (s : RenameState) → Marked s → Stopped e s
    Marked-Stopped e s (a, k, d) = (inr k, inl a)

    -- Where the file is still at its source, nothing has moved.
    unmoved :
        (fd : ℕ) (s : RenameState) → Called s × (lookup source s.disk.entries ≡ some fd) → Marked s
    unmoved fd s ((a, k, inl d), there) = (a, k, d)
    unmoved fd s ((a, k, inr (inode, moved)), there) = let gone = moved.gone in cc

module _ (pf : Platform) (host : Host) (before : RenameState) (key : String × String)
    (a : ManifestAction) (source_parts target_parts : List String)
    (fd source_parent target_parent : ℕ) where
  abbrev source : Location
  source = (source_parent, file_name source_parts)

  abbrev target : Location
  target = (target_parent, file_name target_parts)

  abbrev Halts : Exn → RenameState → Type 0
  Halts = Stopped before key

  abbrev Passed : RenameState → Type 0
  Passed = Called before key source target

  aliased :
      (b : Bool) (e : Exn) (s : RenameState)
      → Marked before key s
      → Outcome (λ _. Marked before key) Halts (raise_if b e s)
  unfolding raise_if
  aliased true e s m = Marked-Stopped before key source target e s m
  aliased false e s m = m

  rejecting :
      (e : Exn)
      → Ensures
          (Marked before key)
          (modify (λ s. record s { attempted = false }) >> raise e)
          (λ (_ : Unit {0}). Done before key source target)
          Halts
  unfolding ◌>>=◌ modify raise
  rejecting e = record { at = λ s (_, k, d). (inr k, inr (refl, d)) }

  known_rejection-Stopped :
      (errno : ℕ)
      → Ensures Passed
          (known_rejection pf host a source_parts target_parts fd source_parent target_parent errno)
          (λ _. Done before key source target)
          Halts
  unfolding known_rejection
  known_rejection-Stopped errno =
      let stops = Called-Stopped before key source target in
      let stay = λ (s : RenameState) (answers : List Answer) (p : Passed s). p in
      bind_keep (check_root-Keeps Passed Halts stay stops pf host true) λ _.
        bind_keep (parent_binding-Keeps Passed Halts stay stops pf host source_parts source_parent)
          λ _.
            bind_keep
              (parent_binding-Keeps Passed Halts stay stops pf host target_parts target_parent)
              λ _.
                bind (check_source-Keeps Passed Halts stay stops pf host fd source a (some fd)) λ _.
                  weaken (unmoved before key source target fd) (
                    bind_keep
                      (step-Keeps (Marked before key) Halts (λ s answers p. p)
                        (Marked-Stopped before key source target))
                      λ _. bind_keep (record { at = λ s m. aliased _ _ s m }) λ _. rejecting _)

  raised :
      (e : Exn) (s : RenameState)
      → Passed s
      → Outcome {A = Unit {0}} (λ _. Done before key source target) Halts (raise e s)
  unfolding raise
  raised e s p = Called-Stopped before key source target e s p

  handle_syscall-Stopped :
      (r : Result Exn (Unit {0})) (s : RenameState)
      → Outcome (λ _. Done before key source target) (λ _. Passed) (r, s)
      → Outcome
          (λ _. Done before key source target)
          Halts
          (handle_syscall pf host a source_parts target_parts fd source_parent target_parent r s)
  unfolding pure
  handle_syscall-Stopped (ok _) s h = h
  handle_syscall-Stopped (err (os_error errno)) s h =
      elim (Bool-cases (elem errno known_rejections)) [
        | inl known ↦ rw known ((known_rejection-Stopped errno).at s h)
        | inr other ↦ rw other (raised (os_error errno) s h)
      ]
  handle_syscall-Stopped (err (rejected n)) s h = raised (rejected n) s h
  handle_syscall-Stopped (err (reconciliation known)) s h = raised (reconciliation known) s h
  handle_syscall-Stopped (err value_error) s h = raised value_error s h
  handle_syscall-Stopped (err interrupt) s h = raised interrupt s h

  -- The syscall and its handler: the file has moved, or the block stops as it may.
  pub try_rename-Done :
      Ensures
        (Marked before key)
        (try_rename pf host a source_parts target_parts fd source_parent target_parent)
        (λ _. Done before key source target)
        Halts
  unfolding try_rename
  try_rename-Done = record {
    at = λ s m.
        let (r, s') = rename_noreplace source target s in
        handle_syscall-Stopped r s' ((rename_noreplace-Called before key source target).at s m);
  }
