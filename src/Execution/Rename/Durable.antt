-- ===== src/Execution/Rename/Durable.antt =====
-- From the syscall of a rename to the barriers that make it durable.
use anime_db.Base.{
  ℕ, String, ◌≡◌, refl, ap, inl, inr, true, false, some, List, [], ◌∷◌, All, elem, ok, err, Result,
  if◌then◌else◌, Bool-cases, ℕ_eq, nat_eq, nat_eq_iff, equal_self, arith,
}
use mathlib.Core.Path.{subst}
use anime_db.Base.Effects.{
  Ensures, Outcome, pure, bind, bind_keep, weaken, Ensures-pure, Ensures-modify,
}
use anime_db.Execution.Platform.{Platform}
use anime_db.Execution.Manifest.{ManifestAction, ExecutionManifest}
use anime_db.Execution.Rename.Files.{
  Location, Exn, Answer, RenameState, lookup, fsync, step, record_sync,
}
use anime_db.Execution.Rename.Checks.{Host, file_name}
use anime_db.Execution.Rename.Moves.{Moved}
use anime_db.Execution.Rename.Keeps.{
  step-Keeps, check_root-Keeps, parent_binding-Keeps, check_source-Keeps, absent-Keeps,
}
use anime_db.Execution.Rename.Syscall.{Stopped, Done, with_key, try_rename-Done, Done-Stopped}
use anime_db.Execution.Rename.{RenameResult, verify_applied, apply_rename}

module _ (pf : Platform) (host : Host) (before : RenameState) (a : ManifestAction)
    (m : ExecutionManifest) (source_parts target_parts : List String)
    (fd source_parent target_parent : ℕ) where
  abbrev source : Location
  source = (source_parent, file_name source_parts)

  abbrev target : Location
  target = (target_parent, file_name target_parts)

  abbrev key : String × String
  key = (m.manifest_id, a.action_id)

  abbrev pub Untouched : RenameState → Type 0
  Untouched s = (s.attempted ≡ false) × (s.session ≡ before.session) × (s.disk ≡ before.disk)

  -- The file has moved, and the `fsync` of each of these has returned since.
  pub record Synced (ids : List ℕ) (s : RenameState) : Type 0 where
    pub attempted : s.attempted ≡ true
    pub session : s.session ≡ with_key key before.session
    pub moved : Moved source target fd before.disk.entries s.disk.entries
    pub synced : All (λ id. elem id s.disk.synced ≡ true) ids

  abbrev Halts : Exn → RenameState → Type 0
  Halts = Stopped before key

  Synced-Stopped : (ids : List ℕ) (e : Exn) (s : RenameState) → Synced ids s → Halts e s
  Synced-Stopped ids e s h = (inr h.session, inl h.attempted)

  Synced-blind :
      (ids : List ℕ) (s : RenameState) (answers : List Answer)
      → Synced ids s
      → Synced ids (record s { answers = answers })
  Synced-blind ids s answers h = record {
    attempted = h.attempted;
    session = h.session;
    moved = h.moved;
    synced = h.synced;
  }

  Done-blind :
      (s : RenameState) (answers : List Answer)
      → Done before key source target s
      → Done before key source target (record s { answers = answers })
  Done-blind s answers h = h

  module _ (P : RenameState → Type 0)
      (blind : (s : RenameState) (answers : List Answer) → P s → P (record s { answers = answers }))
      (stops : (e : Exn) (s : RenameState) → P s → Halts e s) where
    -- The checks after the syscall find the file at its target.
    verify_applied-Keeps :
        Ensures P
          (verify_applied pf host a source_parts target_parts fd source_parent target_parent)
          (λ _ s. P s × (lookup target s.disk.entries ≡ some fd))
          Halts
    unfolding verify_applied
    verify_applied-Keeps = bind_keep (check_root-Keeps P Halts blind stops pf host true) λ _.
        bind_keep (parent_binding-Keeps P Halts blind stops pf host source_parts source_parent) λ _.
          bind_keep (parent_binding-Keeps P Halts blind stops pf host target_parts target_parent)
            λ _. bind (absent-Keeps P Halts blind stops pf host source) λ _.
              weaken (λ s h. h.0)
                (check_source-Keeps P Halts blind stops pf host fd target a (some fd))

  arrived :
      (s : RenameState)
      → Done before key source target s × (lookup target s.disk.entries ≡ some fd)
      → Synced [] s
  arrived s ((attempted, session, (inode, moved)), there) =
      let at = moved.arrived in
      let same : inode ≡ fd = cc in
      record {
        attempted = attempted;
        session = session;
        moved = subst (λ z. Moved source target z before.disk.entries s.disk.entries) same moved;
        synced = tt;
      }

  more_synced :
      (id : ℕ) (synced ids : List ℕ)
      → All (λ i. elem i synced ≡ true) ids
      → All (λ i. elem i (id ∷ synced) ≡ true) ids
  more_synced id synced [] h = tt
  more_synced id synced (i ∷ ids) (first, rest) =
      (ground (arith, first), more_synced id synced ids rest)

  recorded :
      (id : ℕ) (ids : List ℕ) (r : Result Exn (Unit {0}) × RenameState)
      → Outcome (λ _. Synced ids) Halts r
      → Outcome (λ _. Synced (id ∷ ids)) Halts (record_sync id r)
  recorded id ids (ok _, s) h = record {
    attempted = h.attempted;
    session = h.session;
    moved = h.moved;
    synced = (
      let self = equal_self id in ground (arith, self),
      more_synced id s.disk.synced ids h.synced,
    );
  }
  recorded id ids (err e, s) h = h

  fsync-Synced :
      (id : ℕ) (ids : List ℕ) → Ensures (Synced ids) (fsync id) (λ _. Synced (id ∷ ids)) Halts
  unfolding fsync
  fsync-Synced id ids = record {
    at = λ s h.
        recorded id ids (step s)
          ((step-Keeps (Synced ids) Halts (Synced-blind ids) (Synced-Stopped ids)).at s h);
  }

  one_directory :
      source_parent ≡ target_parent
      → (s : RenameState) → Synced (target_parent ∷ fd ∷ []) s
      → Synced (source_parent ∷ target_parent ∷ fd ∷ []) s
  one_directory same s h = record {
    attempted = h.attempted;
    session = h.session;
    moved = h.moved;
    synced = (rw same h.synced.0, h.synced);
  }

  -- `fsync` of the source's directory, where it is another one.
  last_fsync :
      Ensures
        (Synced (target_parent ∷ fd ∷ []))
        (if nat_eq source_parent target_parent then pure tt else fsync source_parent)
        (λ _. Synced (source_parent ∷ target_parent ∷ fd ∷ []))
        Halts
  last_fsync = elim (Bool-cases (nat_eq source_parent target_parent)) [
    | inl same ↦ rw same (Ensures-pure _ (λ s h. one_directory ((nat_eq_iff _ _).0 same) s h))
    | inr other ↦ rw other (fsync-Synced source_parent (target_parent ∷ fd ∷ []))
  ]

  abbrev pub durable : RenameResult
  durable = record {
    manifest_id = m.manifest_id;
    action_id = a.action_id;
    outcome = "DURABLE";
    syscall_succeeded = true;
    durability_confirmed = true;
  }

  -- A rename that gets to its end has moved the file and made the move durable.
  pub apply_rename-Synced :
      Ensures Untouched
        (apply_rename pf host m a source_parts target_parts fd source_parent target_parent)
        (λ r s. (r ≡ durable) × Synced (source_parent ∷ target_parent ∷ fd ∷ []) s)
        Halts
  unfolding apply_rename
  apply_rename-Synced =
      let ids = source_parent ∷ target_parent ∷ fd ∷ [] in
      bind_keep
        (check_root-Keeps Untouched Halts (λ s answers p. p) (λ e s (k, i, d). (inl i, inr (k, d)))
          pf host true)
        λ _. bind (Ensures-modify _ (λ s (k, i, d). (refl, ap (with_key key) i, d))) λ _.
          bind
            (try_rename-Done pf host before key a source_parts target_parts fd source_parent
              target_parent)
            λ _. bind (Ensures-modify _ (λ s h. h)) λ _.
              bind
                (verify_applied-Keeps (Done before key source target) Done-blind
                  (Done-Stopped before key source target))
                λ _. bind (weaken arrived (fsync-Synced fd [])) λ _.
                  bind (fsync-Synced target_parent (fd ∷ [])) λ _. bind last_fsync λ _.
                    bind (verify_applied-Keeps (Synced ids) (Synced-blind ids) (Synced-Stopped ids))
                      λ _. Ensures-pure _ (λ s h. (refl, h.0))
