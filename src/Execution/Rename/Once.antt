-- ===== src/Execution/Rename/Once.antt =====
-- How one call of `rename` ends, and what it asks of the session.
use anime_db.Base.{String, ◌≡◌, refl, sym, ap, ◌∙◌, inl, inr, Bool, true, false, Option, none, any}
use anime_db.Base.Effects.{
  Ensures, Outcome, outcome_after, raise_if, bind, bind_keep, bind_fact, Ensures-pure,
  Ensures-modify, Ensures-raise_if, last_guard,
}
use anime_db.Execution.Platform.{Platform}
use anime_db.Execution.Manifest.{ManifestAction, ExecutionManifest}
use anime_db.Execution.Rename.Files.{Exn, Session, RenameState, rejected, reconciliation}
use anime_db.Execution.Paths.{split}
use anime_db.Execution.Rename.Checks.{
  Host, locator, validate_scratch_binding, validate_scratch_action,
}
use anime_db.Execution.Rename.Keeps.{locator-Keeps}
use anime_db.Execution.Rename.Outcomes.{
  Landed, Failed, Same, attempt_rename-Landed, closing-Landed, handled-Failed,
}
use anime_db.Execution.Rename.{
  RenameResult, Observation, rename, key_eq, attempt_rename, closing, handled,
}

module _ (pf : Platform) (host : Host) (before : RenameState) (m : ExecutionManifest)
    (a : ManifestAction) where
  abbrev key : String × String
  key = (m.manifest_id, a.action_id)

  abbrev Start : RenameState → Type 0
  Start s = (s.session ≡ before.session) × (s.disk ≡ before.disk)

  abbrev Stops : Exn → RenameState → Type 0
  Stops = Failed pf host before m a

  -- The session was neither poisoned nor closed, and had not attempted the rename of the action.
  pub record Finished (r : RenameResult) (s : RenameState) : Type 0 where
    pub usable : before.session.poisoned ≡ false
    pub live : before.session.closed ≡ false
    pub first : any (key_eq key) before.session.attempted_keys ≡ false
    pub landed : Landed pf host before m a r s

  refuses : (e : Exn) (s : RenameState) → Start s → Stops e s
  refuses e s (i, d) =
      (inl (ap (λ (z : Session). z.attempted_keys) i), inr (ap (λ (z : Session). z.poisoned) i, d))

  guard : (b : Bool) (e : Exn) → Ensures Start (raise_if b e) (λ _ s. Start s × (b ≡ false)) Stops
  guard b e = Ensures-raise_if b e (refuses e)

  locator-Start :
      (raw : String)
      → Ensures Start (locator pf host raw) (λ parts s. Start s × (parts ≡ split raw)) Stops
  locator-Start raw = locator-Keeps Start Stops (λ s answers h. h) refuses pf host raw

  validate_scratch_binding-Keeps :
      Ensures Start (validate_scratch_binding pf host m a) (λ _. Start) Stops
  unfolding validate_scratch_binding
  validate_scratch_binding-Keeps = bind_fact (guard _ _) λ _ _. bind_fact (guard _ _) λ _ _.
      bind_fact (guard _ _) λ _ _. bind_fact (guard _ _) λ _ _. bind_fact (guard _ _) λ _ _.
        bind_fact (guard _ _) λ _ _.
          bind_fact (locator-Start a.source)
            λ _ _. bind_fact (locator-Start a.target) λ _ _. Ensures-pure _ (λ s h. h)

  validate_scratch_action-Keeps :
      Ensures Start (validate_scratch_action pf host m a) (λ _. Start) Stops
  unfolding validate_scratch_action
  validate_scratch_action-Keeps =
      bind_keep validate_scratch_binding-Keeps
        λ _. last_guard _ (rejected none) (refuses (rejected none))

  -- A guard on a field of the session.
  asking :
      (test : Session → Bool) (e : Exn) (b : Bool) (s : RenameState)
      → test s.session ≡ b
      → Start s
      → Outcome (λ _ s'. Start s' × (test before.session ≡ false)) Stops (raise_if b e s)
  unfolding raise_if
  asking test e true s is h = refuses e s h
  asking test e false s is h = (h, sym (ap test h.0) ∙ is)

  asks :
      (test : Session → Bool) (e : Exn)
      → Ensures Start
          (λ s. raise_if (test s.session) e s)
          (λ _ s. Start s × (test before.session ≡ false))
          Stops
  asks test e = record { at = λ s h. asking test e (test s.session) s refl h }

  body :
      (o : Option Observation)
      → before.session.poisoned ≡ false
      → before.session.closed ≡ false
      → any (key_eq key) before.session.attempted_keys ≡ false
      → Ensures
          (Same pf host before m a)
          (λ s. handled pf host (closing pf host (attempt_rename pf host m a o) s))
          Finished
          Stops
  body o usable live first = record {
    at = λ s h.
        let (r, s') = handled pf host (closing pf host (attempt_rename pf host m a o) s) in
        outcome_after (Landed pf host before m a) Finished Stops Stops r s'
          (λ r s landed. record { usable = usable; live = live; first = first; landed = landed })
          (λ e s failed. failed)
          (handled-Failed pf host before m a (closing pf host (attempt_rename pf host m a o) s) (
            (closing-Landed pf host before m a _ (attempt_rename-Landed pf host before m a o)).at s
              h));
  }

  rename-Finished-from :
      (same_process : Bool) (o : Option Observation)
      → Ensures Start (rename pf host same_process m a o) Finished Stops
  unfolding rename
  rename-Finished-from same_process o = bind_fact (guard _ _) λ _ _.
      bind_fact (asks (λ z. z.poisoned) (reconciliation none)) λ _ usable.
        bind_fact (asks (λ z. z.closed) (rejected none)) λ _ live.
          bind_keep validate_scratch_action-Keeps λ _.
            bind_fact (asks (λ z. any (key_eq key) z.attempted_keys) (rejected none)) λ _ first.
              bind
                (Ensures-modify {Q = Same pf host before m a}
                  (λ s. record s { attempted = false; succeeded = false })
                  (λ s h. (refl, h.0, h.1)))
                λ _. body o usable live first

  -- A call that returns was made on a session that was neither poisoned nor closed and whose attempted
  -- keys did not have the action; it has moved the file durably, or the action is a KEEP and nothing has
  -- changed. After a call that raises, nothing has changed, or the session is poisoned.
  pub rename-Finished :
      (same_process : Bool) (o : Option Observation)
      → Outcome Finished Stops (rename pf host same_process m a o before)
  rename-Finished same_process o = (rename-Finished-from same_process o).at before (refl, refl)
