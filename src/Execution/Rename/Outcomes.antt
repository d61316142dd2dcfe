-- ===== src/Execution/Rename/Outcomes.antt =====
-- How a rename ends: the file has moved durably, or nothing has changed, or the session is closed to
-- further renames.
use anime_db.Base.{
  ℕ, String, ◌≡◌, refl, ap, ◌⊎◌, inl, inr, Bool, true, false, Option, none, some, List, [], ◌∷◌, ok,
  err, Result, if◌then◌else◌, Bool-cases, ◌==◌, String_eq, is_some,
}
use anime_db.Base.Effects.{
  Ensures, Outcome, pure, raise_if, bind, bind_keep, bind_fact, weaken, Ensures-pure,
  Ensures-raise_if, last_guard, after,
}
use anime_db.Execution.Paths.{split}
use anime_db.Execution.Platform.{Platform}
use anime_db.Execution.Manifest.{ManifestAction, ExecutionManifest}
use anime_db.Execution.Rename.Files.{
  Exn, Answer, Session, RenameState, Act, lookup, step, rejected, reconciliation, os_error,
  value_error, interrupt,
}
use anime_db.Execution.Rename.Checks.{Host, file_name, directories_of, absent}
use anime_db.Execution.Rename.Keeps.{
  step-Keeps, locator-Keeps, parent-Keeps, named-Keeps, check_fd-Keeps, check_root-Keeps,
  parent_binding-Keeps, check_source-Keeps, absent-Keeps,
}
use anime_db.Execution.Rename.Syscall.{Stopped, Grown}
use anime_db.Execution.Rename.Durable.{Synced, durable, apply_rename-Synced}
use anime_db.Execution.Rename.{
  RenameResult, Observation, check_before, check_observation, attempt_rename, apply_rename, kept,
  closing, after_closing, handled, settle,
}

module _ (pf : Platform) (host : Host) (before : RenameState) (m : ExecutionManifest)
    (a : ManifestAction) where
  abbrev key : String × String
  key = (m.manifest_id, a.action_id)

  -- The move of the action, from the file's old directory to its new one, each barrier included.
  pub record Durably (r : RenameResult) (s : RenameState) : Type 0 where
    pub source_parent : ℕ
    pub target_parent : ℕ
    pub inode : ℕ
    pub source_found : host.directory (directories_of (split a.source)) ≡ some source_parent
    pub target_found : host.directory (directories_of (split a.target)) ≡ some target_parent
    pub result :
        r
        ≡ durable pf host before a m
            (split a.source)
            (split a.target)
            inode
            source_parent
            target_parent
    pub synced :
        Synced pf host before a m
          (split a.source)
          (split a.target)
          inode
          source_parent
          target_parent
          (source_parent ∷ target_parent ∷ inode ∷ [])
          s

  abbrev pub Same : RenameState → Type 0
  Same s = (s.attempted ≡ false) × (s.session ≡ before.session) × (s.disk ≡ before.disk)

  abbrev pub Landed : RenameResult → RenameState → Type 0
  Landed r s = ((a.action ≡ "KEEP") × (r ≡ kept pf host m a) × Same s) ⊎ Durably r s

  abbrev pub Halts : Exn → RenameState → Type 0
  Halts = Stopped before key

  stops : (e : Exn) (s : RenameState) → Same s → Halts e s
  stops e s (k, i, d) = (inl i, inr (k, d))

  stay : (s : RenameState) (answers : List Answer) → Same s → Same (record s { answers = answers })
  stay s answers h = h

  guard : (b : Bool) (e : Exn) → Ensures Same (raise_if b e) (λ _ s. Same s × (b ≡ false)) Halts
  guard b e = Ensures-raise_if b e (stops e)

  check_before-Keeps :
      (o : Observation) (fd sp tp : ℕ)
      → Ensures Same (check_before pf host a o fd sp tp) (λ _. Same) Halts
  unfolding check_before
  check_before-Keeps o fd sp tp = bind_fact (guard _ _) λ _ _.
      bind_keep (check_root-Keeps Same Halts stay stops pf host false) λ _.
        bind_fact (locator-Keeps Same Halts stay stops pf host a.source) λ source_parts _.
          bind_keep
            (parent_binding-Keeps Same Halts stay stops pf host source_parts o.source_parent)
            λ _. bind_fact (locator-Keeps Same Halts stay stops pf host a.target) λ target_parts _.
              bind_keep
                (parent_binding-Keeps Same Halts stay stops pf host target_parts o.target_parent)
                λ _. bind_keep (check_fd-Keeps Same Halts stay stops pf host o.source) λ _.
                  bind_fact (guard _ _) λ _ _. last_guard _ (rejected none) (stops (rejected none))

  check_observation-Keeps :
      (o : Option Observation) (fd sp tp : ℕ)
      → Ensures Same (check_observation pf host a o fd sp tp) (λ _. Same) Halts
  check_observation-Keeps none fd sp tp = Ensures-pure _ (λ s h. h)
  check_observation-Keeps (some o) fd sp tp = check_before-Keeps o fd sp tp

  free-Keeps :
      (tp : ℕ) (name : String)
      → Ensures Same
          (if a.action == "KEEP" then pure tt else absent pf host (tp, name))
          (λ _. Same)
          Halts
  free-Keeps tp name = elim (Bool-cases (a.action == "KEEP")) [
    | inl keep ↦ rw keep (Ensures-pure _ (λ s h. h))
    | inr move ↦ rw move (
        after {Q = λ _ s. Same s × (is_some (lookup (tp, name) s.disk.entries) ≡ false)}
          (λ _ s h. h.0) (absent-Keeps Same Halts stay stops pf host (tp, name)))
  ]

  ending :
      (fd sp tp : ℕ)
      → host.directory (directories_of (split a.source)) ≡ some sp
      → host.directory (directories_of (split a.target)) ≡ some tp
      → Ensures Same
          (if a.action == "KEEP"
            then pure (kept pf host m a)
            else apply_rename pf host m a (split a.source) (split a.target) fd sp tp)
          Landed
          Halts
  ending fd sp tp source_found target_found = elim (Bool-cases (a.action == "KEEP")) [
    | inl keep ↦ rw keep (Ensures-pure _ (λ s h. inl ((String_eq.decides _ _).0 keep, refl, h)))
    | inr move ↦ rw move (
        after
          {Q = λ r s.
            (r ≡ durable pf host before a m (split a.source) (split a.target) fd sp tp)
            × Synced pf host before a m (split a.source) (split a.target) fd sp tp
                (sp ∷ tp ∷ fd ∷ []) s}
          (λ r s (is, h). inr (record {
            source_parent = sp;
            target_parent = tp;
            inode = fd;
            source_found = source_found;
            target_found = target_found;
            result = is;
            synced = h;
          }))
          (apply_rename-Synced pf host before a m (split a.source) (split a.target) fd sp tp))
  ]

  pub attempt_rename-Landed :
      (o : Option Observation) → Ensures Same (attempt_rename pf host m a o) Landed Halts
  unfolding attempt_rename
  attempt_rename-Landed o = bind_keep (check_root-Keeps Same Halts stay stops pf host false) λ _.
      bind_fact (locator-Keeps Same Halts stay stops pf host a.source) λ source_parts source_is.
        bind_fact (locator-Keeps Same Halts stay stops pf host a.target) λ target_parts target_is.
          bind_fact (parent-Keeps Same Halts stay stops pf host source_parts) λ sp source_found.
            bind_fact (parent-Keeps Same Halts stay stops pf host target_parts) λ tp target_found.
              bind (named-Keeps Same Halts stay stops pf host (sp, file_name source_parts)) λ fd.
                bind (weaken (λ s h. h.0) (check_fd-Keeps Same Halts stay stops pf host fd)) λ _.
                  bind
                    (check_source-Keeps Same Halts stay stops pf host fd
                      (sp, file_name source_parts) a none)
                    λ _. bind (weaken (λ s h. h.0) (free-Keeps tp (file_name target_parts))) λ _.
                      bind_keep (check_root-Keeps Same Halts stay stops pf host false) λ _.
                        bind_keep
                          (parent_binding-Keeps Same Halts stay stops pf host source_parts sp)
                          λ _.
                            bind_keep
                              (parent_binding-Keeps Same Halts stay stops pf host target_parts tp)
                              λ _.
                                bind
                                  (check_source-Keeps Same Halts stay stops pf host fd
                                    (sp, file_name source_parts) a (some fd))
                                  λ _.
                                    bind (weaken (λ s h. h.0) (check_observation-Keeps o fd sp tp))
                                      λ _.
                                        rw (source_is, target_is)
                                          (ending fd sp tp (rw source_is at source_found)
                                            (rw target_is at target_found))

  -- After an exception: the session is closed to further renames, or nothing has changed.
  abbrev pub Halting : Exn → Type 0
  Halting (reconciliation known) = Unit
  Halting interrupt = Unit
  Halting _ = ⊥

  abbrev pub KeysGrown : RenameState → Type 0
  KeysGrown s =
      (s.session.attempted_keys ≡ before.session.attempted_keys)
      ⊎ (s.session.attempted_keys ≡ key ∷ before.session.attempted_keys)

  abbrev pub Failed : Exn → RenameState → Type 0
  Failed e s =
      KeysGrown s
      × (((s.session.poisoned ≡ true) × Halting e)
          ⊎ ((s.session.poisoned ≡ before.session.poisoned) × (s.disk ≡ before.disk)))

  keys_grown : (s : RenameState) → Grown before key s → KeysGrown s
  keys_grown s (inl same) = inl (ap (λ (z : Session). z.attempted_keys) same)
  keys_grown s (inr more) = inr (ap (λ (z : Session). z.attempted_keys) more)

  not_poisoned :
      (s : RenameState) → Grown before key s → s.session.poisoned ≡ before.session.poisoned
  not_poisoned s (inl same) = ap (λ (z : Session). z.poisoned) same
  not_poisoned s (inr more) = ap (λ (z : Session). z.poisoned) more

  closes :
      (r : Result Exn RenameResult) (c : Result Exn (Unit {0})) (s : RenameState)
      → Outcome Landed Halts (r, s)
      → Outcome Landed Halts (after_closing pf host r c, s)
  closes (ok r) (ok _) s h = h
  closes (ok r) (err e) s (inl (_, _, (k, i, d))) = (inl i, inr (k, d))
  closes (ok r) (err e) s (inr h) = (inr h.synced.session, inl h.synced.attempted)
  closes (err e) c s h = h

  Landed-blind :
      (r : RenameResult) (s : RenameState) (answers : List Answer)
      → Landed r s
      → Landed r (record s { answers = answers })
  Landed-blind r s answers (inl h) = inl h
  Landed-blind r s answers (inr h) = inr (record {
    source_parent = h.source_parent;
    target_parent = h.target_parent;
    inode = h.inode;
    source_found = h.source_found;
    target_found = h.target_found;
    result = h.result;
    synced = record {
      attempted = h.synced.attempted;
      session = h.synced.session;
      moved = h.synced.moved;
      synced = h.synced.synced;
    };
  })

  settle-Failed :
      (e : Exn) (s : RenameState) → Halts e s → Outcome Landed Failed (settle pf host e s)
  settle-Failed e s (grown, inl called) = rw called (keys_grown s grown, inl (refl, tt))
  settle-Failed e s (grown, inr (not_called, same)) =
      rw not_called (keys_grown s grown, inr (not_poisoned s grown, same))

  pub handled-Failed :
      (r : Result Exn RenameResult × RenameState)
      → Outcome Landed Halts r
      → Outcome Landed Failed (handled pf host r)
  handled-Failed (ok r, s) h = h
  handled-Failed (err interrupt, s) h = (keys_grown s h.0, inl (refl, tt))
  handled-Failed (err (rejected n), s) h = settle-Failed (rejected n) s h
  handled-Failed (err (reconciliation k), s) h = settle-Failed (reconciliation k) s h
  handled-Failed (err (os_error n), s) h = settle-Failed (os_error n) s h
  handled-Failed (err value_error, s) h = settle-Failed value_error s h

  abbrev Ended : Result Exn RenameResult → RenameState → Type 0
  Ended r s = Outcome Landed Halts (r, s)

  Ended-blind :
      (r : Result Exn RenameResult) (s : RenameState) (answers : List Answer)
      → Ended r s
      → Ended r (record s { answers = answers })
  Ended-blind (ok r) s answers h = Landed-blind r s answers h
  Ended-blind (err e) s answers h = h

  closed_by :
      (r : Result Exn RenameResult) (c : Result Exn (Unit {0}) × RenameState)
      → Outcome (λ _. Ended r) (λ _. Ended r) c
      → Outcome Landed Halts (after_closing pf host r c.0, c.1)
  closed_by r (ok _, s) h = closes r (ok tt) s h
  closed_by r (err e, s) h = closes r (err e) s h

  pub closing-Landed :
      (body : Act RenameResult)
      → Ensures Same body Landed Halts
      → Ensures Same (closing pf host body) Landed Halts
  unfolding closing
  closing-Landed body h = record {
    at = λ s p.
        let (r, s') = body s in
        closed_by r (step s')
          ((step-Keeps (Ended r) (λ _. Ended r) (Ended-blind r) (λ _ _ q. q)).at s' (h.at s p));
  }
