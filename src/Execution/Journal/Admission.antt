-- ===== src/Execution/Journal/Admission.antt =====
-- What an admitted entry has passed: inversions of `validate_entry`, one for each of its parts.
use anime_db.Base.{
  String, ◌≡◌, refl, ap, ◌∙◌, ◌⊎◌, inl, inr, true, false, not, ◌||◌, Option, none, some, List, [],
  ◌∷◌, any, get_elem?, elem, ok, raise_if, >>-ok, >>=-ok, raise_if-ok, ◌==◌, nat_eq, Bool-cases,
  String_eq, arith, nat_eq_iff,
}
use anime_db.Execution.Platform.{Platform}
use anime_db.Execution.Manifest.{
  State, pending, complete, ManifestAction, ExecutionManifest, JournalEntry,
}
use anime_db.Execution.Journal.{
  State_eq, allowed, post_init, check_evidence, can_continue_after_failure, direct_failure,
  check_waived, expected_index, check_prior, check_start, check_order, check_action, validate_entry,
}

pub State_eq→≡ : (s t : State) → State_eq s t ≡ true → s ≡ t
State_eq→≡ pending t h = ground arith
State_eq→≡ s t h = ground arith

-- The entry's own action, and what its evidence has passed.
pub record Owned (m : ExecutionManifest) (e : JournalEntry) : Type 0 where
  pub action : ManifestAction
  pub located : get_elem? m.payload.actions e.action_index ≡ some action
  pub bound : (e.manifest_id == m.manifest_id) ≡ true
  pub evidence : check_evidence action e ≡ ok tt

module _ (pf : Platform) (m : ExecutionManifest) where
  check_action-ok :
      (h : List JournalEntry) (c : List String) (o : Option ManifestAction) (e : JournalEntry)
      → check_action pf m h c o e ≡ ok tt
      → (a : ManifestAction) × (o ≡ some a)
        × ((e.manifest_id == m.manifest_id) ≡ true)
        × (check_evidence a e ≡ ok tt)
        × (check_order pf m h c a e ≡ ok tt)
  unfolding check_action
  check_action-ok h c none e passed = cc
  check_action-ok h c (some a) e passed =
      let (named, rest) = >>-ok (raise_if (not (e.manifest_id == m.manifest_id)) _) _ passed in
      let (evidence, order) = >>-ok (check_evidence a e) (check_order pf m h c a e) rest in
      (a, refl, ground (arith, raise_if-ok _ _ named), evidence, order)

  pub validate_entry-ok :
      (h : List JournalEntry) (c : List String) (e : JournalEntry)
      → validate_entry pf m h c e ≡ ok tt
      → (owned : Owned m e) × (check_order pf m h c owned.action e ≡ ok tt)
  unfolding validate_entry
  validate_entry-ok h c e passed =
      let (typed, rest) =
        >>-ok (post_init e) (check_action pf m h c (get_elem? m.payload.actions e.action_index) e)
          passed in
      let (a, located, bound, evidence, order) = check_action-ok h c _ e rest in
      (record { action = a; located = located; bound = bound; evidence = evidence }, order)

  -- Behind an action that was not completed there are two entries, PENDING and FAILED, of a LOW action.
  pub record Waived (before : List JournalEntry) (previous : JournalEntry) : Type 0 where
    pub direct : direct_failure before previous ≡ true
    pub continues : can_continue_after_failure pf m previous ≡ ok true

  check_waived-ok :
      (before : List JournalEntry) (previous : JournalEntry)
      → check_waived pf m before previous ≡ ok tt
      → Waived before previous
  unfolding check_waived
  check_waived-ok before previous passed = elim (Bool-cases (direct_failure before previous)) [
    | inl direct ↦
        let (met, continues, go) =
          >>=-ok (can_continue_after_failure pf m previous) _ (rw direct at passed) in
        record {
          direct = direct;
          continues = continues ∙ ap ok (ground (arith, raise_if-ok _ _ go));
        }
    | inr other ↦ cc (rw other at passed)
  ]

  pub check_prior-ok :
      (p : JournalEntry) (before : List JournalEntry)
      → check_prior pf m (p ∷ before) ≡ ok tt
      → (p.state ≡ complete) ⊎ Waived before p
  unfolding check_prior
  check_prior-ok p before passed = elim (Bool-cases (State_eq p.state complete)) [
    | inl done ↦ inl (State_eq→≡ p.state complete done)
    | inr open_end ↦ inr (check_waived-ok before p (rw open_end at passed))
  ]

  pub record Started (h : List JournalEntry) (c : List String) (a : ManifestAction)
      (e : JournalEntry) : Type 0 where
    pub position : e.action_index ≡ expected_index h
    pub first : e.state ≡ pending
    pub prior : check_prior pf m h ≡ ok tt
    pub dependencies : any (λ d. not (elem d c)) a.depends_on ≡ false

  pub check_start-ok :
      (h : List JournalEntry) (c : List String) (a : ManifestAction) (e : JournalEntry)
      → check_start pf m h c a e ≡ ok tt
      → Started h c a e
  unfolding check_start
  check_start-ok h c a e passed =
      let misplaced =
        not (nat_eq e.action_index (expected_index h)) || not (State_eq e.state pending) in
      let (start, rest) = >>-ok (raise_if misplaced _) _ passed in
      let (prior, ready) = >>-ok (check_prior pf m h) _ rest in
      let begins = raise_if-ok misplaced _ start in
      record {
        position = ground (arith, begins);
        first = State_eq→≡ e.state pending (ground (arith, begins));
        prior = prior;
        dependencies = raise_if-ok _ _ ready;
      }

  -- An admitted entry goes on with the newest action, or starts the next one.
  pub check_order-ok :
      (p : JournalEntry) (before : List JournalEntry) (c : List String) (a : ManifestAction)
      (e : JournalEntry)
      → check_order pf m (p ∷ before) c a e ≡ ok tt
      → (e.action_index ≡ p.action_index) × (allowed p.state e.state ≡ true)
        ⊎ Started (p ∷ before) c a e
  unfolding check_order
  check_order-ok p before c a e passed = elim (Bool-cases (nat_eq e.action_index p.action_index)) [
    | inl same ↦ inl ((nat_eq_iff _ _).0 same, ground (arith, raise_if-ok _ _ (rw same at passed)))
    | inr next ↦ inr (check_start-ok (p ∷ before) c a e (rw next at passed))
  ]

  pub check_order-first :
      (c : List String) (a : ManifestAction) (e : JournalEntry)
      → check_order pf m [] c a e ≡ ok tt
      → Started [] c a e
  unfolding check_order
  check_order-first c a e passed = check_start-ok [] c a e passed

  pub validate_entry-typed :
      (h : List JournalEntry) (c : List String) (e : JournalEntry)
      → validate_entry pf m h c e ≡ ok tt
      → post_init e ≡ ok tt
  unfolding validate_entry
  validate_entry-typed h c e passed =
      let (typed, rest) =
        >>-ok (post_init e) (check_action pf m h c (get_elem? m.payload.actions e.action_index) e)
          passed in
      typed
