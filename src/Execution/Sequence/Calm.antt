-- ===== src/Execution/Sequence/Calm.antt =====
-- Steps of an execution where every call answers as expected: none of them raises.
use anime_db.Base.{
  ℕ, ◌≡◌, refl, sym, Bool, true, false, not, List, [], ◌∷◌, Result, ok, err, if◌then◌else◌, ltb,
  String_eq, ◌-◌,
}
use anime_db.Base.Effects.{
  Ensures, Outcome, ◌>>=◌, modify, pure, raise_if, bind, bind_fact, after, Ensures-pure,
  Ensures-modify,
}
use mathlib.Core.Path.{subst}
use anime_db.Execution.Manifest.{State}
use anime_db.Execution.Sequence.Stages.{
  Phase, Exn, Event, recorded, Sequence, Act, reply, ask, consult, write, perform, catching,
  relabelled,
}
use anime_db.Execution.Sequence.{
  for_each, check_execution, identity_check, check_journal, verify_within, verify_physical,
  check_capture, capture_indices, append, require_predecessor, check_prepared, incomplete,
}

abbrev pub Never : Exn → Sequence → Type 0
Never e s = ⊥

-- No answer is left but the expected one; the active action and the records so far.
abbrev pub Calm : ℕ → List (ℕ × State) → Sequence → Type 0
Calm i h s = (s.answers ≡ []) × (s.active_index ≡ i) × (s.history ≡ h)

abbrev pub Goes : ℕ → List (ℕ × State) → List (ℕ × State) → {A : Type 0} → Act A → Type 0
Goes i h h' {A} m = Ensures (Calm i h) m (λ (_ : A). Calm i h') Never

abbrev pub Gives : ℕ → List (ℕ × State) → Act Bool → Type 0
Gives i h m = Ensures (Calm i h) m (λ b s. Calm i h s × (b ≡ true)) Never

module _ {i : ℕ} {h : List (ℕ × State)} where
  pub ask-Gives : Gives i h ask
  unfolding ask
  ask-Gives = record {
    at = λ s c.
        subst (λ a. Outcome (λ b t. Calm i h t × (b ≡ true)) Never (reply a s)) (sym c.0) (c, refl);
  }

  pub write-Gives : (v : Event) → Gives i h (write v)
  unfolding write
  write-Gives v = record {
    at = λ s c.
        subst (λ a. Outcome (λ b t. Calm i h t × (b ≡ true)) Never (perform v a s)) (sym c.0)
          (c, refl);
  }

  pub consult-Goes : Goes i h h consult
  unfolding consult
  consult-Goes = bind_fact ask-Gives (λ b is. Ensures-pure _ (λ s c. c))

  pub pass : (b : Bool) (e : Exn) → b ≡ false → Goes i h h (raise_if b e)
  unfolding raise_if
  pass b e is = record { at = λ s c. rw is c }

  pub pass_state :
      (b : Sequence → Bool) (e : Sequence → Exn)
      → ((s : Sequence) → Calm i h s → b s ≡ false)
      → Goes i h h (λ s. raise_if (b s) (e s) s)
  unfolding raise_if
  pass_state b e is = record { at = λ s c. rw (is s c) c }

  pub asked : (e : Exn) → Goes i h h (ask >>= λ same. raise_if (not same) e)
  asked e = bind_fact ask-Gives (λ same is. pass (not same) e (rw is refl))

  pub by_state :
      (m : Sequence → Act (Unit {0}))
      → ((s : Sequence) → Goes i h h (m s))
      → Goes i h h (λ s. m s s)
  by_state m g = record { at = λ s c. (g s).at s c }

  pub for_each-Goes :
      (is : List ℕ) (f : ℕ → Act (Unit {0}))
      → ((j : ℕ) → Goes i h h (f j))
      → Goes i h h (for_each is f)
  unfolding for_each
  for_each-Goes [] f g = Ensures-pure _ (λ s c. c)
  for_each-Goes (j ∷ is) f g = bind (g j) (λ _. for_each-Goes is f g)

  pub as_is :
      (f : Sequence → Sequence)
      → ((s : Sequence) → Calm i h s → Calm i h (f s))
      → Goes i h h (modify f)
  as_is f k = Ensures-modify f k

pub relabelled-Outcome :
    {A : Type 0} (f : Phase → Exn → Exn) (Q : A → Sequence → Type 0) (r : Result Exn A × Sequence)
    → Outcome Q Never r
    → Outcome Q Never (relabelled f r)
relabelled-Outcome f Q (ok a, s) h = h
relabelled-Outcome f Q (err e, s) h = elim h [ ]

pub catching-Ensures :
    {A : Type 0} {m : Act A} {P : Sequence → Type 0} {Q : A → Sequence → Type 0}
    (f : Phase → Exn → Exn)
    → Ensures P m Q Never
    → Ensures P (catching f m) Q Never
unfolding catching
catching-Ensures {m} f h = record { at = λ s p. relabelled-Outcome f _ (m s) (h.at s p) }

module _ {i : ℕ} {h : List (ℕ × State)} where
  pub check_journal-Goes : Goes i h h check_journal
  unfolding check_journal
  check_journal-Goes = catching-Ensures _ (asked _)

  pub verify_within-Goes : (j : ℕ) → Goes i h h (verify_within j)
  unfolding verify_within
  verify_within-Goes j =
      catching-Ensures _
        (bind_fact ask-Gives (λ same is. pass_state (λ _. not same) _ (λ _ _. rw is refl)))

  pub verify_physical-Goes : (j : ℕ) → Goes i h h (verify_physical j)
  unfolding verify_physical
  verify_physical-Goes j = bind consult-Goes λ _. bind (verify_within-Goes j) λ _. consult-Goes

  pub identity_check-Goes : (j : ℕ) → Goes i h h (identity_check j)
  unfolding identity_check
  identity_check-Goes j = consult-Goes

  pub check_execution-Goes : Goes i h h check_execution
  unfolding check_execution
  check_execution-Goes = consult-Goes

  pub skip_or :
      (b : Bool) {m : Act (Unit {0})} → Goes i h h m → Goes i h h (if b then m else pure tt)
  skip_or true g = g
  skip_or false g = Ensures-pure _ (λ s c. c)

  pub check_capture-Goes : (j : ℕ) → Goes i h h (check_capture j)
  unfolding check_capture
  check_capture-Goes j = bind (identity_check-Goes j) λ _.
      by_state (λ s. if ltb j s.active_index then verify_within j else pure tt)
        (λ s. skip_or (ltb j s.active_index) (verify_within-Goes j))

  pub check_prepared-Goes : Goes i h h check_prepared
  unfolding check_prepared
  check_prepared-Goes = bind consult-Goes λ _. asked _

  pub require_predecessor-Goes : incomplete i h ≡ false → Goes i h h require_predecessor
  unfolding require_predecessor
  require_predecessor-Goes done = bind consult-Goes λ _.
      bind
        (bind (as_is _ (λ s c. c)) λ _. bind check_journal-Goes λ _.
          bind (pass_state (λ s. incomplete s.active_index s.history) _ (λ s c. rw (c.1, c.2) done))
            λ _. bind (as_is _ (λ s c. c)) λ _. bind consult-Goes λ _.
              bind (as_is _ (λ s c. c)) λ _.
                bind
                  (by_state (λ s. verify_within (s.active_index - 1))
                    (λ s. verify_within-Goes (s.active_index - 1)))
                  λ _. check_journal-Goes)
        λ _. consult-Goes

  pub written : (v : Event) → Goes i h h (write v)
  written v = after (λ b s c. c.0) (write-Gives v)

  pub write_record-Goes :
      (state : State) → Goes i h h (λ s. write (recorded s.active_index state) s)
  write_record-Goes state = record { at = λ s c. (written (recorded s.active_index state)).at s c }

module _ {i : ℕ} {h : List (ℕ × State)} where
  pub added :
      (state : State) (s : Sequence)
      → Calm i h s
      → Calm i ((i, state) ∷ h) (record s { history = (s.active_index, state) ∷ s.history })
  added state s (quiet, is, old) = (quiet, is, rw (is, old) refl)

  pub append-Goes : (state : State) → Goes i h ((i, state) ∷ h) (append state)
  unfolding append
  append-Goes state = bind consult-Goes λ _.
      bind
        (bind (as_is _ (λ s c. c)) λ _. bind check_execution-Goes λ _.
          bind
            (by_state (λ s. for_each (capture_indices s) check_capture)
              (λ s. for_each-Goes _ _ check_capture-Goes))
            λ _. bind check_journal-Goes λ _.
              bind
                (catching-Ensures _ (
                  bind (write_record-Goes state) λ _.
                    bind (Ensures-modify {Q = Calm i ((i, state) ∷ h)} _ (added state))
                      λ _. check_journal-Goes))
                λ _.
                  by_state (λ s. for_each (capture_indices s) identity_check)
                    (λ s. for_each-Goes _ _ identity_check-Goes))
        λ _. consult-Goes
