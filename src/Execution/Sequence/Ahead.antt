-- ===== src/Execution/Sequence/Ahead.antt =====
-- What is ahead of an execution: its plan, and the steps that keep to it.
use anime_db.Base.{
  ℕ, ◌≡◌, sym, ◌∙◌, Bool, true, false, not, List, [], ◌∷◌, ◌++◌, Result, ok, err, if◌then◌else◌,
  ◌==◌, String_eq, ltb, ◌+◌, ◌-◌, zero, suc,
}
use anime_db.Base.Effects.{
  Ensures, Outcome, modify, pure, raise_if, bind, Ensures-pure, Ensures-modify, last_guard,
}
use mathlib.Core.List.{append_assoc}
use anime_db.Execution.Manifest.{
  pending, fs_applied, fs_verified, db_reconciled, complete, ManifestAction,
}
use anime_db.Execution.Sequence.Stages.{
  Phase, Exn, stopped, filesystem, Event, guarded, directories_made, evidenced, created, recorded,
  renamed, updated, committed, cleaned, rescanned, scanning, Answer, fine, differs, raises, applied,
  Sequence, Act, reply, ask, consult, perform, write, catching, relabelled, logged,
}
use anime_db.Execution.Sequence.{
  for_each, check_execution, identity_check, check_journal, verify_within, verify_physical,
  check_capture, require_predecessor, check_prepared, Scope, incomplete,
}

-- The plan of an action, in front of what comes after it.
abbrev pub open_plan : ℕ → List Event → List Event
open_plan zero rest = created ∷ rest
open_plan (suc i) rest = rest

abbrev pub rename_plan : ManifestAction → ℕ → List Event → List Event
rename_plan a i rest = if a.action == "KEEP" then rest else renamed i ∷ rest

abbrev pub action_plan : ManifestAction → ℕ → List Event → List Event
action_plan a i rest =
    evidenced i
    ∷ open_plan i (
        recorded i pending
        ∷ rename_plan a i (
            recorded i fs_applied
            ∷ recorded i fs_verified
            ∷ updated i
            ∷ committed i
            ∷ recorded i db_reconciled
            ∷ recorded i complete
            ∷ rest))

abbrev pub plan_from : List ManifestAction → ℕ → List Event → List Event
plan_from [] i rest = rest
plan_from (a ∷ later) i rest = let tail = plan_from later (i + 1) rest in action_plan a i tail

abbrev pub rescan_plan : Scope → List Event
rescan_plan scope =
    if scope.rescan then rescanned ∷ (if scope.resume then scanning ∷ [] else []) else []

-- Once the guard and the directories stand
abbrev pub prepared_plan : Scope → List ManifestAction → List Event
prepared_plan scope actions =
    plan_from actions 0 (if scope.cleanup then cleaned ∷ rescan_plan scope else rescan_plan scope)

abbrev pub plan : Scope → List ManifestAction → List Event
plan scope actions = guarded ∷ directories_made ∷ prepared_plan scope actions

module _ (all : List Event) where
  abbrev pub Ahead : List Event → Sequence → Type 0
  Ahead rest s = all ≡ s.log ++ rest

  abbrev pub Stops : Exn → Sequence → Type 0
  Stops e s = (rest : List Event) × Ahead rest s

  -- The action that is under way, and what is ahead.
  abbrev pub At : ℕ → List Event → Sequence → Type 0
  At i rest s = (s.active_index ≡ i) × Ahead rest s

  abbrev pub Step : ℕ → List Event → List Event → {A : Type 0} → Act A → Type 0
  Step i rest rest' {A} m = Ensures (At i rest) m (λ (_ : A). At i rest') Stops

  module _ (i : ℕ) (rest : List Event) where
    pub stops : (e : Exn) (s : Sequence) → At i rest s → Stops e s
    stops e s h = (rest, h.1)

    pub reply-At :
        (answers : List Answer) (s : Sequence)
        → At i rest s
        → Outcome (λ _. At i rest) Stops (reply answers s)
    reply-At [] s h = h
    reply-At (fine ∷ a) s h = h
    reply-At (differs ∷ a) s h = h
    reply-At (raises e ∷ a) s h = (rest, h.1)
    reply-At (applied e ∷ a) s h = (rest, h.1)

  module _ {i : ℕ} {rest : List Event} where
    pub ask-At : Step i rest rest ask
    unfolding ask
    ask-At = record { at = λ s h. reply-At i rest s.answers s h }

    pub consult-At : Step i rest rest consult
    unfolding consult
    consult-At = bind ask-At (λ _. Ensures-pure _ (λ s h. h))

    pub guard-At : (b : Bool) (e : Exn) → Step i rest rest (raise_if b e)
    guard-At b e = last_guard b e (stops i rest e)

    pub test-At :
        (b : Sequence → Bool) (e : Sequence → Exn) → Step i rest rest (λ s. raise_if (b s) (e s) s)
    test-At b e = record { at = λ s h. (guard-At (b s) (e s)).at s h }

    pub by_state :
        {A : Type 0} (m : Sequence → Act A)
        → ((s : Sequence) → Step i rest rest (m s))
        → Step i rest rest (λ s. m s s)
    by_state m h = record { at = λ s p. (h s).at s p }

    pub for_each-At :
        (is : List ℕ) (f : ℕ → Act (Unit {0}))
        → ((j : ℕ) → Step i rest rest (f j))
        → Step i rest rest (for_each is f)
    unfolding for_each
    for_each-At [] f h = Ensures-pure _ (λ s p. p)
    for_each-At (j ∷ is) f h = bind (h j) (λ _. for_each-At is f h)

  pub later_log :
      (v : Event) (rest : List Event) (s : Sequence) → Ahead (v ∷ rest) s → Ahead rest (logged v s)
  later_log v rest s h = h ∙ sym (append_assoc s.log (v ∷ []) rest)

  pub perform-At :
      (i : ℕ) (v : Event) (rest : List Event) (answers : List Answer) (s : Sequence)
      → At i (v ∷ rest) s
      → Outcome (λ _. At i rest) Stops (perform v answers s)
  perform-At i v rest [] s (is, h) = (is, later_log v rest s h)
  perform-At i v rest (fine ∷ a) s (is, h) = (is, later_log v rest s h)
  perform-At i v rest (differs ∷ a) s (is, h) = (is, later_log v rest s h)
  perform-At i v rest (raises e ∷ a) s (is, h) = (v ∷ rest, h)
  perform-At i v rest (applied e ∷ a) s (is, h) = (rest, later_log v rest s h)

  pub write-At : (i : ℕ) (v : Event) (rest : List Event) → Step i (v ∷ rest) rest (write v)
  unfolding write
  write-At i v rest = record { at = λ s h. perform-At i v rest s.answers s h }

  pub relabelled-At :
      {A : Type 0} (f : Phase → Exn → Exn) (Q : A → Sequence → Type 0) (r : Result Exn A × Sequence)
      → Outcome Q Stops r
      → Outcome Q Stops (relabelled f r)
  relabelled-At f Q (ok a, s) h = h
  relabelled-At f Q (err e, s) h = h

  pub catching-At :
      {A : Type 0} {m : Act A} {i : ℕ} {rest rest' : List Event} (f : Phase → Exn → Exn)
      → Step i rest rest' m
      → Step i rest rest' (catching f m)
  unfolding catching
  catching-At {m} f h = record { at = λ s p. relabelled-At f _ (m s) (h.at s p) }

  module _ {i : ℕ} {rest : List Event} where
    pub as_is :
        (f : Sequence → Sequence)
        → ((s : Sequence) → At i rest s → At i rest (f s))
        → Step i rest rest (modify f)
    as_is f h = Ensures-modify f h

    pub check_journal-At : Step i rest rest check_journal
    unfolding check_journal
    check_journal-At = catching-At _ (bind ask-At (λ same. guard-At (not same) _))

    pub verify_within-At : (j : ℕ) → Step i rest rest (verify_within j)
    unfolding verify_within
    verify_within-At j =
        catching-At _
          (bind ask-At (λ same. test-At (λ _. not same) (λ s. stopped filesystem s.phase)))

    pub verify_physical-At : (j : ℕ) → Step i rest rest (verify_physical j)
    unfolding verify_physical
    verify_physical-At j = bind consult-At λ _. bind (verify_within-At j) λ _. consult-At

    pub identity_check-At : (j : ℕ) → Step i rest rest (identity_check j)
    unfolding identity_check
    identity_check-At j = consult-At

    pub check_execution-At : Step i rest rest check_execution
    unfolding check_execution
    check_execution-At = consult-At

    pub skip_or :
        (b : Bool) {m : Act (Unit {0})}
        → Step i rest rest m
        → Step i rest rest (if b then m else pure tt)
    skip_or true h = h
    skip_or false h = Ensures-pure _ (λ s p. p)

    pub check_capture-At : (j : ℕ) → Step i rest rest (check_capture j)
    unfolding check_capture
    check_capture-At j = bind (identity_check-At j) λ _.
        by_state (λ s. if ltb j s.active_index then verify_within j else pure tt)
          (λ s. skip_or (ltb j s.active_index) (verify_within-At j))

    pub check_prepared-At : Step i rest rest check_prepared
    unfolding check_prepared
    check_prepared-At = bind consult-At λ _. bind ask-At λ same. guard-At (not same) _

    pub require_predecessor-At : Step i rest rest require_predecessor
    unfolding require_predecessor
    require_predecessor-At = bind consult-At λ _.
        bind
          (bind (as_is _ (λ s h. h)) λ _. bind check_journal-At λ _.
            bind (test-At (λ s. incomplete s.active_index s.history) _) λ _.
              bind (as_is _ (λ s h. h)) λ _. bind consult-At λ _. bind (as_is _ (λ s h. h)) λ _.
                bind
                  (by_state (λ s. verify_within (s.active_index - 1))
                    (λ s. verify_within-At (s.active_index - 1)))
                  λ _. check_journal-At)
          λ _. consult-At
