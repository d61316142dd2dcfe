-- ===== src/Execution/Sequence/Stops.antt =====
-- What an execution owner raises, and that it raises the same again whenever it is called again.
use anime_db.Base.{
  ◌≡◌, refl, sym, ap, ◌∙◌, Bool, true, ◌||◌, ◌&&◌, List, [], ◌∷◌, Result, ok, err, inl, inr,
  Bool-cases,
}
use anime_db.Base.Effects.{Outcome, outcome_after}
use mathlib.Core.Path.{subst}
use anime_db.Execution.Manifest.{ManifestAction}
use anime_db.Execution.Sequence.Stages.{
  Category, Phase, Exn, stopped, interrupt, rename_rejected, rename_reconciliation,
  identity_reconciliation, other, Answer, fine, differs, raises, applied, Sequence, reply, ask,
}
use anime_db.Execution.Sequence.{Scope}
use anime_db.Execution.Sequence.Owner.{
  attempt, settled, finish, after_finish, outlasting, closing_error, shut, spend, execute_once,
  classify, stopping, is_p2c, is_plain,
}
use anime_db.Execution.Sequence.Once.{
  Spent, execute_once-Spent, execute_once-fresh, finish-closed, closed-Spent,
}

-- A stop is what the owner keeps; a signal leaves as it came; nothing else is raised.
abbrev pub Kept : Exn → Sequence → Type 0
Kept (stopped c p) s = (s.stop_class ≡ c) × (s.phase ≡ p)
Kept interrupt s = Unit
Kept _ s = ⊥

classify-Kept :
    (phase : Phase) (e : Exn) (s : Sequence)
    → Kept (classify phase e) (stopping (classify phase e) s)
classify-Kept phase interrupt s = tt
classify-Kept phase (stopped c p) s = elim (Bool-cases (is_p2c phase && is_plain c)) [
  | inl late ↦ rw late (refl, refl)
  | inr early ↦ rw early (refl, refl)
]
classify-Kept phase rename_rejected s = (refl, refl)
classify-Kept phase rename_reconciliation s = (refl, refl)
classify-Kept phase identity_reconciliation s = (refl, refl)
classify-Kept phase other s = (refl, refl)

abbrev Ends : Result Exn (Unit {0}) × Sequence → Type 0
Ends = Outcome (λ _ s. Unit) Kept

settled-Ends : (r : Result Exn (Unit {0}) × Sequence) → Ends (settled r)
settled-Ends (ok r, s) = tt
settled-Ends (err e, s) = classify-Kept s.phase e s

closing_error-Ends : (e : Exn) (s : Sequence) → Ends (closing_error e s)
closing_error-Ends interrupt s = tt
closing_error-Ends (stopped c p) s = (refl, refl)
closing_error-Ends rename_rejected s = (refl, refl)
closing_error-Ends rename_reconciliation s = (refl, refl)
closing_error-Ends identity_reconciliation s = (refl, refl)
closing_error-Ends other s = (refl, refl)

outlasting-Kept : (p e : Exn) (s : Sequence) → Kept p s → Kept (outlasting p e) s
outlasting-Kept p interrupt s h = tt
outlasting-Kept p (stopped c at) s h = h
outlasting-Kept p rename_rejected s h = h
outlasting-Kept p rename_reconciliation s h = h
outlasting-Kept p identity_reconciliation s h = h
outlasting-Kept p other s h = h

after_finish-Ends :
    (r : Result Exn (Unit {0})) (c : Result Exn Bool × Sequence)
    → Ends (r, c.1)
    → Ends (after_finish r c)
after_finish-Ends r (ok b, s) h = h
after_finish-Ends (ok r) (err e, s) h = closing_error-Ends e s
after_finish-Ends (err p) (err e, s) h = outlasting-Kept p e s h

Kept-shut :
    (e : Exn) (s : Sequence) (answers : List Answer)
    → Kept e s
    → Kept e (record (shut s) { answers = answers })
Kept-shut (stopped c p) s answers h = h
Kept-shut interrupt s answers h = h
Kept-shut rename_rejected s answers h = elim h [ ]
Kept-shut rename_reconciliation s answers h = elim h [ ]
Kept-shut identity_reconciliation s answers h = elim h [ ]
Kept-shut other s answers h = elim h [ ]

replied :
    (r : Result Exn (Unit {0})) (answers : List Answer) (s : Sequence)
    → Ends (r, s)
    → Ends (r, (reply answers (shut s)).1)
replied (ok r) answers s h = tt
replied (err e) [] s h = Kept-shut e s s.answers h
replied (err e) (fine ∷ a) s h = Kept-shut e s a h
replied (err e) (differs ∷ a) s h = Kept-shut e s a h
replied (err e) (raises d ∷ a) s h = Kept-shut e s a h
replied (err e) (applied d ∷ a) s h = Kept-shut e s a h

finish-Ends : (r : Result Exn (Unit {0}) × Sequence) → Ends r → Ends (finish r)
unfolding finish ask
finish-Ends (r, s) h = after_finish-Ends r (reply s.answers (shut s)) (replied r s.answers s h)

module _ (scope : Scope) (actions : List ManifestAction) (s : Sequence) where
  abbrev Closed : Result Exn (Unit {0}) × Sequence → Type 0
  Closed = Outcome (λ _ t. Spent t) (λ e t. Kept e t × Spent t)

  both : (r : Result Exn (Unit {0}) × Sequence) → Ends r → Spent r.1 → Closed r
  both (ok r, t) h spent = spent
  both (err e, t) h spent = (h, spent)

  execute_once-Closed : Closed (execute_once true scope actions s)
  execute_once-Closed = elim (Bool-cases (s.spent || s.closed)) [
    | inl gone ↦
        subst (λ r. Closed r) (sym (execute_once-Spent scope actions s gone)) ((refl, refl), gone)
    | inr fresh ↦
        let r = settled (attempt scope actions (spend s)) in
        subst (λ r. Closed r) (sym (execute_once-fresh scope actions s fresh))
          (both (finish r) (finish-Ends r (settled-Ends (attempt scope actions (spend s))))
            (closed-Spent (finish r).1 (finish-closed r)))
  ]

-- The stop that a later call raises: the one that was raised, and after a signal or a return the one
-- that the owner keeps.
abbrev pub Repeats : Exn → Sequence → Result Exn (Unit {0}) × Sequence → Type 0
Repeats (stopped c p) t r = r ≡ (err (stopped c p), t)
Repeats interrupt t r = r ≡ (err (stopped t.stop_class t.phase), t)
Repeats _ t r = ⊥

module _ (scope later : Scope) (actions again : List ManifestAction) (s : Sequence) where
  repeats :
      (e : Exn) (t : Sequence) → Kept e t → Spent t → Repeats e t (execute_once true later again t)
  repeats (stopped c p) t (is, at) spent =
      execute_once-Spent later again t spent
      ∙ (ap (λ (k : Category). (err (stopped k t.phase), t)) is
          ∙ ap (λ (q : Phase). (err (stopped c q), t)) at)
  repeats interrupt t h spent = execute_once-Spent later again t spent
  repeats rename_rejected t h spent = elim h [ ]
  repeats rename_reconciliation t h spent = elim h [ ]
  repeats identity_reconciliation t h spent = elim h [ ]
  repeats other t h spent = elim h [ ]

  -- A call returns, or raises a signal or a stop; every later call changes nothing and raises the same
  -- stop again, or the one that the owner keeps.
  pub execute_once-Repeats :
      Outcome
        (λ _ t. execute_once true later again t ≡ (err (stopped t.stop_class t.phase), t))
        (λ e t. Repeats e t (execute_once true later again t))
        (execute_once true scope actions s)
  execute_once-Repeats =
      let (r, t) = execute_once true scope actions s in
      outcome_after (λ _ t. Spent t) _ (λ e t. Kept e t × Spent t) _ r t
        (λ _ t spent. execute_once-Spent later again t spent) (λ e t h. repeats e t h.0 h.1)
        (execute_once-Closed scope actions s)
