-- ===== src/Execution/Sequence/Once.antt =====
-- An execution owner: what one call writes, of what `Event` lists, and that no later call writes anything.
use anime_db.Base.{
  ◌≡◌, refl, sym, ap, ◌∙◌, Bool, true, false, ◌||◌, List, [], ◌∷◌, ◌++◌, Result, ok, err, arith,
  inl, inr, Bool-cases, if◌then◌else◌,
}
use mathlib.Core.Path.{subst}
use anime_db.Base.Effects.{Outcome, ◌>>=◌, modify, raise_if, outcome_after}
use mathlib.Core.List.{append-nil}
use anime_db.Execution.Manifest.{ManifestAction}
use anime_db.Execution.Sequence.Stages.{
  Exn, stopped, interrupt, rename_rejected, rename_reconciliation, identity_reconciliation, other,
  Event, Answer, fine, differs, raises, applied, Sequence, ask, reply,
}
use anime_db.Execution.Sequence.{Scope}
use anime_db.Execution.Sequence.Owner.{
  attempt, settled, finish, after_finish, closing_error, shut, spend, execute_once, classify,
  stopping,
}
use anime_db.Execution.Sequence.Ahead.{plan}
use anime_db.Execution.Sequence.Order.{attempt-Ahead}

-- The events so far are the start of the plan.
abbrev pub Begun : List Event → Sequence → Type 0
Begun all s = (rest : List Event) × (all ≡ s.log ++ rest)

module _ (all : List Event) where
  abbrev Ended : Result Exn (Unit {0}) × Sequence → Type 0
  Ended = Outcome (λ _ s. all ≡ s.log ++ []) (λ _. Begun all)

  -- The same changes, whatever the outcome is now.
  begun : (r : Result Exn (Unit {0})) (s : Sequence) → Ended (r, s) → Begun all s
  begun (ok r) s h = ([], h)
  begun (err e) s h = h

  stopping-log : (e : Exn) (s : Sequence) → (stopping e s).log ≡ s.log
  stopping-log (stopped c p) s = refl
  stopping-log interrupt s = refl
  stopping-log rename_rejected s = refl
  stopping-log rename_reconciliation s = refl
  stopping-log identity_reconciliation s = refl
  stopping-log other s = refl

  settled-Ended : (r : Result Exn (Unit {0}) × Sequence) → Ended r → Ended (settled r)
  settled-Ended (ok r, s) h = h
  settled-Ended (err e, s) (rest, h) = (rest, rw (stopping-log (classify s.phase e) s) h)

  closing_error-Begun : (e : Exn) (s : Sequence) → Begun all s → Ended (closing_error e s)
  closing_error-Begun interrupt s h = h
  closing_error-Begun (stopped c p) s h = h
  closing_error-Begun rename_rejected s h = h
  closing_error-Begun rename_reconciliation s h = h
  closing_error-Begun identity_reconciliation s h = h
  closing_error-Begun other s h = h

  finish-Ended :
      (r : Result Exn (Unit {0})) (c : Result Exn Bool × Sequence)
      → Outcome (λ (_ : Bool) s. Ended (r, s)) (λ _ s. Ended (r, s)) c
      → Ended (after_finish r c)
  finish-Ended r (ok b, s) h = h
  finish-Ended (ok r) (err e, s) h = closing_error-Begun e s ([], h)
  finish-Ended (err p) (err e, s) h = h

  kept_by :
      (r : Result Exn (Unit {0})) (s : Sequence) (answers : List Answer)
      → Ended (r, s)
      → Ended (r, record (shut s) { answers = answers })
  kept_by (ok r) s answers h = h
  kept_by (err e) s answers h = h

  reply-Ended :
      (r : Result Exn (Unit {0})) (answers : List Answer) (s : Sequence)
      → Ended (r, s)
      → Outcome (λ (_ : Bool) s'. Ended (r, s')) (λ _ s'. Ended (r, s')) (reply answers (shut s))
  reply-Ended r [] s h = kept_by r s s.answers h
  reply-Ended r (fine ∷ a) s h = kept_by r s a h
  reply-Ended r (differs ∷ a) s h = kept_by r s a h
  reply-Ended r (raises e ∷ a) s h = kept_by r s a h
  reply-Ended r (applied e ∷ a) s h = kept_by r s a h

  finished-Ended : (r : Result Exn (Unit {0}) × Sequence) → Ended r → Ended (finish r)
  unfolding finish ask
  finished-Ended (r, s) h = finish-Ended r (reply s.answers (shut s)) (reply-Ended r s.answers s h)

closing_error-closed :
    (e : Exn) (s : Sequence) → s.closed ≡ true → (closing_error e s).1.closed ≡ true
closing_error-closed interrupt s h = h
closing_error-closed (stopped c p) s h = h
closing_error-closed rename_rejected s h = h
closing_error-closed rename_reconciliation s h = h
closing_error-closed identity_reconciliation s h = h
closing_error-closed other s h = h

reply-closed : (answers : List Answer) (s : Sequence) → (reply answers (shut s)).1.closed ≡ true
reply-closed [] s = refl
reply-closed (fine ∷ a) s = refl
reply-closed (differs ∷ a) s = refl
reply-closed (raises e ∷ a) s = refl
reply-closed (applied e ∷ a) s = refl

after_finish-closed :
    (r : Result Exn (Unit {0})) (c : Result Exn Bool × Sequence)
    → c.1.closed ≡ true
    → (after_finish r c).1.closed ≡ true
after_finish-closed r (ok b, s) h = h
after_finish-closed (ok r) (err e, s) h = closing_error-closed e s h
after_finish-closed (err p) (err e, s) h = h

pub finish-closed : (r : Result Exn (Unit {0}) × Sequence) → (finish r).1.closed ≡ true
unfolding finish ask
finish-closed (r, s) = after_finish-closed r (reply s.answers (shut s)) (reply-closed s.answers s)

-- Every later call is refused, and does nothing.
abbrev pub Spent : Sequence → Type 0
Spent s = (s.spent || s.closed) ≡ true

pub closed-Spent : (t : Sequence) → t.closed ≡ true → Spent t
closed-Spent t h = ground arith

module _ (scope : Scope) (actions : List ManifestAction) (s : Sequence) where
  abbrev all : List Event
  all = s.log ++ plan scope actions

  abbrev Served : Result Exn (Unit {0}) × Sequence → Type 0
  Served = Outcome (λ _ t. (t.log ≡ all) × Spent t) (λ _ t. Begun all t × Spent t)

  ended : (r : Result Exn (Unit {0}) × Sequence) → Ended all r → r.1.closed ≡ true → Served r
  ended (ok r, t) h shuts = (sym (h ∙ append-nil t.log), closed-Spent t shuts)
  ended (err e, t) h shuts = (h, closed-Spent t shuts)

  pub execute_once-Spent :
      Spent s → (execute_once true scope actions s) ≡ (err (stopped s.stop_class s.phase), s)
  unfolding execute_once ◌>>=◌ raise_if
  execute_once-Spent h = rw h refl

  pub execute_once-fresh :
      (s.spent || s.closed) ≡ false
      → execute_once true scope actions s ≡ finish (settled (attempt scope actions (spend s)))
  unfolding execute_once ◌>>=◌ raise_if modify
  execute_once-fresh h = rw h refl

  own-Served : Served (execute_once true scope actions s)
  own-Served = elim (Bool-cases (s.spent || s.closed)) [
    | inl gone ↦
        subst (λ r. Served r) (sym (execute_once-Spent gone)) ((plan scope actions, refl), gone)
    | inr fresh ↦
        let r = attempt scope actions (spend s) in
        subst (λ r. Served r) (sym (execute_once-fresh fresh))
          (ended (finish (settled r))
            (finished-Ended all (settled r)
              (settled-Ended all r ((attempt-Ahead all scope actions).at (spend s) refl)))
            (finish-closed (settled r)))
  ]

  -- The events of a call are the start of its plan, in order; a call that returns has made them all.
  pub execute_once-in_order :
      (same_process : Bool)
      → Outcome
          (λ _ t. t.log ≡ s.log ++ plan scope actions)
          (λ _ t. (rest : List Event) × (s.log ++ plan scope actions ≡ t.log ++ rest))
          (execute_once same_process scope actions s)
  unfolding execute_once ◌>>=◌ raise_if
  execute_once-in_order false = (plan scope actions, refl)
  execute_once-in_order true =
      let (r, t) = execute_once true scope actions s in
      outcome_after _ (λ _ t. t.log ≡ all) _ (λ _ t. Begun all t) r t (λ _ t h. h.0) (λ e t h. h.0)
        own-Served

pub record Call : Type 0 where
  pub same_process : Bool
  pub scope : Scope
  pub actions : List ManifestAction

-- The owner after a list of calls, whatever they raised.
abbrev pub after_calls : List Call → Sequence → Sequence
after_calls [] s = s
after_calls (c ∷ cs) s = after_calls cs (execute_once c.same_process c.scope c.actions s).1

-- The plan of the first call in the owner's process
abbrev pub owner_plan : List Call → List Event
owner_plan [] = []
owner_plan (c ∷ cs) =
    let later = owner_plan cs in if c.same_process then plan c.scope c.actions else later

Served-Begun :
    (c : Call) (s : Sequence) (r : Result Exn (Unit {0}) × Sequence)
    → Served c.scope c.actions s r
    → Begun (all c.scope c.actions s) r.1 × Spent r.1
Served-Begun c s (ok r, t) (h, spent) = (([], sym h ∙ sym (append-nil t.log)), spent)
Served-Begun c s (err e, t) h = h

foreign :
    (scope : Scope) (actions : List ManifestAction) (s : Sequence)
    → (execute_once false scope actions s).1 ≡ s
unfolding execute_once ◌>>=◌ raise_if
foreign scope actions s = refl

refused :
    (b : Bool) (scope : Scope) (actions : List ManifestAction) (s : Sequence)
    → Spent s
    → (execute_once b scope actions s).1 ≡ s
refused false scope actions s h = foreign scope actions s
refused true scope actions s h =
    ap (λ (r : Result Exn (Unit {0}) × Sequence). r.1) (execute_once-Spent scope actions s h)

after_calls-Spent : (cs : List Call) (s : Sequence) → Spent s → after_calls cs s ≡ s
after_calls-Spent [] s h = refl
after_calls-Spent (c ∷ cs) s h =
    rw (refused c.same_process c.scope c.actions s h) (after_calls-Spent cs s h)

serve_first :
    (b : Bool) (c : Call) (cs : List Call) (s : Sequence)
    → ((t : Sequence)
        → (rest : List Event) × (t.log ++ owner_plan cs ≡ (after_calls cs t).log ++ rest))
    → (rest : List Event) × (s.log ++ (if b then plan c.scope c.actions else owner_plan cs)
        ≡ (after_calls cs (execute_once b c.scope c.actions s).1).log ++ rest)
serve_first false c cs s later = rw (foreign c.scope c.actions s) (later s)
serve_first true c cs s later =
    let ((rest, h), spent) = Served-Begun c s _ (own-Served c.scope c.actions s) in
    (rest, h ∙ ap (λ (t : Sequence). t.log ++ rest) (sym (after_calls-Spent cs _ spent)))

-- Of all calls on an owner the first of its process alone makes events, and they are the start of its
-- plan.
pub after_calls-once :
    (cs : List Call) (s : Sequence)
    → (rest : List Event) × (s.log ++ owner_plan cs ≡ (after_calls cs s).log ++ rest)
after_calls-once [] s = ([], refl)
after_calls-once (c ∷ cs) s = serve_first c.same_process c cs s (after_calls-once cs)
