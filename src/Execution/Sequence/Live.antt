-- ===== src/Execution/Sequence/Live.antt =====
-- An execution in which every call answers as expected gets to its end.
use anime_db.Base.{
  ℕ, ◌≡◌, refl, sym, ap, ◌∙◌, Bool, true, false, not, ◌||◌, List, [], ◌∷◌, ◌++◌, length, Result, ok,
  err, if◌then◌else◌, Bool-cases, inl, inr, nat_eq_iff, ◌==◌, String_eq, ◌+◌, ◌*◌, zero, suc, arith,
}
use anime_db.Base.Effects.{
  Ensures, Outcome, ◌>>◌, pure, bind, bind_fact, after, outcome_after, Ensures-pure, Ensures-modify,
}
use mathlib.Core.Path.{subst}
use anime_db.Execution.Manifest.{
  State, pending, fs_applied, fs_verified, db_reconciled, complete, ManifestAction,
}
use anime_db.Execution.Sequence.Stages.{
  Exn, Event, guarded, directories_made, evidenced, renamed, updated, committed, created, cleaned,
  rescanned, scanning, Sequence, Act, reply, ask, write, with_closing, after_closing,
}
use anime_db.Execution.Sequence.{
  for_each, verify_physical, open_journal, call_rename, before_rename, rename_and_verify,
  update_database, reconcile, final_verification, run_move, run_pinned, gate, run_actions, Scope,
  rescan_library, execute_actions, range, incomplete,
}
use anime_db.Execution.Sequence.Owner.{
  prepare, attempt, settled, finish, execute_once, spend, after_finish, shut,
}
use anime_db.Execution.Sequence.Ahead.{plan}
use anime_db.Execution.Sequence.Once.{execute_once-fresh, execute_once-in_order}
use anime_db.Execution.Sequence.Calm.{
  Never, Calm, Goes, Gives, ask-Gives, write-Gives, consult-Goes, pass, pass_state, for_each-Goes,
  as_is, catching-Ensures, check_journal-Goes, verify_physical-Goes, identity_check-Goes,
  check_execution-Goes, skip_or, check_prepared-Goes, require_predecessor-Goes, written,
  append-Goes,
}

-- The records of an action, newest first.
abbrev with_action : ℕ → List (ℕ × State) → List (ℕ × State)
with_action i h =
    (i, complete) ∷ (i, db_reconciled) ∷ (i, fs_verified) ∷ (i, fs_applied) ∷ (i, pending) ∷ h

-- What a later action asks of its predecessor
abbrev Gated : ℕ → List (ℕ × State) → Type 0
Gated zero h = h ≡ []
Gated (suc i) h = incomplete (suc i) h ≡ false

module _ {h : List (ℕ × State)} where
  gate-Goes : (i : ℕ) → Gated i h → Goes i h h (gate i)
  gate-Goes zero ready = Ensures-pure _ (λ s c. c)
  gate-Goes (suc i) ready = require_predecessor-Goes ready

  open_journal-Goes : (i : ℕ) → Gated i h → Goes i h h (open_journal i)
  open_journal-Goes zero ready =
      bind (as_is _ (λ s c. c))
        λ _. catching-Ensures _ (bind (written created) λ _. check_journal-Goes)
  open_journal-Goes (suc i) ready = require_predecessor-Goes ready

  before_rename-Goes : (i : ℕ) → Gated i h → Goes i h ((i, pending) ∷ h) (before_rename i)
  unfolding before_rename
  before_rename-Goes i ready = bind check_execution-Goes λ _. bind (as_is _ (λ s c. c)) λ _.
      bind consult-Goes λ _. bind check_prepared-Goes λ _. bind (as_is _ (λ s c. c)) λ _.
        bind_fact (write-Gives (evidenced i)) λ same is. bind (as_is _ (λ s c. c)) λ _.
          bind (pass (not same) _ (rw is refl)) λ _. bind consult-Goes λ _.
            bind (as_is _ (λ s c. c)) λ _.
              bind (identity_check-Goes i)
                λ _. bind (open_journal-Goes i ready) λ _. append-Goes pending

module _ {i : ℕ} {h : List (ℕ × State)} where
  call_rename-Gives : (a : ManifestAction) → Gives i h (call_rename a i)
  call_rename-Gives a = elim (Bool-cases (a.action == "KEEP")) [
    | inl keep ↦ rw keep ask-Gives
    | inr move ↦ rw move (write-Gives (renamed i))
  ]

  rename_and_verify-Goes :
      (a : ManifestAction)
      → Goes i h ((i, fs_verified) ∷ (i, fs_applied) ∷ h) (rename_and_verify a i)
  unfolding rename_and_verify
  rename_and_verify-Goes a = bind (as_is _ (λ s c. c)) λ _. bind (identity_check-Goes i) λ _.
      bind (as_is _ (λ s c. c)) λ _. bind_fact (call_rename-Gives a) λ durable is.
        bind (pass (not durable) _ (rw is refl)) λ _. bind (append-Goes fs_applied) λ _.
          bind (as_is _ (λ s c. c)) λ _. bind_fact (catching-Ensures _ ask-Gives) λ same is.
            bind (pass (not same) _ (rw is refl)) λ _.
              bind (as_is _ (λ s c. c))
                λ _. bind (identity_check-Goes i) λ _. append-Goes fs_verified

  update_database-Goes : (indices : List ℕ) → Goes i h h (update_database indices i)
  unfolding update_database
  update_database-Goes indices = bind (as_is _ (λ s c. c)) λ _. bind check_journal-Goes λ _.
      bind (for_each-Goes indices _ verify_physical-Goes) λ _. bind (as_is _ (λ s c. c)) λ _.
        bind check_execution-Goes λ _. bind (written (updated i)) λ _.
          bind (as_is _ (λ s c. c)) λ _.
            bind check_execution-Goes
              λ _. bind (written (committed i)) λ _. Ensures-pure _ (λ s c. c)

  reconcile-Goes :
      (indices : List ℕ) (state : State) → Goes i h ((i, state) ∷ h) (reconcile indices state)
  unfolding reconcile
  reconcile-Goes indices state = bind (as_is _ (λ s c. c)) λ _. bind consult-Goes λ _.
      bind (as_is _ (λ s c. c))
        λ _. bind (for_each-Goes indices _ verify_physical-Goes) λ _. append-Goes state

  final_verification-Goes : (indices : List ℕ) → Goes i h h (final_verification indices)
  unfolding final_verification
  final_verification-Goes indices = bind (as_is _ (λ s c. c)) λ _. bind consult-Goes λ _.
      bind (as_is _ (λ s c. c))
        λ _. bind (for_each-Goes indices _ verify_physical-Goes) λ _. check_journal-Goes

module _ {i : ℕ} {h : List (ℕ × State)} where
  run_move-Goes :
      (n : ℕ) (a : ManifestAction) → Gated i h → Goes i h (with_action i h) (run_move n a i)
  unfolding run_move
  run_move-Goes n a ready = bind (before_rename-Goes i ready) λ _.
      bind (rename_and_verify-Goes a) λ _. bind (update_database-Goes _) λ _.
        bind (reconcile-Goes _ db_reconciled)
          λ _. bind (reconcile-Goes _ complete) λ _. final_verification-Goes _

module _ (i : ℕ) (h : List (ℕ × State)) where
  closed_by :
      (r : Result Exn (Unit {0}) × Sequence)
      → Outcome (λ _. Calm i h) Never r
      → Outcome (λ _. Calm i h) Never (let (c, s) = ask r.1 in (after_closing r.0 c, s))
  unfolding ask
  closed_by (ok a, s) c =
      subst
        (λ l. Outcome (λ _. Calm i h) Never (let (b, t) = reply l s in (after_closing (ok a) b, t)))
        (sym c.0) c
  closed_by (err e, s) c = elim c [ ]

module _ {i : ℕ} {h : List (ℕ × State)} where
  with_closing-Goes :
      {m : Act (Unit {0})} {P : Sequence → Type 0}
      → Ensures P m (λ _. Calm i h) Never
      → Ensures P (with_closing m) (λ _. Calm i h) Never
  unfolding with_closing
  with_closing-Goes {m} g = record { at = λ s p. closed_by i h (m s) (g.at s p) }

module _ {i : ℕ} {h : List (ℕ × State)} where
  run_pinned-Goes :
      (n : ℕ) (a : ManifestAction) → Gated i h → Goes i h (with_action i h) (run_pinned n a i)
  unfolding run_pinned
  run_pinned-Goes n a ready = with_closing-Goes (
      bind (run_move-Goes n a ready) λ _. bind consult-Goes λ _.
        bind_fact ask-Gives
          λ same is. bind (pass_state (λ _. not same) _ (λ _ _. rw is refl)) λ _. consult-Goes)

abbrev Prefixed : ℕ → List (ℕ × State) → Type 0
Prefixed i h = (length h ≡ 5 * i) × Gated i h

more-Prefixed : (i : ℕ) (h : List (ℕ × State)) → Prefixed i h → Prefixed (i + 1) (with_action i h)
more-Prefixed i h (n, ready) =
    let count : suc
          (length ((i, db_reconciled) ∷ (i, fs_verified) ∷ (i, fs_applied) ∷ (i, pending) ∷ h))
        ≡ 5 * suc i =
      omega (arith, n) in
    let next : i + 1 ≡ suc i = omega arith in
    let fits : incomplete (suc i) (with_action i h) ≡ false =
      rw ((nat_eq_iff _ _).1 count, (nat_eq_iff _ _).1 next) refl in
    rw next (count, fits)

-- Any state with no answer left and these records, whatever its index.
abbrev Rests : List (ℕ × State) → Sequence → Type 0
Rests h s = (s.answers ≡ []) × (s.history ≡ h)

run_actions-Finishes :
    (n : ℕ) (actions : List ManifestAction) (i : ℕ) (h : List (ℕ × State))
    → Prefixed i h
    → Ensures (Rests h) (run_actions n actions i) (λ _ s. s.answers ≡ []) Never
unfolding run_actions
run_actions-Finishes n [] i h ready = Ensures-pure _ (λ s c. c.0)
run_actions-Finishes n (a ∷ later) i h ready =
    bind (Ensures-modify {Q = Calm i h} _ (λ s c. (c.0, refl, c.1))) λ _.
      bind (gate-Goes i ready.1) λ _. bind (as_is _ (λ s c. c)) λ _.
        bind
          (after {Q = λ _. Calm i (with_action i h)} (λ _ s c. (c.0, c.2))
            (run_pinned-Goes n a ready.1))
          λ _. run_actions-Finishes n later (i + 1) (with_action i h) (more-Prefixed i h ready)

-- Outside of an action.
at_rest :
    {m : Act (Unit {0})}
    → ((i : ℕ) (h : List (ℕ × State)) → Goes i h h m)
    → Ensures (λ s. s.answers ≡ []) m (λ _ s. s.answers ≡ []) Never
at_rest {m} g = record {
  at = λ s quiet.
      let (r, t) = m s in
      outcome_after (λ _. Calm s.active_index s.history) (λ _ t. t.answers ≡ []) Never Never r t
        (λ _ t c. c.0) (λ e t c. c) ((g s.active_index s.history).at s (quiet, refl, refl));
}

module _ {i : ℕ} {h : List (ℕ × State)} where
  rescan_library-Goes : (resume : Bool) → Goes i h h (rescan_library resume)
  unfolding rescan_library
  rescan_library-Goes resume = bind (as_is _ (λ s c. c)) λ _.
      bind (written rescanned)
        λ _. skip_or resume (bind (written scanning) λ _. Ensures-pure _ (λ s c. c))

  cleanup-Goes :
      (cleanup : Bool) (n : ℕ)
      → Goes i h h
          (if cleanup then (write cleaned >> pure tt) else for_each (range 0 n) verify_physical)
  cleanup-Goes true n = bind (written cleaned) λ _. Ensures-pure _ (λ s c. c)
  cleanup-Goes false n = for_each-Goes _ _ verify_physical-Goes

  prepare-Goes : Goes i h h prepare
  unfolding prepare
  prepare-Goes = bind check_execution-Goes λ _. bind consult-Goes λ _.
      bind (as_is _ (λ s c. c)) λ _. bind consult-Goes λ _. bind (as_is _ (λ s c. c)) λ _.
        bind consult-Goes λ _. bind check_execution-Goes λ _. bind consult-Goes λ _.
          bind (as_is _ (λ s c. c))
            λ _. bind (written guarded) λ _. bind (written directories_made) λ _. consult-Goes

attempt-Finishes :
    (scope : Scope) (actions : List ManifestAction)
    → Ensures (Rests []) (attempt scope actions) (λ _ s. s.answers ≡ []) Never
unfolding attempt execute_actions
attempt-Finishes scope actions =
    bind
      (record {
        at = λ s c.
            let (r, t) = prepare s in
            outcome_after (λ _. Calm s.active_index []) (λ _. Rests []) Never Never r t
              (λ _ t c. (c.0, c.2)) (λ e t c. c) (prepare-Goes.at s (c.0, refl, c.1));
      })
      λ _. bind (run_actions-Finishes (length actions) actions 0 [] (refl, refl)) λ _.
        bind (at_rest (λ i h. check_journal-Goes)) λ _. bind (at_rest (λ i h. consult-Goes)) λ _.
          bind (at_rest (λ i h. cleanup-Goes scope.cleanup (length actions)))
            λ _. at_rest (λ i h. skip_or scope.rescan (rescan_library-Goes scope.resume))

finished-ok :
    (r : Result Exn (Unit {0}) × Sequence)
    → Outcome (λ _ s. s.answers ≡ []) Never r
    → (finish (settled r)).0 ≡ ok tt
unfolding finish ask
finished-ok (ok a, s) quiet =
    subst (λ l. (after_finish (ok tt) (reply l (shut s))).0 ≡ ok tt) (sym quiet) refl
finished-ok (err e, s) quiet = elim quiet [ ]

log_of :
    (all : List Event) (R : Exn → Sequence → Type 0) (r : Result Exn (Unit {0}) × Sequence)
    → r.0 ≡ ok tt
    → Outcome (λ _ s. s.log ≡ all) R r
    → r.1.log ≡ all
log_of all R (ok a, s) is h = h
log_of all R (err e, s) is h = cc

-- A fresh owner, whose calls are all answered as expected, returns, with its whole plan carried out.
pub execute_once-completes :
    (scope : Scope) (actions : List ManifestAction) (s : Sequence)
    → s.answers ≡ []
    → s.history ≡ []
    → (s.spent || s.closed) ≡ false
    → ((execute_once true scope actions s).0 ≡ ok tt)
      × ((execute_once true scope actions s).1.log ≡ s.log ++ plan scope actions)
execute_once-completes scope actions s quiet none_yet fresh =
    let returned : (execute_once true scope actions s).0 ≡ ok tt =
      ap (λ (r : Result Exn (Unit {0}) × Sequence). r.0) (execute_once-fresh scope actions s fresh)
      ∙ finished-ok (attempt scope actions (spend s))
          ((attempt-Finishes scope actions).at (spend s) (quiet, none_yet)) in
    (returned, log_of _ _ _ returned (execute_once-in_order scope actions s true))
