-- ===== src/Execution/Sequence/Order.antt =====
-- An execution makes its changes in the order of its plan, and one that returns has made them all.
use anime_db.Base.{
  ℕ, refl, Bool, List, [], ◌∷◌, length, if◌then◌else◌, Bool-cases, inl, inr, String_eq, ◌+◌, zero,
  suc,
}
use anime_db.Base.Effects.{
  Ensures, ◌>>◌, pure, bind, after, outcome_after, Ensures-pure, Ensures-modify,
}
use anime_db.Execution.Manifest.{ManifestAction}
use anime_db.Execution.Sequence.Stages.{
  Event, guarded, directories_made, cleaned, rescanned, scanning, Act, write,
}
use anime_db.Execution.Sequence.{
  for_each, verify_physical, gate, run_actions, Scope, rescan_library, execute_actions, range,
}
use anime_db.Execution.Sequence.Owner.{prepare, attempt}
use anime_db.Execution.Sequence.Ahead.{
  action_plan, plan_from, rescan_plan, prepared_plan, plan, Ahead, Stops, At, Step, consult-At,
  for_each-At, write-At, as_is, check_journal-At, verify_physical-At, check_execution-At,
  require_predecessor-At,
}
use anime_db.Execution.Sequence.Moved.{run_pinned-At}

module _ (all : List Event) where
  gate-At : (i : ℕ) {rest : List Event} → Step all i rest rest (gate i)
  gate-At zero = Ensures-pure _ (λ s h. h)
  gate-At (suc i) = (require_predecessor-At all)

  run_actions-Ahead :
      (n : ℕ) (actions : List ManifestAction) (i : ℕ) (rest : List Event)
      → Ensures
          (Ahead all (plan_from actions i rest))
          (run_actions n actions i)
          (λ _. Ahead all rest)
          (Stops all)
  unfolding run_actions
  run_actions-Ahead n [] i rest = Ensures-pure _ (λ s h. h)
  run_actions-Ahead n (a ∷ later) i rest =
      let tail = plan_from later (i + 1) rest in
      bind (Ensures-modify {Q = At all i (action_plan a i tail)} _ (λ s h. (refl, h))) λ _.
        bind (gate-At i) λ _. bind (as_is all _ (λ s h. h)) λ _.
          bind (after {Q = λ _. At all i tail} (λ _ s h. h.1) (run_pinned-At all n a i tail))
            λ _. run_actions-Ahead n later (i + 1) rest

  -- Steps outside of an action, whatever index was the last.
  any_index :
      {A : Type 0} {m : Act A} {rest rest' : List Event}
      → ((i : ℕ) → Step all i rest rest' m)
      → Ensures (Ahead all rest) m (λ _. Ahead all rest') (Stops all)
  any_index {m} {rest} {rest'} h = record {
    at = λ s p.
        let (r, s') = m s in
        outcome_after (λ _. At all s.active_index rest') (λ _. Ahead all rest') (Stops all)
          (Stops all) r s' (λ a t q. q.1) (λ e t q. q) ((h s.active_index).at s (refl, p));
  }

  rescan_library-At :
      (i : ℕ) (resume : Bool)
      → Step all i (rescanned ∷ (if resume then scanning ∷ [] else [])) [] (rescan_library resume)
  unfolding rescan_library
  rescan_library-At i resume = bind (as_is all _ (λ s h. h)) λ _.
      bind (write-At all i rescanned _) λ _. elim (Bool-cases resume) [
        | inl resumes ↦
            rw resumes (bind (write-At all i scanning []) λ _. Ensures-pure _ (λ s h. h))
        | inr rests ↦ rw rests (Ensures-pure _ (λ s h. h))
      ]

  cleanup-At :
      (scope : Scope) (n i : ℕ) (rest : List Event)
      → Step all i (if scope.cleanup then cleaned ∷ rest else rest) rest (
          if scope.cleanup
          then (write cleaned >> pure tt)
          else for_each (range 0 n) verify_physical)
  cleanup-At scope n i rest = elim (Bool-cases scope.cleanup) [
    | inl cleans ↦ rw cleans (bind (write-At all i cleaned rest) λ _. Ensures-pure _ (λ s h. h))
    | inr keeps ↦ rw keeps (for_each-At all _ _ (verify_physical-At all))
  ]

  rescan-At :
      (scope : Scope) (i : ℕ)
      → Step all i
          (rescan_plan scope)
          []
          (if scope.rescan then rescan_library scope.resume else pure tt)
  rescan-At scope i = elim (Bool-cases scope.rescan) [
    | inl rescans ↦ rw rescans (rescan_library-At i scope.resume)
    | inr stays ↦ rw stays (Ensures-pure _ (λ s h. h))
  ]

  execute_actions-Ahead :
      (scope : Scope) (actions : List ManifestAction)
      → Ensures
          (Ahead all (prepared_plan scope actions))
          (execute_actions scope actions)
          (λ _. Ahead all [])
          (Stops all)
  unfolding execute_actions
  execute_actions-Ahead scope actions = bind (run_actions-Ahead (length actions) actions 0 _) λ _.
      bind (any_index (λ i. (check_journal-At all))) λ _.
        bind (any_index (λ i. (consult-At all))) λ _.
          bind (any_index (λ i. cleanup-At scope (length actions) i (rescan_plan scope)))
            λ _. any_index (λ i. rescan-At scope i)

  prepare-At :
      {i : ℕ} {rest : List Event} → Step all i (guarded ∷ directories_made ∷ rest) rest prepare
  unfolding prepare
  prepare-At = bind (check_execution-At all) λ _. bind (consult-At all) λ _.
      bind (as_is all _ (λ s h. h)) λ _. bind (consult-At all) λ _.
        bind (as_is all _ (λ s h. h)) λ _. bind (consult-At all) λ _.
          bind (check_execution-At all) λ _. bind (consult-At all) λ _.
            bind (as_is all _ (λ s h. h)) λ _.
              bind (write-At all _ guarded _)
                λ _. bind (write-At all _ directories_made _) λ _. (consult-At all)

  pub attempt-Ahead :
      (scope : Scope) (actions : List ManifestAction)
      → Ensures
          (Ahead all (plan scope actions))
          (attempt scope actions)
          (λ _. Ahead all [])
          (Stops all)
  unfolding attempt
  attempt-Ahead scope actions =
      bind (any_index (λ i. prepare-At)) λ _. execute_actions-Ahead scope actions
