-- ===== src/Execution/Sequence/Moved.antt =====
-- The move of one action makes its changes in the order of the plan.
use anime_db.Base.{
  ℕ, sym, Bool, not, List, [], ◌∷◌, Result, ok, err, Bool-cases, inl, inr, ◌==◌, String_eq, zero,
  suc,
}
use anime_db.Base.Effects.{Outcome, bind, Ensures-pure}
use mathlib.Core.Path.{subst}
use anime_db.Execution.Manifest.{
  State, pending, fs_applied, fs_verified, db_reconciled, complete, ManifestAction,
}
use anime_db.Execution.Sequence.Stages.{
  Exn, stopped, filesystem, Event, evidenced, created, recorded, renamed, updated, committed,
  Answer, fine, differs, raises, applied, Sequence, Act, reply, ask, write, with_closing,
  after_closing,
}
use anime_db.Execution.Sequence.{
  for_each, identity_check, check_capture, capture_indices, append, open_journal, call_rename,
  before_rename, rename_and_verify, update_database, reconcile, final_verification, run_move,
  run_pinned,
}
use anime_db.Execution.Sequence.Ahead.{
  open_plan, rename_plan, action_plan, Stops, At, Step, ask-At, consult-At, guard-At, test-At,
  by_state, for_each-At, write-At, catching-At, as_is, check_journal-At, verify_physical-At,
  identity_check-At, check_execution-At, check_capture-At, check_prepared-At,
  require_predecessor-At,
}

module _ (all : List Event) where
  write_record-At :
      (i : ℕ) (state : State) (rest : List Event)
      → Step all i (recorded i state ∷ rest) rest (λ s. write (recorded s.active_index state) s)
  write_record-At i state rest = record {
    at = λ s h.
        subst (λ j. Outcome (λ _. At all i rest) (Stops all) (write (recorded j state) s)) (sym h.0)
          ((write-At all i (recorded i state) rest).at s h);
  }

  append-At :
      (i : ℕ) (state : State) (rest : List Event)
      → Step all i (recorded i state ∷ rest) rest (append state)
  unfolding append
  append-At i state rest = bind (consult-At all) λ _.
      bind
        (bind (as_is all _ (λ s h. h)) λ _. bind (check_execution-At all) λ _.
          bind
            (by_state all (λ s. for_each (capture_indices s) check_capture)
              (λ s. for_each-At all _ _ (check_capture-At all)))
            λ _. bind (check_journal-At all) λ _.
              bind
                (catching-At all _ (
                  bind (write_record-At i state rest)
                    λ _. bind (as_is all _ (λ s h. h)) λ _. (check_journal-At all)))
                λ _.
                  by_state all (λ s. for_each (capture_indices s) identity_check)
                    (λ s. for_each-At all _ _ (identity_check-At all)))
        λ _. (consult-At all)

  open_journal-At :
      (i : ℕ) (rest : List Event) → Step all i (open_plan i rest) rest (open_journal i)
  open_journal-At zero rest =
      bind (as_is all _ (λ s h. h))
        λ _. catching-At all _ (bind (write-At all 0 created rest) λ _. (check_journal-At all))
  open_journal-At (suc i) rest = (require_predecessor-At all)

  call_rename-At :
      (a : ManifestAction) (i : ℕ) (rest : List Event)
      → Step all i (rename_plan a i rest) rest (call_rename a i)
  call_rename-At a i rest = elim (Bool-cases (a.action == "KEEP")) [
    | inl keep ↦ rw keep (ask-At all)
    | inr move ↦ rw move (write-At all i (renamed i) rest)
  ]

  before_rename-At :
      (i : ℕ) (rest : List Event)
      → Step all i (evidenced i ∷ open_plan i (recorded i pending ∷ rest)) rest (before_rename i)
  unfolding before_rename
  before_rename-At i rest = bind (check_execution-At all) λ _. bind (as_is all _ (λ s h. h)) λ _.
      bind (consult-At all) λ _. bind (check_prepared-At all) λ _.
        bind (as_is all _ (λ s h. h)) λ _. bind (write-At all i (evidenced i) _) λ same.
          bind (as_is all _ (λ s h. h)) λ _. bind (guard-At all (not same) _) λ _.
            bind (consult-At all) λ _. bind (as_is all _ (λ s h. h)) λ _.
              bind (identity_check-At all i) λ _.
                bind (open_journal-At i (recorded i pending ∷ rest)) λ _. append-At i pending rest

  rename_and_verify-At :
      (a : ManifestAction) (i : ℕ) (rest : List Event)
      → Step all i
          (rename_plan a i (recorded i fs_applied ∷ recorded i fs_verified ∷ rest))
          rest
          (rename_and_verify a i)
  unfolding rename_and_verify
  rename_and_verify-At a i rest = bind (as_is all _ (λ s h. h)) λ _.
      bind (identity_check-At all i) λ _. bind (as_is all _ (λ s h. h)) λ _.
        bind (call_rename-At a i _) λ durable. bind (guard-At all (not durable) _) λ _.
          bind (append-At i fs_applied _) λ _. bind (as_is all _ (λ s h. h)) λ _.
            bind (catching-At all _ (ask-At all)) λ same. bind (guard-At all (not same) _) λ _.
              bind (as_is all _ (λ s h. h))
                λ _. bind (identity_check-At all i) λ _. append-At i fs_verified rest

  update_database-At :
      (indices : List ℕ) (i : ℕ) (rest : List Event)
      → Step all i (updated i ∷ committed i ∷ rest) rest (update_database indices i)
  unfolding update_database
  update_database-At indices i rest = bind (as_is all _ (λ s h. h)) λ _.
      bind (check_journal-At all) λ _.
        bind (for_each-At all indices _ (verify_physical-At all)) λ _.
          bind (as_is all _ (λ s h. h)) λ _. bind (check_execution-At all) λ _.
            bind (write-At all i (updated i) _) λ _. bind (as_is all _ (λ s h. h)) λ _.
              bind (check_execution-At all)
                λ _. bind (write-At all i (committed i) rest) λ _. Ensures-pure _ (λ s h. h)

  reconcile-At :
      (indices : List ℕ) (i : ℕ) (state : State) (rest : List Event)
      → Step all i (recorded i state ∷ rest) rest (reconcile indices state)
  unfolding reconcile
  reconcile-At indices i state rest = bind (as_is all _ (λ s h. h)) λ _. bind (consult-At all) λ _.
      bind (as_is all _ (λ s h. h))
        λ _. bind (for_each-At all indices _ (verify_physical-At all)) λ _. append-At i state rest

  final_verification-At :
      (indices : List ℕ) {i : ℕ} {rest : List Event}
      → Step all i rest rest (final_verification indices)
  unfolding final_verification
  final_verification-At indices = bind (as_is all _ (λ s h. h)) λ _. bind (consult-At all) λ _.
      bind (as_is all _ (λ s h. h))
        λ _. bind (for_each-At all indices _ (verify_physical-At all)) λ _. (check_journal-At all)

  run_move-At :
      (n : ℕ) (a : ManifestAction) (i : ℕ) (rest : List Event)
      → Step all i (action_plan a i rest) rest (run_move n a i)
  unfolding run_move
  run_move-At n a i rest = bind (before_rename-At i _) λ _. bind (rename_and_verify-At a i _) λ _.
      bind (update_database-At _ i _) λ _.
        bind (reconcile-At _ i db_reconciled _)
          λ _. bind (reconcile-At _ i complete rest) λ _. final_verification-At _

  closed_by :
      (i : ℕ) (rest : List Event) {A : Type 0} (r : Result Exn A) (c : Result Exn Bool × Sequence)
      → Outcome
          (λ (_ : Bool) s. Outcome (λ _. At all i rest) (Stops all) (r, s))
          (λ _ s. Outcome (λ _. At all i rest) (Stops all) (r, s))
          c
      → Outcome (λ _. At all i rest) (Stops all) (after_closing r c.0, c.1)
  closed_by i rest (ok a) (ok b, s) h = h
  closed_by i rest (err e) (ok b, s) h = h
  closed_by i rest (ok a) (err e, s) h = (rest, h.1)
  closed_by i rest (err d) (err e, s) h = h

  -- An answer changes nothing that the plan speaks of.
  kept_by :
      {A : Type 0} (i : ℕ) (rest : List Event) (r : Result Exn A) (s : Sequence)
      (answers : List Answer)
      → Outcome (λ _. At all i rest) (Stops all) (r, s)
      → Outcome (λ _. At all i rest) (Stops all) (r, record s { answers = answers })
  kept_by i rest (ok a) s answers h = h
  kept_by i rest (err e) s answers h = h

  reply_keeps :
      {A : Type 0} (i : ℕ) (rest : List Event) (r : Result Exn A) (answers : List Answer)
      (s : Sequence)
      → Outcome (λ _. At all i rest) (Stops all) (r, s)
      → Outcome
          (λ (_ : Bool) s'. Outcome (λ _. At all i rest) (Stops all) (r, s'))
          (λ _ s'. Outcome (λ _. At all i rest) (Stops all) (r, s'))
          (reply answers s)
  reply_keeps i rest r [] s h = h
  reply_keeps i rest r (fine ∷ a) s h = kept_by i rest r s a h
  reply_keeps i rest r (differs ∷ a) s h = kept_by i rest r s a h
  reply_keeps i rest r (raises e ∷ a) s h = kept_by i rest r s a h
  reply_keeps i rest r (applied e ∷ a) s h = kept_by i rest r s a h

  with_closing-At :
      {A : Type 0} {m : Act A} (i : ℕ) (rest rest' : List Event)
      → Step all i rest rest' m
      → Step all i rest rest' (with_closing m)
  unfolding with_closing ask
  with_closing-At {m} i rest rest' h = record {
    at = λ s p.
        let (r, s') = m s in
        closed_by i rest' r (reply s'.answers s') (reply_keeps i rest' r s'.answers s' (h.at s p));
  }

  pub run_pinned-At :
      (n : ℕ) (a : ManifestAction) (i : ℕ) (rest : List Event)
      → Step all i (action_plan a i rest) rest (run_pinned n a i)
  unfolding run_pinned
  run_pinned-At n a i rest = with_closing-At i _ rest (
      bind (run_move-At n a i rest) λ _. bind (consult-At all) λ _. bind (ask-At all) λ same.
        bind (test-At all (λ _. not same) (λ s. stopped filesystem s.phase)) λ _. (consult-At all))
