-- ===== src/Execution/Rollback/Recorded.antt =====
-- What a rollback has changed when it ends, and when the stop that it raises asks for reconciliation.
use anime_db.Base.{
  ℕ, ◌≡◌, refl, sym, ap, ◌∙◌, inl, inr, Bool, true, false, not, List, [], ◌∷◌, ◌++◌, Result, ok,
  err, if◌then◌else◌,
}
use anime_db.Base.Effects.{Ensures, Outcome, ◌>>◌, pure, bind, Ensures-pure, Ensures-modify}
use mathlib.Core.List.{append-nil, append_assoc}
use mathlib.Core.Path.{subst}
use anime_db.Execution.World.{
  Reply, consult, expect, change, set_own, with_close, Ahead, guard-Step, with_close-Step,
}
use anime_db.Execution.Rollback.{
  Exn, stop, other, interrupt, approved, attempt, verified, Event, created, recorded, renamed,
  synced_file, synced_source, synced_target, Act, Rollback, Approval, is_approved, validate, pin,
  start_rename, prepare, move_back, on_close, on_release, return_file, Raised, stopped, signal,
  handled, started, rollback,
}
use anime_db.Execution.Rollback.Steps.{
  Begun, Halted, Locally, append-Goes, changes, consults, early, expects, halts, keeps, later, plan,
  stable-Goes,
}

module _ (one_directory : Bool) where
  abbrev Before : ℕ → List Event → Rollback → Type 0
  Before n rest = Ahead early (Locally false n) (λ (_ : Exn). Halted one_directory) rest

  abbrev After : ℕ → List Event → Rollback → Type 0
  After n rest =
      Ahead (plan one_directory) (Locally true n) (λ (_ : Exn). Halted one_directory) rest

  stop_before :
      (rest : List Event) (w : Rollback)
      → (w.own.attempted ≡ false)
      → (early ≡ w.log ++ rest)
      → Halted one_directory w
  stop_before rest w is h = inl (is, (rest, h))

  stop_after :
      (rest : List Event) (w : Rollback)
      → (w.own.attempted ≡ true)
      → (plan one_directory ≡ w.log ++ rest)
      → Halted one_directory w
  stop_after rest w is h = inr (is, (rest, h))

  module _ {n : ℕ} {rest : List Event} where
    consults_early :
        Ensures (Before n rest) consult (λ _. Before n rest) (λ _. Halted one_directory)
    consults_early = consults one_directory false early stop_before

    expects_early :
        Ensures (Before n rest) (expect stop) (λ _. Before n rest) (λ _. Halted one_directory)
    expects_early = expects one_directory false early stop_before

    validate-Goes :
        (a : Approval)
        → Ensures (Before n rest) (validate a) (λ _. Before n rest) (λ _. Halted one_directory)
    unfolding validate
    validate-Goes a =
        bind
          (guard-Step early (Locally false n) (λ _. Halted one_directory)
            (halts one_directory false early stop_before) (not (is_approved a)) stop)
          λ _.
            bind consults_early λ _. bind consults_early λ _. bind consults_early λ _. expects_early

    pin-Goes : Ensures (Before n rest) pin (λ _. Before n rest) (λ _. Halted one_directory)
    unfolding pin
    pin-Goes = bind consults_early λ _. bind expects_early λ _. bind consults_early λ _.
        bind consults_early λ _. bind consults_early λ _. bind expects_early λ _.
          bind consults_early λ _. bind expects_early λ _. bind consults_early λ _.
            bind consults_early λ _. bind consults_early λ _. bind expects_early λ _. consults_early

  prepare-Goes : Ensures (Before 0 early) prepare (λ _. Before 2 []) (λ _. Halted one_directory)
  unfolding prepare
  prepare-Goes = bind consults_early λ _. bind consults_early λ _. bind expects_early λ _.
      bind (stable-Goes one_directory false early stop_before false) λ _.
        bind (keeps one_directory false early stop_before _ (λ x k. k)) λ _.
          bind (changes one_directory false early stop_before 0 created _) λ _.
            bind (keeps one_directory false early stop_before _ (λ x k. k)) λ _.
              bind consults_early λ _. bind consults_early λ _.
                bind (append-Goes one_directory false early stop_before 0 approved _) λ _.
                  bind consults_early λ _.
                    bind (stable-Goes one_directory false early stop_before false) λ _.
                      bind (keeps one_directory false early stop_before _ (λ x k. k)) λ _.
                        bind (append-Goes one_directory false early stop_before 1 attempt [])
                          λ _. stable-Goes one_directory false early stop_before false

  last : List Event
  last = recorded verified 2 ∷ []

  -- The plan goes on from where the early part ends.
  starts : (w : Rollback) → Before 2 [] w → After 2 (later one_directory) (set_own start_rename w)
  starts w ((k, n), h) = ((refl, n), ap (λ l. l ++ later one_directory) (h ∙ append-nil w.log))

  other_directory :
      (b : Bool) (rest : List Event)
      → Ensures
          (After 2 (if b then rest else synced_source ∷ rest))
          (if b then pure tt else change synced_source)
          (λ _. After 2 rest)
          (λ _. Halted one_directory)
  other_directory true rest = Ensures-pure _ (λ w h. h)
  other_directory false rest =
      changes one_directory true (plan one_directory) stop_after 2 synced_source rest

  move_back-Goes :
      Ensures
        (Before 2 [])
        (move_back one_directory)
        (λ _. After 2 last)
        (λ _. Halted one_directory)
  unfolding move_back last
  move_back-Goes =
      let all = plan one_directory in
      bind (Ensures-modify {Q = After 2 (later one_directory)} _ starts) λ _.
        bind (changes one_directory true all stop_after 2 renamed _) λ _.
          bind (keeps one_directory true all stop_after _ (λ x k. k)) λ _.
            bind (stable-Goes one_directory true all stop_after true) λ _.
              bind (keeps one_directory true all stop_after _ (λ x k. k)) λ _.
                bind (changes one_directory true all stop_after 2 synced_file _) λ _.
                  bind (changes one_directory true all stop_after 2 synced_target _) λ _.
                    bind (other_directory one_directory last) λ _.
                      bind (keeps one_directory true all stop_after _ (λ x k. k))
                        λ _. stable-Goes one_directory true all stop_after true

  blind :
      (w : Rollback) (replies : List (Reply Exn))
      → Halted one_directory w
      → Halted one_directory (record w { replies = replies })
  blind w replies (inl h) = inl h
  blind w replies (inr h) = inr h

  closes :
      {n : ℕ} {rest : List Event} {P : Rollback → Type 0} {m : Act (Unit {0})}
      (choose : Exn → Exn → Exn)
      → Ensures P m (λ _. After n rest) (λ _. Halted one_directory)
      → Ensures P (with_close choose m) (λ _. After n rest) (λ _. Halted one_directory)
  closes {n} choose h =
      with_close-Step (plan one_directory) (Locally true n) (Halted one_directory)
        (λ rest w k. stop_after rest w k.0.0 k.1) blind choose h

  return_file-Goes :
      Ensures
        (Before 0 early)
        (return_file one_directory)
        (λ _. After 3 [])
        (λ _. Halted one_directory)
  unfolding return_file last
  return_file-Goes =
      let all = plan one_directory in
      bind pin-Goes λ _. bind (stable-Goes one_directory false early stop_before false) λ _.
        bind consults_early λ _. bind (closes on_close (bind prepare-Goes λ _. move_back-Goes)) λ _.
          bind (stable-Goes one_directory true all stop_after true) λ _.
            bind (keeps one_directory true all stop_after _ (λ x k. k)) λ _.
              bind (append-Goes one_directory true all stop_after 2 verified [])
                λ _. stable-Goes one_directory true all stop_after true

  -- A stop that asks for no reconciliation: nothing was renamed.
  abbrev pub Verdict : Raised → Rollback → Type 0
  Verdict (stopped phase false) w = Begun early w
  Verdict (stopped phase true) w = Begun (plan one_directory) w
  Verdict signal w = Begun (plan one_directory) w

  whole : (w : Rollback) → Halted one_directory w → Begun (plan one_directory) w
  whole w (inl (is, (rest, h))) = (
    rest ++ later one_directory,
    ap (λ l. l ++ later one_directory) h ∙ append_assoc w.log rest (later one_directory),
  )
  whole w (inr (is, h)) = h

  stopped-Verdict :
      (w : Rollback) → Halted one_directory w → Verdict (stopped w.own.phase w.own.attempted) w
  stopped-Verdict w (inl (is, h)) = subst (λ b. Verdict (stopped w.own.phase b) w) (sym is) h
  stopped-Verdict w (inr (is, h)) = subst (λ b. Verdict (stopped w.own.phase b) w) (sym is) h

  judged :
      (r : Result Exn (Unit {0}) × Rollback)
      → Outcome (λ _. After 3 []) (λ _. Halted one_directory) r
      → Outcome (λ _ w. w.log ≡ plan one_directory) Verdict (handled r)
  judged (ok r, w) h = sym (h.1 ∙ append-nil w.log)
  judged (err interrupt, w) h = whole w h
  judged (err stop, w) h = stopped-Verdict w h
  judged (err other, w) h = stopped-Verdict w h

  -- Whatever the calls of a rollback answer and wherever they raise: one that returns has recorded the
  -- approval and the attempt, renamed and synchronised the file and recorded the verification, in that
  -- order; one that raises has made the start of these changes, and if its stop asks for no
  -- reconciliation, it had not come to the rename.
  pub rollback-Verdict :
      (a : Approval) (replies : List (Reply Exn))
      → Outcome (λ _ w. w.log ≡ plan one_directory) Verdict (rollback a one_directory replies)
  unfolding rollback
  rollback-Verdict a replies =
      judged ((validate a >> with_close on_release (return_file one_directory)) (started replies)) (
        (bind (validate-Goes a) λ _. closes on_release return_file-Goes).at (started replies)
          ((refl, refl), refl))
