-- ===== src/Execution/Rollback/Examples.antt =====
-- A rollback that succeeds, one that a signal stops after the rename, and one without an approval.
use anime_db.Base.{ℕ, zero, suc, ◌≡◌, refl, true, false, List, [], ◌∷◌, ok, err}
use anime_db.Base.Effects.{Outcome, ◌>>=◌, pure, raise_if, modify}
use anime_db.Execution.World.{Reply, fine, applied}
use anime_db.Execution.Rollback.{
  Approval, identity_limitation, Exn, other, rename, validation, stopped, rollback,
}
use anime_db.Execution.Rollback.Steps.{plan}
use anime_db.Execution.Rollback.Recorded.{Verdict, rollback-Verdict}

abbrev approval : Approval
approval = record {
  is_approval = true;
  decision = "RETURN_TARGET_TO_SOURCE";
  acknowledgement = identity_limitation;
  signed = true;
}

undisturbed : (rollback approval false []).0 ≡ ok tt
unfolding rollback ◌>>=◌ pure raise_if modify
undisturbed = refl

unapproved :
    (rollback (record approval { decision = "RETURN" }) false []).0 ≡ err (stopped validation false)
unfolding rollback ◌>>=◌ pure raise_if modify
unapproved = refl

-- The calls up to the rename are answered as expected, and the rename fails although it took effect.
abbrev fines : ℕ → List (Reply Exn) → List (Reply Exn)
fines zero rest = rest
fines (suc n) rest = let more = fines n rest in fine ∷ more

failed_rename :
    (rollback approval false (fines 85 (applied other ∷ []))).0 ≡ err (stopped rename true)
unfolding rollback ◌>>=◌ pure raise_if modify
failed_rename = refl

rollback-Verdict_example :
    Outcome
      (λ _ w. w.log ≡ plan false)
      (Verdict false)
      (rollback approval false (fines 85 (applied other ∷ [])))
rollback-Verdict_example = rollback-Verdict false approval (fines 85 (applied other ∷ []))
