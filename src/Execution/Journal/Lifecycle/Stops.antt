-- ===== src/Execution/Journal/Lifecycle/Stops.antt =====
-- A failure that must not be waived closes the history.
use anime_db.Base.{
  String, ◌≡◌, ◌≢◌, ◌⊎◌, inl, inr, true, false, some, List, [], ◌∷◌, get_elem?, ok, ◌==◌, String_eq,
  arith, and_split,
}
use anime_db.Execution.Platform.{Platform}
use anime_db.Execution.Manifest.{pending, failed, ManifestAction, ExecutionManifest, JournalEntry}
use anime_db.Execution.Journal.{State_eq, direct_failure, validate_entry}
use anime_db.Execution.Journal.Admission.{
  State_eq→≡, Waived, validate_entry-ok, check_order-ok, check_prior-ok,
}
use anime_db.Execution.Journal.Lifecycle.Settled.{IsExpendable, conditions-ok}

-- The failed action is not LOW, or its failure came after recorded progress.
abbrev pub Forbids : ExecutionManifest → List JournalEntry → JournalEntry → Type 0
Forbids m h p =
    ((a : ManifestAction) × (get_elem? m.payload.actions p.action_index ≡ some a)
      × ((a.criticality == "LOW") ≡ false))
    ⊎ ((q : JournalEntry) × (r : List JournalEntry) × (h ≡ q ∷ r) × (q.state ≢ pending))

module _ (pf : Platform) (m : ExecutionManifest) where
  not_low :
      (p : JournalEntry) (a : ManifestAction)
      → get_elem? m.payload.actions p.action_index ≡ some a
      → (a.criticality == "LOW") ≡ false
      → ¬ IsExpendable m p.action_index
  not_low p a at high (b, at', low, _) = cc

  not_direct :
      (p q : JournalEntry) (r : List JournalEntry)
      → q.state ≢ pending
      → ¬ (direct_failure (q ∷ r) p ≡ true)
  not_direct p q r other direct =
      other (State_eq→≡ q.state pending (and_split (State_eq q.state pending) _ direct).0)

  not_Waived : (p : JournalEntry) (h : List JournalEntry) → Forbids m h p → ¬ Waived pf m h p
  not_Waived p h (inl (a, at, high)) waived =
      not_low p a at high (conditions-ok pf m p waived.continues).1
  not_Waived p [] (inr (q, r, at, other)) waived = cc
  not_Waived p (x ∷ h) (inr (q, r, at, other)) waived =
      not_direct p x h (λ e. other (cc)) waived.direct

  -- Behind a failure of an action that is not LOW, or one after recorded progress, no entry at all
  -- is admitted: the execution has stopped for good.
  pub failure_stops :
      (p : JournalEntry) (h : List JournalEntry) (c : List String) (e : JournalEntry)
      → p.state ≡ failed
      → Forbids m h p
      → validate_entry pf m (p ∷ h) c e ≢ ok tt
  failure_stops p h c e fails stop passed =
      let (owned, order) = validate_entry-ok pf m (p ∷ h) c e passed in
      elim (check_order-ok pf m p h c owned.action e order) [
        | inl (same, step) ↦ ground (arith, step, fails)
        | inr start ↦ elim (check_prior-ok pf m p h start.prior) [
          | inl done ↦ cc
          | inr waived ↦ not_Waived p h stop waived
        ]
      ]
