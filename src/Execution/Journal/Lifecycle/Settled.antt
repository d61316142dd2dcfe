-- ===== src/Execution/Journal/Lifecycle/Settled.antt =====
-- Manifest order: nothing starts before each earlier action is settled.
use mathlib.Core.Path.{subst}
use anime_db.Base.{
  ℕ, ◌<◌, String, ◌≡◌, ◌≢◌, refl, ap, ◌⊎◌, inl, inr, Bool, true, false, ◌&&◌, Option, none, some,
  List, [], ◌∷◌, get_elem?, Result, ok, >>-ok, ◌==◌, String_eq, arith, All, Any, and_split,
  not-true, nat_eq_iff,
}
use anime_db.Execution.Platform.{Platform}
use anime_db.Execution.Manifest.{
  pending, complete, failed, ManifestAction, ExecutionManifest, JournalEntry,
}
use anime_db.Execution.Manifest.Validate.{validate_manifest}
use native.Mathlib.Decide.{ℕ_discrete}
use anime_db.Execution.Journal.{
  State_eq, direct_failure, can_continue_after_failure, conditions_at, failure_conditions,
  primary_depends_on, validate_entry,
}
use anime_db.Execution.Journal.Admission.{
  State_eq→≡, Waived, validate_entry-ok, check_order-ok, check_order-first, check_prior-ok,
}
use anime_db.Execution.Journal.Lifecycle.{
  Admitted, empty, append, key, rank, Decreasing, Admitted-Decreasing,
}

abbrev pub Completed : List JournalEntry → ℕ → Type 0
Completed h j = Any (λ x. (x.action_index ≡ j) × (x.state ≡ complete)) h

-- A LOW action that no PRIMARY action depends on.
abbrev pub IsExpendable : ExecutionManifest → ℕ → Type 0
IsExpendable m j =
    (a : ManifestAction) × (get_elem? m.payload.actions j ≡ some a)
    × ((a.criticality == "LOW") ≡ true)
    × (primary_depends_on a.action_id m.payload.actions ≡ false)

-- The action failed, is expendable, and recorded no progress on files or database.
abbrev pub Skipped : ExecutionManifest → List JournalEntry → ℕ → Type 0
Skipped m h j =
    IsExpendable m j
    × Any (λ x. (x.action_index ≡ j) × (x.state ≡ failed)) h
    × All (λ x. x.action_index ≡ j → (x.state ≡ pending) ⊎ (x.state ≡ failed)) h

abbrev pub Settled : ExecutionManifest → List JournalEntry → ℕ → Type 0
Settled m h j = Completed h j ⊎ Skipped m h j

direct-index :
    (q p : JournalEntry) (h : List JournalEntry)
    → direct_failure (q ∷ h) p ≡ true
    → q.action_index ≡ p.action_index
direct-index q p h direct =
    let (_, named) = and_split (State_eq q.state pending) _ direct in
    let (_, acted) = and_split (q.manifest_id == p.manifest_id) _ named in
    let (_, placed) = and_split (q.action_id == p.action_id) _ acted in
    (nat_eq_iff q.action_index p.action_index).0 placed

and_right : (a b : Bool) → (a && b) ≡ true → b ≡ true
and_right true b h = h
and_right false b h = cc

ok_true : (b : Bool) → ◌≡◌ {A = Result String Bool} (ok b) (ok true) → b ≡ true
ok_true b h = ground arith

module _ (m : ExecutionManifest) where
  Settled-cons :
      (p : JournalEntry) (h : List JournalEntry) (j : ℕ)
      → p.action_index ≢ j
      → Settled m h j
      → Settled m (p ∷ h) j
  Settled-cons p h j other (inl done) = inl (inr done)
  Settled-cons p h j other (inr (low, fails, idle)) =
      inr (low, inr fails, (λ same. absurd (other same), idle))

  older_idle :
      (q : JournalEntry) (j : ℕ) (h : List JournalEntry)
      → q.action_index ≡ j
      → q.state ≡ pending
      → All (λ x. key x < key q) h
      → All (λ x. x.action_index ≡ j → (x.state ≡ pending) ⊎ (x.state ≡ failed)) h
  older_idle q j [] same start below = tt
  older_idle q j (x ∷ h) same start below =
      (λ at. absurd (omega (arith, below.0, ap rank start)), older_idle q j h same start below.1)

failure_conditions-ok :
    (actions : List ManifestAction) (a : ManifestAction) (p : JournalEntry)
    → failure_conditions actions a p ≡ true
    → (State_eq p.state failed ≡ true)
      × ((a.criticality == "LOW") ≡ true)
      × (primary_depends_on a.action_id actions ≡ false)
unfolding failure_conditions
failure_conditions-ok actions a p met =
    let (known, rest) = and_split (p.action_id == a.action_id && _) _ met in
    let (named, low) = and_split (p.action_id == a.action_id) _ known in
    let (fails, cheap) = and_split (State_eq p.state failed) (a.criticality == "LOW") low in
    (fails, cheap, not-true _ (and_right _ _ rest))

module _ (m : ExecutionManifest) where
  expendable :
      (p : JournalEntry) (o : Option ManifestAction)
      → get_elem? m.payload.actions p.action_index ≡ o
      → conditions_at m.payload.actions o p ≡ true
      → (p.state ≡ failed) × IsExpendable m p.action_index
  unfolding conditions_at
  expendable p none at met = cc
  expendable p (some a) at met =
      let (fails, cheap, free) = failure_conditions-ok m.payload.actions a p met in
      (State_eq→≡ p.state failed fails, (a, at, cheap, free))

module _ (pf : Platform) (m : ExecutionManifest) where
  pub conditions-ok :
      (p : JournalEntry)
      → can_continue_after_failure pf m p ≡ ok true
      → (p.state ≡ failed) × IsExpendable m p.action_index
  unfolding can_continue_after_failure
  conditions-ok p continues =
      let (_, met) = >>-ok (validate_manifest pf m) _ continues in
      expendable m p (get_elem? m.payload.actions p.action_index) refl
        (and_split (p.manifest_id == m.manifest_id) _ (ok_true _ met)).1

  Waived-Skipped :
      (p : JournalEntry) (h : List JournalEntry)
      → Waived pf m h p
      → Decreasing (p ∷ h)
      → Skipped m (p ∷ h) p.action_index
  Waived-Skipped p [] waived d = cc (waived.direct)
  Waived-Skipped p (q ∷ h) waived d =
      let (fails, low) = conditions-ok p waived.continues in
      let (starts, names) = and_split (State_eq q.state pending) _ waived.direct in
      let same = direct-index q p h waived.direct in
      let start = State_eq→≡ q.state pending starts in
      (
        low,
        inl (refl, fails),
        (λ _. inr fails, (λ _. inl start, older_idle m q p.action_index h same start d.1.0)),
      )

  abbrev IsOrdered : List JournalEntry → Type 0
  IsOrdered [] = Unit
  IsOrdered (e ∷ h) = (j : ℕ) → j < e.action_index → Settled m h j

  IsOrdered-cons :
      (h : List JournalEntry) (c : List String) (e : JournalEntry)
      → validate_entry pf m h c e ≡ ok tt
      → Decreasing h
      → IsOrdered h
      → IsOrdered (e ∷ h)
  IsOrdered-cons [] c e passed d old j lt =
      let (owned, order) = validate_entry-ok pf m [] c e passed in
      absurd (omega (arith, (check_order-first pf m c owned.action e order).position))
  IsOrdered-cons (p ∷ h) c e passed d old j lt =
      let (owned, order) = validate_entry-ok pf m (p ∷ h) c e passed in
      elim (check_order-ok pf m p h c owned.action e order) [
        | inl (same, step) ↦ Settled-cons m p h j (λ at. absurd (omega arith)) (old j (omega arith))
        | inr start ↦ elim (ℕ_discrete p.action_index j) [
          | no other ↦ Settled-cons m p h j other (old j (omega (arith, start.position)))
          | yes at ↦ elim (check_prior-ok pf m p h start.prior) [
            | inl done ↦ inl (inl (at, done))
            | inr waived ↦ inr (subst (Skipped m (p ∷ h)) at (Waived-Skipped p h waived d))
          ]
        ]
      ]

  Admitted-IsOrdered : {h : List JournalEntry} {c : List String} → Admitted pf m h c → IsOrdered h
  Admitted-IsOrdered empty = tt
  Admitted-IsOrdered (append {h = h} {c = c} adm e passed) =
      IsOrdered-cons h c e passed (Admitted-Decreasing pf m adm) (Admitted-IsOrdered adm)

-- When an entry of action `k` is admitted, every action before `k` has been completed, or has
-- failed as an expendable action without recorded progress.
pub Admitted-Settled :
    (pf : Platform) (m : ExecutionManifest) (e : JournalEntry) (h : List JournalEntry)
    (c : List String) (j : ℕ)
    → Admitted pf m (e ∷ h) c
    → j < e.action_index
    → Settled m h j
Admitted-Settled pf m e h c j adm lt = Admitted-IsOrdered pf m adm j lt
