-- ===== src/Execution/Journal/Lifecycle.antt =====
-- What every admitted history looks like: the order of its entries and what stands before each.
pub mod Bounds
pub mod Settled
pub mod Stops
pub mod Phases
pub mod Dependencies
use anime_db.Base.{
  ℕ, zero, suc, ◌+◌, ◌*◌, ◌≤◌, ◌<◌, String, ◌≡◌, ◌≢◌, refl, ap, ◌∙◌, ◌⊎◌, inl, inr, Bool, true,
  false, not, ◌&&◌, Option, none, some, List, [], ◌∷◌, any, length, get_elem?, elem, Result, ok,
  if◌then◌else◌, ◌==◌, nat_eq, String_eq, arith, All, Any,
}
use anime_db.Execution.Platform.{Platform}
use anime_db.Execution.Manifest.{
  State, pending, fs_applied, fs_verified, db_reconciled, complete, failed, ManifestAction,
  ExecutionManifest, JournalEntry,
}
use anime_db.Execution.Journal.{State_eq, allowed, validate_entry}
use anime_db.Execution.Journal.Admission.{
  Owned, Started, validate_entry-ok, check_order-ok, check_start-ok,
}

-- `completed.add(entry.action_id)` for a COMPLETE entry
abbrev pub complete_with : JournalEntry → List String → List String
complete_with e c = if State_eq e.state complete then e.action_id ∷ c else c

-- A history that grew from nothing by admitted entries, with its set of completed actions.
pub data Admitted (pf : Platform) (m : ExecutionManifest)
    : List JournalEntry → List String → Type 0 where
  empty : Admitted pf m [] []
  append :
      {h : List JournalEntry} {c : List String}
      → Admitted pf m h c
      → (e : JournalEntry) → validate_entry pf m h c e ≡ ok tt
      → Admitted pf m (e ∷ h) (complete_with e c)

-- How far an action has come; COMPLETE and FAILED both end it.
abbrev pub rank : State → ℕ
rank pending = 0
rank fs_applied = 1
rank fs_verified = 2
rank db_reconciled = 3
rank complete = 4
rank failed = 4

abbrev pub key : JournalEntry → ℕ
key e = 5 * e.action_index + rank e.state

abbrev pub Decreasing : List JournalEntry → Type 0
Decreasing [] = Unit
Decreasing (e ∷ h) = All (λ x. key x < key e) h × Decreasing h

rank_grows : (s t : State) → allowed s t ≡ true → rank s < rank t
rank_grows s t h = ground arith

rank-le : (s : State) → rank s ≤ 4
rank-le s = ground arith

All-below :
    (a b : ℕ) (h : List JournalEntry) → a ≤ b → All (λ x. key x < a) h → All (λ x. key x < b) h
All-below a b [] le all = tt
All-below a b (x ∷ h) le all = (omega arith, All-below a b h le all.1)

module _ (pf : Platform) (m : ExecutionManifest) where
  key_grows :
      (p : JournalEntry) (h : List JournalEntry) (c : List String) (e : JournalEntry)
      → validate_entry pf m (p ∷ h) c e ≡ ok tt
      → key p < key e
  key_grows p h c e passed =
      let (owned, order) = validate_entry-ok pf m (p ∷ h) c e passed in
      elim (check_order-ok pf m p h c owned.action e order) [
        | inl (same, step) ↦ omega (arith, rank_grows p.state e.state step)
        | inr start ↦ omega (arith, start.position, ap rank start.first, rank-le p.state)
      ]

  Decreasing-cons :
      (h : List JournalEntry) (c : List String) (e : JournalEntry)
      → validate_entry pf m h c e ≡ ok tt
      → Decreasing h
      → Decreasing (e ∷ h)
  Decreasing-cons [] c e passed d = (tt, tt)
  Decreasing-cons (p ∷ h) c e passed d =
      let grows = key_grows p h c e passed in
      ((grows, All-below (key p) (key e) h (omega arith) d.0), d)

  pub Admitted-Decreasing :
      {h : List JournalEntry} {c : List String} → Admitted pf m h c → Decreasing h
  Admitted-Decreasing empty = tt
  Admitted-Decreasing (append {h = h} {c = c} adm e passed) =
      Decreasing-cons h c e passed (Admitted-Decreasing adm)

  -- The newest entry's action is in the manifest.
  pub located :
      {h : List JournalEntry} {c : List String} → Admitted pf m h c → All (λ x. Owned m x) h
  located empty = tt
  located (append {h = h} {c = c} adm e passed) =
      ((validate_entry-ok pf m h c e passed).0, located adm)
