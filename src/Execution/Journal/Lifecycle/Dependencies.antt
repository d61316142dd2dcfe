-- ===== src/Execution/Journal/Lifecycle/Dependencies.antt =====
-- Dependencies: an action starts only behind the COMPLETE entries of all that it depends on.
use mathlib.Core.Path.{subst}
use anime_db.Base.{
  String, ◌≡◌, inl, inr, true, false, not, List, [], ◌∷◌, any, elem, get_elem?, some, ok, ◌==◌,
  String_eq, eq_iff, Any, Bool-cases, or_split, not-false,
}
use anime_db.Execution.Platform.{Platform}
use anime_db.Execution.Manifest.{complete, ManifestAction, ExecutionManifest, JournalEntry}
use anime_db.Execution.Journal.{State_eq, validate_entry}
use anime_db.Execution.Journal.Admission.{
  State_eq→≡, Owned, Started, validate_entry-ok, check_order-ok, check_order-first,
}
use anime_db.Execution.Journal.Lifecycle.{Admitted, empty, append}

-- A COMPLETE entry of the action `id` stands in the history.
abbrev pub HasComplete : String → List JournalEntry → Type 0
HasComplete id h = Any (λ x. (x.action_id ≡ id) × (x.state ≡ complete)) h

completed_sound :
    (pf : Platform) (m : ExecutionManifest) {h : List JournalEntry} {c : List String} (id : String)
    → Admitted pf m h c
    → elem id c ≡ true
    → HasComplete id h
completed_sound pf m id empty found = cc
completed_sound pf m id (append {h = h} {c = c} adm e passed) found =
    elim (Bool-cases (State_eq e.state complete)) [
      | inr open_end ↦ inr (completed_sound pf m id adm (rw open_end at found))
      | inl done ↦ elim (Bool-cases (e.action_id == id)) [
        | inl same ↦ inl ((eq_iff e.action_id id).0 same, State_eq→≡ e.state complete done)
        | inr other ↦ inr (completed_sound pf m id adm (rw other at (rw done at found)))
      ]
    ]

missing_none :
    (c ids : List String) (d : String)
    → any (λ x. not (elem x c)) ids ≡ false
    → elem d ids ≡ true
    → elem d c ≡ true
missing_none c [] d none found = cc
missing_none c (x ∷ ids) d none found =
    let (here, rest) = or_split (not (elem x c)) (any (λ z. not (elem z c)) ids) none in
    elim (Bool-cases (x == d)) [
      | inl same ↦ subst (λ z. elem z c ≡ true) ((eq_iff x d).0 same) (not-false (elem x c) here)
      | inr other ↦ missing_none c ids d rest (rw other at found)
    ]

-- Every dependency of an entry's action has its COMPLETE entry behind it.
abbrev pub Ready : ExecutionManifest → JournalEntry → List JournalEntry → Type 0
Ready m e h =
    (a : ManifestAction) (d : String)
    → get_elem? m.payload.actions e.action_index ≡ some a
    → elem d a.depends_on ≡ true
    → HasComplete d h

abbrev AllReady : ExecutionManifest → List JournalEntry → Type 0
AllReady m [] = Unit
AllReady m (e ∷ h) = Ready m e h × AllReady m h

module _ (pf : Platform) (m : ExecutionManifest) where
  start-Ready :
      (h : List JournalEntry) (c : List String) (e : JournalEntry) (owned : Owned m e)
      → Admitted pf m h c
      → Started pf m h c owned.action e
      → Ready m e h
  start-Ready h c e owned adm start a d at listed = completed_sound pf m d adm (
      missing_none c owned.action.depends_on d start.dependencies
        (subst (λ z. elem d z.depends_on ≡ true) (same_action at) listed))
    where
      same_action : get_elem? m.payload.actions e.action_index ≡ some a → a ≡ owned.action
      same_action at = cc (at, owned.located)

  Ready-cons :
      (h : List JournalEntry) (c : List String) (e : JournalEntry)
      → Admitted pf m h c
      → AllReady m h
      → validate_entry pf m h c e ≡ ok tt
      → Ready m e h
  Ready-cons [] c e adm old passed =
      let (owned, order) = validate_entry-ok pf m [] c e passed in
      start-Ready [] c e owned adm (check_order-first pf m c owned.action e order)
  Ready-cons (p ∷ h) c e adm old passed =
      let (owned, order) = validate_entry-ok pf m (p ∷ h) c e passed in
      elim (check_order-ok pf m p h c owned.action e order) [
        | inl (same, step) ↦ λ a d at listed.
            inr (old.0 a d (subst (λ z. get_elem? m.payload.actions z ≡ some a) same at) listed)
        | inr start ↦ start-Ready (p ∷ h) c e owned adm start
      ]

  Admitted-AllReady : {h : List JournalEntry} {c : List String} → Admitted pf m h c → AllReady m h
  Admitted-AllReady empty = tt
  Admitted-AllReady (append {h = h} {c = c} adm e passed) =
      let old = Admitted-AllReady adm in (Ready-cons h c e adm old passed, old)

-- Whatever an entry's action depends on has a COMPLETE entry behind it in the history.
pub Admitted-Ready :
    (pf : Platform) (m : ExecutionManifest) (e : JournalEntry) (h : List JournalEntry)
    (c : List String)
    → Admitted pf m (e ∷ h) c
    → Ready m e h
Admitted-Ready pf m e h c adm = (Admitted-AllReady pf m adm).0
