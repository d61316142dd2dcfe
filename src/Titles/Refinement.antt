-- ===== src/Titles/Refinement.antt =====
-- Any run of operations on the index against what is known of each owner.
use anime_db.Base.{
  ℕ, String, ◌≡◌, refl, sym, ap, ◌∙◌, false, Option, none, some, List, [], ◌∷◌, Result, ok, err,
  map, is_some, ◌==◌, ℕ_eq, String_eq, equal_self, Bool-cases, inl, inr, if_ind,
}
use anime_db.Base.Dict.{get}
use anime_db.Titles.{
  IndexedTitle, Owners, TitleLocatorIndex, empty_index, owners, discard_id, discard_of, discard,
  record_at, add_as, add, sorted, candidates,
}
use anime_db.Titles.Sorting.{Ascending, get-sorted, sorted-Ascending}
use anime_db.Titles.Records.{
  Recorded, title_of, title_at, Implements, Implements-empty, Implements-discard_id,
  Implements-record_at, Implements-discard_none, agree, set_at,
}

pub data Op : Type 0 where
  adding discarding : IndexedTitle → Op

-- An addition that raises leaves the index as it was.
abbrev pub kept : Result String TitleLocatorIndex → TitleLocatorIndex → TitleLocatorIndex
kept (ok x') x = x'
kept (err e) x = x

abbrev pub perform : Op → TitleLocatorIndex → TitleLocatorIndex
perform (adding t) x = kept (add t x) x
perform (discarding t) x = discard t x

abbrev pub perform_all : List Op → TitleLocatorIndex → TitleLocatorIndex
perform_all [] x = x
perform_all (o ∷ os) x = perform_all os (perform o x)

-- The same on the record.
abbrev pub set_if : Option ℕ → Recorded → (ℕ → Recorded) → ℕ → Recorded
set_if none r known = known
set_if (some i) r known = set_at i r known

abbrev pub after_op : Op → (ℕ → Recorded) → ℕ → Recorded
after_op (adding t) known = set_if t.id (some (t.relative_root_path, t)) known
after_op (discarding t) known = set_if t.id none known

abbrev pub after_all : List Op → (ℕ → Recorded) → ℕ → Recorded
after_all [] known = known
after_all (o ∷ os) known = after_all os (after_op o known)

module _ (x : TitleLocatorIndex) (known : ℕ → Recorded) (h : Implements x known) where
  set_twice :
      (i : ℕ) (r : Recorded) (j : ℕ) → set_at i r (set_at i none known) j ≡ set_at i r known j
  set_twice i r j = elim (Bool-cases (j == i)) [
    | inl same ↦ rw same refl
    | inr apart ↦ rw apart refl
  ]

  readded :
      (i : ℕ) (t : IndexedTitle)
      → Implements
          (record_at i t (discard_id i t.relative_root_path x))
          (set_at i (some (t.relative_root_path, t)) known)
  readded i t =
      let gone : set_at i none known i ≡ none = rw (equal_self i) refl in
      let dropped = Implements-discard_id x known h i t.relative_root_path in
      agree _ _
        (Implements-record_at (discard_id i t.relative_root_path x) (set_at i none known) dropped i
          t gone)
        _ (set_twice i (some (t.relative_root_path, t)))

  no_title : (r : Recorded) → is_some (title_of r) ≡ false → r ≡ none
  no_title none is = refl
  no_title (some (l, t)) is = cc

  added :
      (i : ℕ) (t : IndexedTitle)
      → Implements (kept (add_as (some i) t x) x) (set_at i (some (t.relative_root_path, t)) known)
  added i t =
      if_ind (λ y. Implements y (set_at i (some (t.relative_root_path, t)) known))
        (is_some (get i x.by_id)) (λ _. readded i t)
        (λ is.
          Implements-record_at x known h i t
            (no_title (known i) (ap is_some (sym (h.titles i)) ∙ is)))

  adds :
      (id : Option ℕ) (t : IndexedTitle)
      → Implements (kept (add_as id t x) x) (set_if id (some (t.relative_root_path, t)) known)
  adds none t = h
  adds (some i) t = added i t

  discards :
      (id : Option ℕ) (path : String) → Implements (discard_of id path x) (set_if id none known)
  discards none path = Implements-discard_none x known h path
  discards (some i) path = Implements-discard_id x known h i path

  performs : (o : Op) → Implements (perform o x) (after_op o known)
  performs (adding t) = adds t.id t
  performs (discarding t) = discards t.id t.relative_root_path

Implements-all :
    (os : List Op) (x : TitleLocatorIndex) (known : ℕ → Recorded)
    → Implements x known
    → Implements (perform_all os x) (after_all os known)
Implements-all [] x known h = h
Implements-all (o ∷ os) x known h =
    Implements-all os (perform o x) (after_op o known) (performs x known h o)

-- After any run of additions and discards, whatever happened to the locators of the titles in between,
-- the candidates at a locator are in the order of their identifiers, each once, the titles that were
-- last added at that locator and not discarded since.
pub candidates-Recorded :
    (os : List Op) (locator : String)
    → (items : Owners) × (candidates locator (perform_all os empty_index) ≡ map (λ o. o.1) items)
      × Ascending items
      × ((i : ℕ) → get i items ≡ title_at locator (after_all os (λ _. none) i))
candidates-Recorded os locator =
    let h = Implements-all os empty_index (λ _. none) Implements-empty in
    let d = owners locator (perform_all os empty_index) in
    (sorted d, refl, sorted-Ascending d (h.distinct locator), λ i. get-sorted i d ∙ h.at i locator)
