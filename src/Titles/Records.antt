-- ===== src/Titles/Records.antt =====
-- What the index keeps of each owner: its title, and the locator that it was added at. A discard and an
-- addition change that for one owner.
use anime_db.Base.{
  ℕ, String, ◌≡◌, refl, sym, ap, ◌∙◌, Bool, true, false, Option, none, some, List, [], ◌∷◌,
  if◌then◌else◌, ◌==◌, ℕ_eq, String_eq, Bool-cases, inl, inr, if_ind,
}
use mathlib.Core.Path.{subst}
use anime_db.Base.Dict.{get, pop, put, Unique, get-pop, get-put, pop-Unique, put-Unique}
use anime_db.Titles.{
  IndexedTitle, Owners, TitleLocatorIndex, empty_index, or_else, owners, stored, discard_id,
  discard_of, record_at,
}

-- What is known of an identifier: the locator that its title was added at, and the title.
abbrev pub Recorded : Type 0
Recorded = Option (String × IndexedTitle)

abbrev pub locator_of : Recorded → Option String
locator_of none = none
locator_of (some (l, t)) = some l

abbrev pub title_of : Recorded → Option IndexedTitle
title_of none = none
title_of (some (l, t)) = some t

abbrev pub title_at : String → Recorded → Option IndexedTitle
title_at locator none = none
title_at locator (some (l, t)) = if locator == l then some t else none

pub record Implements (x : TitleLocatorIndex) (known : ℕ → Recorded) : Type 0 where
  pub titles : (i : ℕ) → get i x.by_id ≡ title_of (known i)
  pub locators : (i : ℕ) → get i x.locator_by_id ≡ locator_of (known i)
  pub at : (i : ℕ) (locator : String) → get i (owners locator x) ≡ title_at locator (known i)
  pub distinct : (locator : String) → Unique (owners locator x)

pub Implements-empty : Implements empty_index (λ i. none)
Implements-empty = record {
  titles = λ i. refl;
  locators = λ i. refl;
  at = λ i l. refl;
  distinct = λ l. tt;
}

if_ap :
    {A B : Type 0} (f : A → B) (b : Bool) (x y : A)
    → f (if b then x else y) ≡ (if b then f x else f y)
if_ap f true x y = refl
if_ap f false x y = refl

abbrev found : String → List (String × Owners) → Owners
found m d = or_else (get m d) []

found-put :
    (m l : String) (os : Owners) (d : List (String × Owners))
    → found m (put l os d) ≡ (if m == l then os else found m d)
found-put m l os d = rw (get-put m l os d) (if_ap (λ o. or_else o []) (m == l) (some os) (get m d))

-- After a store, the owners at a locator are the stored ones, and the others are as they were.
found-stored :
    (m l : String) (os : Owners) (d : List (String × Owners))
    → found m (stored l os d) ≡ (if m == l then os else found m d)
found-stored m l [] d = rw (get-pop m l d) (if_ap (λ o. or_else o []) (m == l) none (get m d))
found-stored m l (o ∷ os) d = found-put m l (o ∷ os) d

-- What is known once `r` is known of `i`
abbrev pub set_at : ℕ → Recorded → (ℕ → Recorded) → ℕ → Recorded
set_at i r known j = if j == i then r else known j

elsewhere :
    (m path : String) (locators : Option String) (r : Recorded)
    → locators ≡ locator_of r
    → (m == or_else locators path) ≡ false
    → title_at m r ≡ none
elsewhere m path locators none is apart = refl
elsewhere m path locators (some (l, t)) is apart =
    let differs : (m == l) ≡ false = subst (λ o. (m == or_else o path) ≡ false) is apart in
    rw differs refl

module _ (x : TitleLocatorIndex) (known : ℕ → Recorded) (h : Implements x known) where
  -- Where a value was set for `i`, the other owners at another locator are as they were.
  untouched :
      (i : ℕ) (r : Recorded) (m : String) (j : ℕ)
      → title_at m (known i) ≡ none
      → title_at m r ≡ none
      → get j (owners m x) ≡ title_at m (set_at i r known j)
  untouched i r m j before after = elim (Bool-cases (j == i)) [
    | inl same ↦
        let is : j ≡ i = (ℕ_eq.decides j i).0 same in
        rw same (h.at j m ∙ ap (λ k. title_at m (known k)) is ∙ before ∙ sym after)
    | inr apart ↦ rw apart (h.at j m)
  ]

  discard_id-at :
      (i : ℕ) (path : String) (j : ℕ) (m : String)
      → get j (owners m (discard_id i path x)) ≡ title_at m (set_at i none known j)
  discard_id-at i path j m =
      let l = or_else (get i x.locator_by_id) path in
      elim (Bool-cases (m == l)) [
        | inl same ↦
            let is : m ≡ l = (String_eq.decides m l).0 same in
            let here : found m (discard_id i path x).by_locator ≡ pop i (owners l x) =
              found-stored m l (pop i (owners l x)) x.by_locator ∙ rw same refl in
            let was : get j (owners l x) ≡ title_at m (known j) =
              ap (λ k. get j (owners k x)) (sym is) ∙ h.at j m in
            ap (λ os. get j os) here
            ∙ get-pop j i (owners l x)
            ∙ rw was (sym (if_ap (title_at m) (j == i) none (known j)))
        | inr apart ↦
            let here : found m (discard_id i path x).by_locator ≡ owners m x =
              found-stored m l (pop i (owners l x)) x.by_locator ∙ rw apart refl in
            ap (λ os. get j os) here
            ∙ untouched i none m j
                (elsewhere m path (get i x.locator_by_id) (known i) (h.locators i) apart) refl
      ]

  pub Implements-discard_id :
      (i : ℕ) (path : String) → Implements (discard_id i path x) (set_at i none known)
  Implements-discard_id i path = record {
    titles =
        λ j. get-pop j i x.by_id ∙ rw (h.titles j) (sym (if_ap title_of (j == i) none (known j)));
    locators = λ j.
        get-pop j i x.locator_by_id
        ∙ rw (h.locators j) (sym (if_ap locator_of (j == i) none (known j)));
    at = discard_id-at i path;
    distinct = λ m.
        let l = or_else (get i x.locator_by_id) path in
        subst Unique (sym (found-stored m l (pop i (owners l x)) x.by_locator)) (
          if_ind Unique (m == l) (λ _. pop-Unique i (owners l x) (h.distinct l))
            (λ _. h.distinct m));
  }

  record_at-at :
      (i : ℕ) (t : IndexedTitle)
      → known i ≡ none
      → (j : ℕ) (m : String)
      → get j (owners m (record_at i t x))
        ≡ title_at m (set_at i (some (t.relative_root_path, t)) known j)
  record_at-at i t absent j m =
      let l = t.relative_root_path in
      elim (Bool-cases (m == l)) [
        | inl same ↦
            let is : m ≡ l = (String_eq.decides m l).0 same in
            let here : found m (record_at i t x).by_locator ≡ put i t (owners l x) =
              found-put m l (put i t (owners l x)) x.by_locator ∙ rw same refl in
            let was : get j (owners l x) ≡ title_at m (known j) =
              ap (λ k. get j (owners k x)) (sym is) ∙ h.at j m in
            ap (λ os. get j os) here
            ∙ get-put j i t (owners l x)
            ∙ rw was (sym (if_ap (title_at m) (j == i) (some (l, t)) (known j) ∙ rw same refl))
        | inr apart ↦
            let here : found m (record_at i t x).by_locator ≡ owners m x =
              found-put m l (put i t (owners l x)) x.by_locator ∙ rw apart refl in
            ap (λ os. get j os) here
            ∙ untouched i (some (l, t)) m j (ap (title_at m) absent) (rw apart refl)
      ]

  pub Implements-record_at :
      (i : ℕ) (t : IndexedTitle)
      → known i ≡ none
      → Implements (record_at i t x) (set_at i (some (t.relative_root_path, t)) known)
  Implements-record_at i t absent =
      let l = t.relative_root_path in
      record {
        titles = λ j.
            get-put j i t x.by_id
            ∙ rw (h.titles j) (sym (if_ap title_of (j == i) (some (l, t)) (known j)));
        locators = λ j.
            get-put j i l x.locator_by_id
            ∙ rw (h.locators j) (sym (if_ap locator_of (j == i) (some (l, t)) (known j)));
        at = record_at-at i t absent;
        distinct = λ m. subst Unique (sym (found-put m l (put i t (owners l x)) x.by_locator)) (
            if_ind Unique (m == l) (λ _. put-Unique i t (owners l x) (h.distinct l))
              (λ _. h.distinct m));
      }

  -- A title without an identifier is in no record.
  pub Implements-discard_none : (path : String) → Implements (discard_of none path x) known
  Implements-discard_none path =
      let same = λ (m : String).
        found-stored m path (owners path x) x.by_locator
        ∙ if_ind (λ os. os ≡ owners m x) (m == path)
            (λ is. ap (λ k. owners k x) (sym ((String_eq.decides m path).0 is))) (λ _. refl) in
      record {
        titles = h.titles;
        locators = h.locators;
        at = λ j m. ap (λ os. get j os) (same m) ∙ h.at j m;
        distinct = λ m. subst Unique (sym (same m)) (h.distinct m);
      }

  pub agree : (known' : ℕ → Recorded) → ((j : ℕ) → known j ≡ known' j) → Implements x known'
  agree known' is = record {
    titles = λ j. h.titles j ∙ ap title_of (is j);
    locators = λ j. h.locators j ∙ ap locator_of (is j);
    at = λ j m. h.at j m ∙ ap (title_at m) (is j);
    distinct = h.distinct;
  }
