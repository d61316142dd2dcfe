-- ===== src/Titles.antt =====
-- `TitleLocatorIndex` of app/title_identity.py: which titles were recorded at a locator.
pub mod Sorting
pub mod Records
pub mod Refinement
mod Examples
use anime_db.Base.{
  ℕ, String, Bool, true, false, Option, none, some, List, [], ◌∷◌, Result, ok, err, if◌then◌else◌,
  leb, map, is_some, ℕ_eq, String_eq,
}
use anime_db.Base.Dict.{get, pop, put}

-- The parts of a `CatalogTitle` that the index uses: its row identifier, once it has one, and its locator now, which may change.
pub record IndexedTitle : Type 0 where
  pub id : Option ℕ
  pub relative_root_path : String
  pub local_title : String

abbrev pub Owners : Type 0
Owners = List (ℕ × IndexedTitle)

pub record TitleLocatorIndex : Type 0 where
  pub by_id : Owners
  pub by_locator : List (String × Owners)
  pub locator_by_id : List (ℕ × String)

abbrev pub empty_index : TitleLocatorIndex
empty_index = record { by_id = []; by_locator = []; locator_by_id = [] }

abbrev pub or_else : {A : Type 0} → Option A → A → A
or_else none d = d
or_else (some a) d = a

-- `self._by_locator.get(locator, {})`
abbrev pub owners : String → TitleLocatorIndex → Owners
owners locator x = or_else (get locator x.by_locator) []

-- `owners.pop(…)`, which changes the dictionary in place, and the removal of one left empty.
abbrev pub stored : String → Owners → List (String × Owners) → List (String × Owners)
stored locator [] d = pop locator d
stored locator (o ∷ os) d = put locator (o ∷ os) d

abbrev pub discard_id : ℕ → String → TitleLocatorIndex → TitleLocatorIndex
discard_id i path x =
    let locator = or_else (get i x.locator_by_id) path in
    record {
      by_id = pop i x.by_id;
      by_locator = stored locator (pop i (owners locator x)) x.by_locator;
      locator_by_id = pop i x.locator_by_id;
    }

-- `discard`
abbrev pub discard_of : Option ℕ → String → TitleLocatorIndex → TitleLocatorIndex
discard_of none path x = record x { by_locator = stored path (owners path x) x.by_locator }
discard_of (some i) path x = discard_id i path x

abbrev pub discard : IndexedTitle → TitleLocatorIndex → TitleLocatorIndex
discard t x = discard_of t.id t.relative_root_path x

abbrev pub record_at : ℕ → IndexedTitle → TitleLocatorIndex → TitleLocatorIndex
record_at i t x = record {
  by_id = put i t x.by_id;
  by_locator = put t.relative_root_path (put i t (owners t.relative_root_path x)) x.by_locator;
  locator_by_id = put i t.relative_root_path x.locator_by_id;
}

-- `add`
abbrev pub add_as : Option ℕ → IndexedTitle → TitleLocatorIndex → Result String TitleLocatorIndex
add_as none t x = err "Locator indexing requires a persisted owner ID."
add_as (some i) t x = ok (
    if is_some (get i x.by_id)
    then record_at i t (discard_id i t.relative_root_path x)
    else record_at i t x)

abbrev pub add : IndexedTitle → TitleLocatorIndex → Result String TitleLocatorIndex
add t x = add_as t.id t x

-- `sorted(d.items())`; no two items have the same key.
abbrev pub insert : ℕ → IndexedTitle → Owners → Owners
insert k v [] = (k, v) ∷ []
insert k v ((j, w) ∷ d) =
    let later = insert k v d in if leb k j then (k, v) ∷ (j, w) ∷ d else (j, w) ∷ later

abbrev pub sorted : Owners → Owners
sorted [] = []
sorted ((k, v) ∷ d) = insert k v (sorted d)

-- `candidates`
abbrev pub candidates : String → TitleLocatorIndex → List IndexedTitle
candidates locator x = map (λ o. o.1) (sorted (owners locator x))

abbrev pub only : List IndexedTitle → Option IndexedTitle
only [] = none
only (t ∷ []) = some t
only (t ∷ u ∷ rest) = none

-- `unique`
abbrev pub unique : String → TitleLocatorIndex → Option IndexedTitle
unique locator x = only (candidates locator x)
