-- ===== src/Titles/Examples.antt =====
-- Titles that were added, moved and discarded.
use anime_db.Base.{ℕ, ◌≡◌, refl, none, some, List, [], ◌∷◌, err, map, ℕ_eq, String_eq}
use anime_db.Base.Dict.{get}
use anime_db.Titles.{IndexedTitle, Owners, empty_index, candidates, unique, add}
use anime_db.Titles.Sorting.{Ascending}
use anime_db.Titles.Records.{title_at}
use anime_db.Titles.Refinement.{Op, adding, discarding, perform_all, after_all, candidates-Recorded}

abbrev first : IndexedTitle
first = record { id = some 7; relative_root_path = "A"; local_title = "Alpha" }

abbrev second : IndexedTitle
second = record { id = some 2; relative_root_path = "A"; local_title = "Beta" }

-- The first title once its locator has changed
abbrev moved : IndexedTitle
moved = record first { relative_root_path = "B" }

abbrev unsaved : IndexedTitle
unsaved = record { id = none; relative_root_path = "A"; local_title = "Gamma" }

abbrev shared : List Op
shared = adding first ∷ adding second ∷ []

abbrev history : List Op
history =
    adding first
    ∷ adding second
    ∷ adding unsaved
    ∷ adding moved
    ∷ discarding second
    ∷ adding second
    ∷ []

both : candidates "A" (perform_all shared empty_index) ≡ second ∷ first ∷ []
both = refl

ambiguous : unique "A" (perform_all shared empty_index) ≡ none
ambiguous = refl

-- Discarding after the change of its locator removes it from the locator it was added at.
forgotten : candidates "A" (perform_all (adding first ∷ discarding moved ∷ []) empty_index) ≡ []
forgotten = refl

one_left : unique "A" (perform_all history empty_index) ≡ some second
one_left = refl

other_place : candidates "B" (perform_all history empty_index) ≡ moved ∷ []
other_place = refl

not_saved : add unsaved empty_index ≡ err "Locator indexing requires a persisted owner ID."
not_saved = refl

candidates-Recorded_example :
    (items : Owners) × (candidates "A" (perform_all history empty_index) ≡ map (λ o. o.1) items)
    × Ascending items
    × ((i : ℕ) → get i items ≡ title_at "A" (after_all history (λ _. none) i))
candidates-Recorded_example = candidates-Recorded history "A"
