-- ===== src/Titles/Sorting.antt =====
-- Sorting the items of a dictionary keeps what it maps.
use anime_db.Base.{
  ℕ, ◌≡◌, refl, ◌∙◌, false, none, some, [], ◌∷◌, if◌then◌else◌, leb, ◌==◌, ℕ_eq, ◌<◌, Bool-cases,
  inl, inr, arith, if_ind,
}
use anime_db.Base.Dict.{get, Unique}
use anime_db.Titles.{IndexedTitle, Owners, insert, sorted}

-- Ascending keys
abbrev pub Above : ℕ → Owners → Type 0
Above k [] = Unit
Above k ((j, w) ∷ d) = k < j

abbrev pub Ascending : Owners → Type 0
Ascending [] = Unit
Ascending ((k, v) ∷ d) = Above k d × Ascending d

get-insert :
    (i k : ℕ) (v : IndexedTitle) (d : Owners)
    → get i (insert k v d) ≡ (if i == k then some v else get i d)
get-insert i k v [] = refl
get-insert i k v ((j, w) ∷ d) = elim (Bool-cases (leb k j)) [
  | inl before ↦ rw before refl
  | inr behind ↦ rw (behind, get-insert i k v d) (ground (arith, behind))
]

pub get-sorted : (i : ℕ) (d : Owners) → get i (sorted d) ≡ get i d
get-sorted i [] = refl
get-sorted i ((k, v) ∷ d) = rw (get-insert i k v (sorted d), get-sorted i d) refl

Above-insert :
    (j k : ℕ) (v : IndexedTitle) (d : Owners) → j < k → Above j d → Above j (insert k v d)
Above-insert j k v [] lt h = lt
Above-insert j k v ((l, w) ∷ d) lt h = if_ind (Above j) (leb k l) (λ _. lt) (λ _. h)

absent :
    (k j : ℕ) (w : IndexedTitle) (d : Owners)
    → get k ((j, w) ∷ d) ≡ none
    → ((k == j) ≡ false) × (get k d ≡ none)
absent k j w d h = ground (arith, h)

Ascending-insert :
    (k : ℕ) (v : IndexedTitle) (d : Owners)
    → get k d ≡ none
    → Ascending d
    → Ascending (insert k v d)
Ascending-insert k v [] fresh h = (tt, tt)
Ascending-insert k v ((j, w) ∷ d) fresh (above, h) =
    let (apart, later) = absent k j w d fresh in
    if_ind Ascending (leb k j) (λ before. (ground (arith, before, apart), (above, h)))
      (λ behind.
        (Above-insert j k v d (ground (arith, behind)) above, Ascending-insert k v d later h))

pub sorted-Ascending : (d : Owners) → Unique d → Ascending (sorted d)
sorted-Ascending [] h = tt
sorted-Ascending ((k, v) ∷ d) (fresh, h) =
    Ascending-insert k v (sorted d) (get-sorted k d ∙ fresh) (sorted-Ascending d h)
