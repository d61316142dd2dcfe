-- ===== src/Media/Parts.antt =====
-- app/media_parts.py: numbered physical segments of one title.
pub mod Numbers
pub mod Complete
use anime_db.Base.{
  ℕ, zero, suc, ◌+◌, String, Bool, true, false, not, ◌&&◌, ◌||◌, Option, none, some, List, [], ◌∷◌,
  any, all, elem, length, Result, ok, err, if◌then◌else◌, nat_eq, ltb, leb, ℕ_eq, list_eq,
}
use anime_db.Execution.Paths.{concat}
use anime_db.Execution.Manifest.{ℤ}
use anime_db.Execution.Manifest.Keys.{decimal}
use anime_db.Media.Duplicates.{Video, Catalog, collapses}

-- A Python value given as a part number.
pub data PyValue : Type 0 where
  nothing : PyValue
  flag : Bool → PyValue
  number : ℤ → PyValue
  other : PyValue

-- `validate_media_part_number`, and the number that it lets through
abbrev pub validate_media_part_number : PyValue → Result String (Option ℤ)
validate_media_part_number nothing = ok none
validate_media_part_number (number (ℤ.pos (suc n))) = ok (some (ℤ.pos (suc n)))
validate_media_part_number _ = err "Část média musí být kladné celé číslo."

abbrev pub with_number : Video → Result String (Option ℤ) → Result String Video
with_number v (ok value) = ok (record v { media_part_number = value })
with_number v (err message) = err message

-- `set_media_part_number`
unfoldable pub set_media_part_number : Video → PyValue → Result String Video
set_media_part_number v value = with_number v (validate_media_part_number value)

-- The number of a valid segment.
abbrev pub ordinal_of : Option ℤ → Option ℕ
ordinal_of (some (ℤ.pos (suc n))) = some (suc n)
ordinal_of _ = none

abbrev pub put_ordinal : Option ℕ → List ℕ → List ℕ
put_ordinal none rest = rest
put_ordinal (some n) rest = n ∷ rest

-- `Counter(...)[n]`
abbrev pub unit_if : Bool → ℕ
unit_if true = 1
unit_if false = 0

abbrev pub occurrences : ℕ → List ℕ → ℕ
occurrences k [] = 0
occurrences k (n ∷ ns) = unit_if (nat_eq n k) + occurrences k ns

abbrev pub maximum : List ℕ → ℕ
maximum [] = 0
maximum (n ∷ ns) = let rest = maximum ns in if leb n rest then rest else n

-- 1, …, n are all among the numbers.
abbrev pub all_up_to : ℕ → List ℕ → Bool
all_up_to zero ns = true
all_up_to (suc n) ns = elem (suc n) ns && all_up_to n ns

-- `sorted({n for n in ns if test n})`
abbrev insert_number : ℕ → List ℕ → List ℕ
insert_number n [] = n ∷ []
insert_number n (m ∷ ms) =
    let later = insert_number n ms in
    if nat_eq n m then m ∷ ms else if ltb n m then n ∷ m ∷ ms else m ∷ later

unfoldable pub sorted_where : (ℕ → Bool) → List ℕ → List ℕ
sorted_where test [] = []
sorted_where test (n ∷ ns) =
    let rest = sorted_where test ns in if test n then insert_number n rest else rest

-- `media_part_total` on the numbers of the active segments
unfoldable pub total_of : List ℕ → Option ℕ
total_of ns =
    if any (λ n. ltb 1 (occurrences n ns)) ns
    then none
    else if ltb (length ns) 2
    then none
    else if all_up_to (maximum ns) ns
    then some (maximum ns)
    else none

abbrev texts_of : List ℕ → String
texts_of [] = ""
texts_of (n ∷ []) = decimal n
texts_of (n ∷ m ∷ ns) = concat (decimal n) (concat ", " (texts_of (m ∷ ns)))

abbrev label_of : Option ℕ → Option ℕ → Option String
label_of none total = none
label_of (some n) (some total) =
    some (concat "Část média " (concat (decimal n) (concat "/" (decimal total))))
label_of (some n) none = some (concat "Část média " (decimal n))

abbrev summary_of : Option ℕ → Option String
summary_of none = none
summary_of (some n) =
    some (
      concat (decimal n) (concat " " (if leb 2 n && leb n 4 then "části média" else "částí média")))

module _ (catalog : Catalog) where
  abbrev active_from : List Video → List Video → List Video
  active_from known [] = []
  active_from known (v ∷ rest) =
      let others = active_from known rest in
      elim (ordinal_of v.media_part_number) [
        | none ↦ others
        | some n ↦ if collapses catalog known v then others else v ∷ others
      ]

  -- `active_media_part_videos`
  unfoldable pub active_media_part_videos : List Video → List Video
  unfolding collapses
  active_media_part_videos videos = active_from videos videos

  abbrev pub numbers_of : List Video → List ℕ
  numbers_of [] = []
  numbers_of (v ∷ rest) = put_ordinal (ordinal_of v.media_part_number) (numbers_of rest)

  -- The numbers of the active segments.
  abbrev pub ordinals : List Video → List ℕ
  ordinals videos = numbers_of (active_media_part_videos videos)

  -- `media_part_total`
  unfoldable pub media_part_total : List Video → Option ℕ
  unfolding total_of active_media_part_videos
  media_part_total videos = total_of (ordinals videos)

  unfoldable pub media_part_label : Video → List Video → Option String
  unfolding media_part_total
  media_part_label v siblings =
      label_of (ordinal_of v.media_part_number) (media_part_total siblings)

  unfoldable pub duplicate_media_part_ordinals : List Video → List ℕ
  unfolding sorted_where active_media_part_videos
  duplicate_media_part_ordinals videos =
      let ns = ordinals videos in sorted_where (λ n. ltb 1 (occurrences n ns)) ns

  unfoldable pub media_part_ordinal_warning : Video → List Video → Option String
  unfolding duplicate_media_part_ordinals
  media_part_ordinal_warning v siblings = elim (ordinal_of v.media_part_number) [
    | none ↦ none
    | some n ↦
        if elem n (duplicate_media_part_ordinals siblings)
        then some (
            concat "Číslo části média "
              (concat (decimal n) " používá více aktivních primárních videí tohoto titulu."))
        else none
  ]

  abbrev sequence_text : List ℕ → Option ℕ → Option String
  sequence_text ns (some total) = none
  sequence_text [] none = none
  sequence_text ns none =
      if list_eq nat_eq ns (1 ∷ [])
      then none
      else some (
          concat "Části média netvoří souvislou sadu od 1 (nalezeno: "
            (concat (texts_of ns) "). Jde o neblokující video-level upozornění."))

  unfoldable pub media_part_sequence_warning : List Video → Option String
  unfolding duplicate_media_part_ordinals media_part_total
  media_part_sequence_warning videos = elim (duplicate_media_part_ordinals videos) [
    | _ ∷ _ ↦ none
    | [] ↦ sequence_text (sorted_where (λ n. true) (ordinals videos)) (media_part_total videos)
  ]

  unfoldable pub media_part_summary_label : List Video → Option String
  unfolding media_part_total
  media_part_summary_label videos = summary_of (media_part_total videos)
