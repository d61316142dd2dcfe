-- ===== src/Media/Examples.antt =====
-- Tests: two parts, and a copy of the second.
use anime_db.Base.{ℕ, ◌≤◌, ◌≡◌, refl, true, false, Option, none, some, List, [], ◌∷◌, arith}
use anime_db.Execution.Manifest.{ℤ}
use anime_db.Media.Duplicates.{Video, Catalog, primary_of, collapses}
use anime_db.Media.Duplicates.Folding.{FoldsInto, collapses-primary_active}
use anime_db.Media.Parts.{ordinals, media_part_total}
use anime_db.Media.Parts.Numbers.{IsComplete}
use anime_db.Media.Parts.Complete.{media_part_total-IsComplete, IsComplete-media_part_total}

abbrev video : ℕ → ℕ → Option ℕ → Video
video object part copy_of = record {
  object = object;
  id = some object;
  media_part_number = some (ℤ.pos part);
  duplicate_of_video_id = copy_of;
  duplicate_of = none;
  duplicate_primary_missing = false;
  duplicate_confirmation_kind = none;
  video_variant_group_id = none;
  attached_group = none;
}

abbrev copy : Video
copy = video 3 2 (some 2)

abbrev siblings : List Video
siblings = video 1 1 none ∷ video 2 2 none ∷ copy ∷ []

abbrev catalog : Catalog
catalog = record {
  object_at = λ o. none;
  load = λ id. none;
  loaded = λ a b. record { titles_loaded = true; titles_present = true; collections_loaded = true };
  identity = λ v. some "episode 1";
  same_content = λ a b. false;
}

folds : collapses catalog siblings copy ≡ true
unfolding collapses
folds = refl

two_parts : media_part_total catalog siblings ≡ some 2
unfolding media_part_total collapses
two_parts = refl

collapses-primary_active_example :
    (primary : Video) × (primary_of catalog true siblings copy ≡ some primary)
    × FoldsInto catalog copy primary
    × (collapses catalog siblings primary ≡ false)
collapses-primary_active_example = collapses-primary_active catalog siblings copy folds

media_part_total-IsComplete_example : (2 ≤ 2) × IsComplete 2 (ordinals catalog siblings)
media_part_total-IsComplete_example = media_part_total-IsComplete catalog siblings 2 two_parts

IsComplete-media_part_total_example : media_part_total catalog siblings ≡ some 2
IsComplete-media_part_total_example =
    IsComplete-media_part_total catalog siblings 2 (omega arith)
      (media_part_total-IsComplete catalog siblings 2 two_parts).1
