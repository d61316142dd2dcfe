-- ===== src/Media/Duplicates.antt =====
-- `duplicate_relation_state` of app/numbering.py: whether a video that a person marked as a copy may
-- still fold away behind its primary.
pub mod Folding
use anime_db.Base.{
  ℕ, String, Bool, true, false, not, ◌&&◌, ◌||◌, Option, none, some, List, [], ◌∷◌, is_some,
  if◌then◌else◌, ◌==◌, nat_eq, option_eq, String_eq, ℕ_eq,
}
use anime_db.Execution.Manifest.{ℤ}

-- A `Video` row as an object; `object` is its identity in memory. `duplicate_of` is the relation if it
-- is loaded, `attached_group` the id of a group that is attached to the object.
pub record Video : Type 0 where
  pub object : ℕ
  pub id : Option ℕ
  pub media_part_number : Option ℤ
  pub duplicate_of_video_id : Option ℕ
  pub duplicate_of : Option ℕ
  pub duplicate_primary_missing : Bool
  pub duplicate_confirmation_kind : Option String
  pub video_variant_group_id : Option ℕ
  pub attached_group : Option ℕ

pub data RelationState : Type 0 where
  valid invalid unknown : RelationState

-- Which relations of two videos are loaded, and whether both have a title.
pub record Loaded : Type 0 where
  pub titles_loaded : Bool
  pub titles_present : Bool
  pub collections_loaded : Bool

-- The session and the catalogue: the object of an identity, a relation loaded by its foreign key, and
-- the judgements of the other modules on a video or two.
pub record Catalog : Type 0 where
  pub object_at : ℕ → Option Video
  pub load : ℕ → Option Video
  pub loaded : Video → Video → Loaded
  -- `_duplicate_relation_identity`, or the given identities
  pub identity : Video → Option String
  -- `validate_unnumbered_same_content_members([primary, video])` returns
  pub same_content : Video → Video → Bool

-- `is_confirmed_duplicate`
abbrev pub is_confirmed_duplicate : Video → Bool
is_confirmed_duplicate v = is_some v.duplicate_of_video_id || is_some v.duplicate_of

-- `_video_variant_group_id`
abbrev pub or_else {ℓ} : {A : Type ℓ} → Option A → Option A → Option A
or_else none b = b
or_else (some a) b = some a

abbrev pub variant_group : Video → Option ℕ
variant_group v = or_else v.video_variant_group_id v.attached_group

-- `{video.id: video for video in candidates if video.id is not None}.get(id)`
abbrev pub known_video : ℕ → List Video → Option Video
known_video id [] = none
known_video id (v ∷ rest) =
    or_else (known_video id rest) (if option_eq nat_eq v.id (some id) then some v else none)

abbrev pub different_groups : Option ℕ → Option ℕ → Bool
different_groups (some a) (some b) = not (nat_eq a b)
different_groups _ _ = false

abbrev pub same_identity : Option String → Option String → RelationState
same_identity (some a) (some b) = if a == b then valid else invalid
same_identity _ _ = unknown

module _ (catalog : Catalog) where
  -- `loaded_duplicate_primary`
  abbrev pub by_key : Bool → List Video → Option ℕ → Option Video
  by_key allow_load known none = none
  by_key allow_load known (some id) =
      or_else (known_video id known) (if allow_load then catalog.load id else none)

  abbrev pub loaded_primary : Bool → List Video → Video → Option ℕ → Option Video
  loaded_primary allow_load known v (some object) = catalog.object_at object
  loaded_primary allow_load known v none = by_key allow_load known v.duplicate_of_video_id

  abbrev pub primary_of : Bool → List Video → Video → Option Video
  primary_of allow_load known v = loaded_primary allow_load known v v.duplicate_of

  -- The branch of an explicit confirmation of equal content.
  abbrev pub confirmed_state : Bool → Video → Video → String → RelationState
  confirmed_state allow_load v primary kind =
      let l = catalog.loaded v primary in
      if not (kind == "unnumbered_supplementary_same_content")
        || is_some primary.duplicate_confirmation_kind
      then invalid
      else if not allow_load && not l.titles_loaded
      then unknown
      else if not l.titles_present
      then invalid
      else if not allow_load && not l.collections_loaded
      then unknown
      else if catalog.same_content primary v
      then valid
      else invalid

  abbrev pub evidence_state : Bool → Video → Video → Option String → RelationState
  evidence_state allow_load v primary (some kind) = confirmed_state allow_load v primary kind
  evidence_state allow_load v primary none =
      same_identity (catalog.identity v) (catalog.identity primary)

  abbrev pub against_primary : Bool → Video → Option Video → RelationState
  against_primary allow_load v none = if allow_load then invalid else unknown
  against_primary allow_load v (some primary) =
      if nat_eq primary.object v.object
        || (primary.duplicate_primary_missing || is_confirmed_duplicate primary)
      then invalid
      else if different_groups (variant_group v) (variant_group primary)
      then invalid
      else evidence_state allow_load v primary v.duplicate_confirmation_kind

  -- `duplicate_relation_state`
  unfoldable pub relation_state : Bool → List Video → Video → Option RelationState
  relation_state allow_load known v =
      if v.duplicate_primary_missing
      then some invalid
      else if not (is_confirmed_duplicate v)
      then none
      else some (against_primary allow_load v (primary_of allow_load known v))

  abbrev pub is_valid : Option RelationState → Bool
  is_valid (some valid) = true
  is_valid _ = false

  -- `collapses_into_duplicate_primary`
  unfoldable pub collapses : List Video → Video → Bool
  unfolding relation_state
  collapses known v = is_valid (relation_state true known v)
