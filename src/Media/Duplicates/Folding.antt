-- ===== src/Media/Duplicates/Folding.antt =====
-- A copy that folds away leaves an active primary behind.
use anime_db.Base.{
  ◌≡◌, refl, true, false, not, ◌||◌, Option, none, some, List, nat_eq, if_ind, or_split, not-false,
}
use anime_db.Media.Duplicates.{
  Video, RelationState, valid, invalid, unknown, Catalog, is_confirmed_duplicate, primary_of,
  against_primary, evidence_state, is_valid, collapses, different_groups, variant_group,
}

-- What VALID says of a copy and its primary.
pub record FoldsInto (catalog : Catalog) (v primary : Video) : Type 0 where
  pub other : nat_eq primary.object v.object ≡ false
  pub not_missing : primary.duplicate_primary_missing ≡ false
  pub not_a_copy : is_confirmed_duplicate primary ≡ false
  pub groups : different_groups (variant_group v) (variant_group primary) ≡ false
  pub evidence : evidence_state catalog true v primary v.duplicate_confirmation_kind ≡ valid

module _ (catalog : Catalog) (known : List Video) where
  is_valid-valid : (s : RelationState) → is_valid catalog (some s) ≡ true → s ≡ valid
  is_valid-valid valid h = refl
  is_valid-valid invalid h = cc
  is_valid-valid unknown h = cc

  against_primary-FoldsInto :
      (v : Video) (found : Option Video)
      → against_primary catalog true v found ≡ valid
      → (primary : Video) × (found ≡ some primary) × FoldsInto catalog v primary
  against_primary-FoldsInto v none h = cc
  against_primary-FoldsInto v (some primary) h =
      if_ind
        (λ (z : RelationState).
          z ≡ valid → (p : Video) × (some primary ≡ some p) × FoldsInto catalog v p)
        (nat_eq primary.object v.object
          || (primary.duplicate_primary_missing || is_confirmed_duplicate primary))
        (λ _ h'. cc)
        (λ fits h'.
          if_ind
            (λ (z : RelationState).
              z ≡ valid → (p : Video) × (some primary ≡ some p) × FoldsInto catalog v p)
            (different_groups (variant_group v) (variant_group primary)) (λ _ h''. cc)
            (λ groups h''.
              let (other, rest) = or_split (nat_eq primary.object v.object) _ fits in
              let (present, first) = or_split primary.duplicate_primary_missing _ rest in
              (
                primary,
                refl,
                record {
                  other = other;
                  not_missing = present;
                  not_a_copy = first;
                  groups = groups;
                  evidence = h'';
                },
              ))
            h')
        h

  collapses-found :
      (v : Video)
      → collapses catalog known v ≡ true
      → (primary : Video) × (primary_of catalog true known v ≡ some primary)
        × FoldsInto catalog v primary
  unfolding collapses
  collapses-found v h =
      if_ind
        (λ (z : Option RelationState).
          is_valid catalog z ≡ true
          → (primary : Video) × (primary_of catalog true known v ≡ some primary)
            × FoldsInto catalog v primary)
        v.duplicate_primary_missing (λ _ h'. cc)
        (λ _ h'.
          if_ind
            (λ (z : Option RelationState).
              is_valid catalog z ≡ true
              → (primary : Video) × (primary_of catalog true known v ≡ some primary)
                × FoldsInto catalog v primary)
            (not (is_confirmed_duplicate v)) (λ _ h''. cc)
            (λ _ h''.
              against_primary-FoldsInto v (primary_of catalog true known v) (is_valid-valid _ h''))
            h')
        h

  active_if :
      (v : Video)
      → v.duplicate_primary_missing ≡ false
      → is_confirmed_duplicate v ≡ false
      → collapses catalog known v ≡ false
  unfolding collapses
  active_if v present first =
      if_ind (λ (z : Option RelationState). is_valid catalog z ≡ false) v.duplicate_primary_missing
        (λ _. refl)
        λ _.
          if_ind (λ (z : Option RelationState). is_valid catalog z ≡ false)
            (not (is_confirmed_duplicate v)) (λ _. refl)
            (λ copy. cc (first, not-false (is_confirmed_duplicate v) copy))

  -- A video that folds away has a primary: another video that stays active itself, in a variant group
  -- that does not differ, with the evidence of one identity or of confirmed equal content.
  pub collapses-primary_active :
      (v : Video)
      → collapses catalog known v ≡ true
      → (primary : Video) × (primary_of catalog true known v ≡ some primary)
        × FoldsInto catalog v primary
        × (collapses catalog known primary ≡ false)
  collapses-primary_active v h =
      let (primary, found, folds) = collapses-found v h in
      (primary, found, folds, active_if primary folds.not_missing folds.not_a_copy)
