-- ===== src/Hierarchy/Seasons/Members.antt =====
-- The table of seasons holds the siblings of each season, in order.
use anime_db.Base.{
  ◌≡◌, refl, sym, ap, ◌∙◌, inl, inr, ◌↔◌, true, false, Option, none, some, List, [], ◌∷◌, ◌++◌,
  if◌then◌else◌, Bool-cases, nat_eq_iff, All, if_ind,
}
use mathlib.Core.Path.{subst}
use anime_db.Execution.Manifest.{ℤ}
use anime_db.Execution.Manifest.Keys.{ℤ_eq}
use anime_db.Hierarchy.Seasons.{
  EffectiveTitle, Override, Row, identity_of, season_of, put, place, ℤ_lt, by_season, insert_item,
  sorted_items,
}

pub ℤ_eq_iff : (a b : ℤ) → (ℤ_eq a b ≡ true) ↔ (a ≡ b)
ℤ_eq_iff (ℤ.pos a) (ℤ.pos b) = (λ h. ap ℤ.pos ((nat_eq_iff a b).0 h), λ h. (nat_eq_iff a b).1 (cc))
ℤ_eq_iff (ℤ.pos a) (ℤ.negsuc b) = (λ h. cc, λ h. cc)
ℤ_eq_iff (ℤ.negsuc a) (ℤ.pos b) = (λ h. cc, λ h. cc)
ℤ_eq_iff (ℤ.negsuc a) (ℤ.negsuc b) =
    (λ h. ap ℤ.negsuc ((nat_eq_iff a b).0 h), λ h. (nat_eq_iff a b).1 (cc))

-- The rows of a season in the table.
abbrev pub rows_at : ℤ → List (ℤ × List Row) → List Row
rows_at s [] = []
rows_at s ((k, rows) ∷ rest) = let later = rows_at s rest in if ℤ_eq s k then rows else later

abbrev pub keep_at : ℤ → Option ℤ → Row → List Row → List Row
keep_at s none r rest = rest
keep_at s (some k) r rest = if ℤ_eq s k then r ∷ rest else rest

-- The siblings of a season among the titles, with their part numbers.
abbrev pub members : ℤ → Override → List EffectiveTitle → List Row
members s o [] = []
members s o (t ∷ titles) =
    let i = identity_of o t in keep_at s (season_of i) (t, i.part_number) (members s o titles)

put-same :
    (s : ℤ) (r : Row) (table : List (ℤ × List Row))
    → rows_at s (put s r table) ≡ rows_at s table ++ (r ∷ [])
put-same s r [] = let self : ℤ_eq s s ≡ true = (ℤ_eq_iff s s).1 refl in rw self refl
put-same s r ((k, rows) ∷ rest) = elim (Bool-cases (ℤ_eq s k)) [
  | inl same ↦ rw same (rw same refl)
  | inr other ↦ rw other (rw other (put-same s r rest))
]

put-other :
    (s k : ℤ) (r : Row) (table : List (ℤ × List Row))
    → ℤ_eq s k ≡ false
    → rows_at s (put k r table) ≡ rows_at s table
put-other s k r [] differ = rw differ refl
put-other s k r ((j, rows) ∷ rest) differ = elim (Bool-cases (ℤ_eq k j)) [
  | inl same ↦
      let is : k ≡ j = (ℤ_eq_iff k j).0 same in
      let apart : ℤ_eq s j ≡ false = subst (λ z. ℤ_eq s z ≡ false) is differ in
      rw same (rw apart refl)
  | inr other ↦ elim (Bool-cases (ℤ_eq s j)) [
    | inl here ↦ rw other (rw here refl)
    | inr apart ↦ rw other (rw apart (put-other s k r rest differ))
  ]
]

append_assoc : (xs ys zs : List Row) → (xs ++ ys) ++ zs ≡ xs ++ (ys ++ zs)
append_assoc [] ys zs = refl
append_assoc (x ∷ xs) ys zs = ap (λ t. x ∷ t) (append_assoc xs ys zs)

append_nil : (xs : List Row) → xs ++ [] ≡ xs
append_nil [] = refl
append_nil (x ∷ xs) = ap (λ t. x ∷ t) (append_nil xs)

place-rows_at :
    (s : ℤ) (k : Option ℤ) (r : Row) (table : List (ℤ × List Row)) (later : List Row)
    → rows_at s (place k r table) ++ later ≡ rows_at s table ++ keep_at s k r later
place-rows_at s none r table later = refl
place-rows_at s (some k) r table later = elim (Bool-cases (ℤ_eq s k)) [
  | inl same ↦
      let is : s ≡ k = (ℤ_eq_iff s k).0 same in
      let put_in : rows_at s (put k r table) ≡ rows_at s table ++ (r ∷ []) =
        subst (λ z. rows_at s (put z r table) ≡ rows_at s table ++ (r ∷ [])) is
          (put-same s r table) in
      rw same (rw put_in (append_assoc (rows_at s table) (r ∷ []) later))
  | inr differ ↦ rw differ (rw (put-other s k r table differ) refl)
]

by_season-rows_at :
    (s : ℤ) (o : Override) (titles : List EffectiveTitle) (table : List (ℤ × List Row))
    → rows_at s (by_season o titles table) ≡ rows_at s table ++ members s o titles
by_season-rows_at s o [] table = sym (append_nil (rows_at s table))
by_season-rows_at s o (t ∷ titles) table =
    let i = identity_of o t in
    by_season-rows_at s o titles (place (season_of i) (t, i.part_number) table)
    ∙ place-rows_at s (season_of i) (t, i.part_number) table (members s o titles)

-- The rows that the table holds for a season are the siblings of the season.
pub by_season-members :
    (s : ℤ) (o : Override) (titles : List EffectiveTitle)
    → rows_at s (by_season o titles []) ≡ members s o titles
by_season-members s o titles = by_season-rows_at s o titles []

-- What holds of all the items, sorted, holds of the rows of each season.
module _ (P : List Row → Type 0) where
  abbrev pub Holds : ℤ × List Row → Type 0
  Holds item = P item.1

  insert_item-All :
      (item : ℤ × List Row) (items : List (ℤ × List Row))
      → All Holds (insert_item item items)
      → Holds item × All Holds items
  insert_item-All item [] h = h
  insert_item-All item (other ∷ rest) h = elim (Bool-cases (ℤ_lt item.0 other.0)) [
    | inl less ↦
        subst (λ b. All Holds (if b then item ∷ other ∷ rest else other ∷ insert_item item rest))
          less h
    | inr more ↦
        let (first, others) =
          subst (λ b. All Holds (if b then item ∷ other ∷ rest else other ∷ insert_item item rest))
            more h in
        let (found, kept) = insert_item-All item rest others in (found, (first, kept))
  ]

  sorted_items-All :
      (items : List (ℤ × List Row)) → All Holds (sorted_items items) → All Holds items
  sorted_items-All [] h = tt
  sorted_items-All (item ∷ rest) h =
      let (first, others) = insert_item-All item (sorted_items rest) h in
      (first, sorted_items-All rest others)

  found-Holds : (s : ℤ) (items : List (ℤ × List Row)) → P [] → All Holds items → P (rows_at s items)
  found-Holds s [] empty h = empty
  found-Holds s ((k, rows) ∷ rest) empty (first, others) =
      if_ind P (ℤ_eq s k) (λ _. first) (λ _. found-Holds s rest empty others)

  pub rows_at-Holds :
      (s : ℤ) (items : List (ℤ × List Row))
      → P []
      → All Holds (sorted_items items)
      → P (rows_at s items)
  rows_at-Holds s items empty h = found-Holds s items empty (sorted_items-All items h)
