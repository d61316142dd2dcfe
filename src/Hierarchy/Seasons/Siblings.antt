-- ===== src/Hierarchy/Seasons/Siblings.antt =====
-- When no season has an issue, the siblings of each season can be told apart.
use anime_db.Base.{
  ◌+◌, ◌≤◌, ◌≡◌, refl, ◌⊎◌, inl, inr, true, false, ◌||◌, Option, none, some, List, [], ◌∷◌, map,
  length, any, all, distinct, Bool-cases, ltb, option_eq, is_some, All, arith, or_split,
}
use mathlib.Core.Path.{subst}
use anime_db.Execution.Manifest.{ℤ}
use anime_db.Execution.Manifest.Keys.{ℤ_eq}
use anime_db.Hierarchy.Seasons.{
  EffectiveTitle, Override, Row, SplitSeasonStructureIssue, count, one_if, keep_repeated, repeated,
  insert_number, sorted_numbers, is_none, any_left, issue_of, issues_of, by_season, sorted_items,
  split_season_structure_issues,
}
use anime_db.Hierarchy.Seasons.Members.{ℤ_eq_iff, members, by_season-members, rows_at-Holds, Holds}

-- Every one has a part number, and no two have the same.
abbrev pub part_numbers : List Row → List (Option ℤ)
part_numbers rows = map (λ r. r.1) rows

abbrev pub TellApart : List Row → Type 0
TellApart rows =
    (length rows ≤ 1)
    ⊎ ((all is_some (part_numbers rows) ≡ true)
        × (distinct (option_eq ℤ_eq) (part_numbers rows) ≡ true))

count-any :
    (n : Option ℤ) (ns : List (Option ℤ)) → count n ns ≡ 0 → any (option_eq ℤ_eq n) ns ≡ false
count-any n [] h = refl
count-any n (m ∷ ns) h = elim (Bool-cases (option_eq ℤ_eq n m)) [
  | inl same ↦ ground (arith, same, h)
  | inr other ↦ ground (arith, other, h, count-any n ns (ground (arith, other, h)))
]

insert_number-any_left : (n : ℤ) (ns : List ℤ) → any_left (insert_number n ns) ≡ true
insert_number-any_left n [] = refl
insert_number-any_left n (m ∷ ns) = ground arith

sorted_numbers-empty : (ns : List ℤ) → any_left (sorted_numbers ns) ≡ false → ns ≡ []
sorted_numbers-empty [] h = refl
sorted_numbers-empty (n ∷ ns) h = let left = insert_number-any_left n (sorted_numbers ns) in cc

none_missing : (ns : List (Option ℤ)) → any is_none ns ≡ false → all is_some ns ≡ true
none_missing [] h = refl
none_missing (none ∷ ns) h = cc
none_missing (some n ∷ ns) h = none_missing ns h

-- Numbers that all occur at most once among `ns` and later ones are distinct.
repeated-distinct :
    (every ns : List (Option ℤ))
    → ((n : Option ℤ) → count n ns ≤ count n every)
    → all is_some ns ≡ true
    → repeated every ns ≡ []
    → distinct (option_eq ℤ_eq) ns ≡ true
repeated-distinct every [] within given once = refl
repeated-distinct every (none ∷ ns) within given once = cc
repeated-distinct every (some n ∷ ns) within given once =
    elim (Bool-cases (ltb 1 (count (some n) every))) [
      | inl more ↦
          let bad : n ∷ repeated every ns ≡ [] =
            subst (λ b. keep_repeated b (some n) (repeated every ns) ≡ []) more once in
          cc
      | inr few ↦
          let later : repeated every ns ≡ [] =
            subst (λ b. keep_repeated b (some n) (repeated every ns) ≡ []) few once in
          let self : ℤ_eq n n ≡ true = (ℤ_eq_iff n n).1 refl in
          let here : 1 + count (some n) ns ≤ count (some n) every =
            subst (λ b. one_if b + count (some n) ns ≤ count (some n) every) self
              (within (some n)) in
          let gone : count (some n) ns ≡ 0 = ground (arith, few, here) in
          let new = count-any (some n) ns gone in
          let rest = repeated-distinct every ns (λ m. omega (arith, within m)) given later in
          rw new rest
    ]

clear-TellApart :
    (rows : List Row)
    → (any is_none (part_numbers rows)
        || any_left (sorted_numbers (repeated (part_numbers rows) (part_numbers rows))))
      ≡ false
    → TellApart rows
clear-TellApart rows h =
    let ns = part_numbers rows in
    let (missing, left) =
      or_split (any is_none ns) (any_left (sorted_numbers (repeated ns ns))) h in
    let given = none_missing ns missing in
    let once = sorted_numbers-empty (repeated ns ns) left in
    inr (given, repeated-distinct ns ns (λ m. omega arith) given once)

issue-TellApart :
    (item : ℤ × List Row) (issues : List SplitSeasonStructureIssue)
    → issue_of item issues ≡ []
    → (TellApart item.1) × (issues ≡ [])
issue-TellApart (s, rows) issues h =
    let ns = part_numbers rows in
    elim (Bool-cases (ltb (length rows) 2)) [
      | inl few ↦ (inl (ground (arith, few)), ground (arith, few, h))
      | inr many ↦
          elim (Bool-cases (any is_none ns || any_left (sorted_numbers (repeated ns ns)))) [
            | inl bad ↦ ground (arith, many, bad, h)
            | inr clear ↦ (clear-TellApart rows clear, ground (arith, many, clear, h))
          ]
    ]

issues-TellApart :
    (items : List (ℤ × List Row)) → issues_of items ≡ [] → All (Holds TellApart) items
issues-TellApart [] h = tt
issues-TellApart (item ∷ items) h =
    let (first, rest) = issue-TellApart item (issues_of items) h in
    (first, issues-TellApart items rest)

-- When split_season_structure_issues reports nothing, then of each season at most one title is a
-- sibling, or every sibling has a part number and no two have the same.
pub no_issues-TellApart :
    (o : Override) (titles : List EffectiveTitle)
    → split_season_structure_issues o titles ≡ []
    → (s : ℤ) → TellApart (members s o titles)
unfolding split_season_structure_issues
no_issues-TellApart o titles h s = subst TellApart (by_season-members s o titles) (
    rows_at-Holds TellApart s (by_season o titles []) (inl (omega arith))
      (issues-TellApart (sorted_items (by_season o titles [])) h))
