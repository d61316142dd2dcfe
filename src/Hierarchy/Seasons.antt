-- ===== src/Hierarchy/Seasons.antt =====
-- `split_season_structure_issues` of app/hierarchy_authority.py: titles of one season that nobody can
-- tell apart.
pub mod Members
pub mod Siblings
use anime_db.Base.{
  ℕ, zero, suc, ◌+◌, String, Bool, true, false, not, ◌&&◌, ◌||◌, Option, none, some, List, [], ◌∷◌,
  ◌++◌, map, any, length, if◌then◌else◌, nat_eq, ltb, option_eq, elem, String_eq,
}
use anime_db.Execution.Manifest.{ℤ}
use anime_db.Execution.Manifest.Keys.{ℤ_eq}
use anime_db.Hierarchy.Authority.{type_in}

pub record Identity : Type 0 where
  pub part_type : Option String
  pub season_number : Option ℤ
  pub part_number : Option ℤ

-- `EffectiveHierarchyTitle`; `object` is its identity in memory.
pub record EffectiveTitle : Type 0 where
  pub object : ℕ
  pub effective : Identity

-- The title that is judged as if it had another identity, if any.
abbrev pub Override : Type 0
Override = Option (EffectiveTitle × Identity)

pub record SplitSeasonStructureIssue : Type 0 where
  pub season_number : ℤ
  pub titles : List EffectiveTitle
  pub missing_part_number : Bool
  pub duplicate_part_numbers : List ℤ

abbrev pub Row : Type 0
Row = EffectiveTitle × Option ℤ

abbrev pub identity_of : Override → EffectiveTitle → Identity
identity_of none t = t.effective
identity_of (some (o, identity)) t = if nat_eq t.object o.object then identity else t.effective

-- The season in which an identity is a sibling.
abbrev pub season_of : Identity → Option ℤ
season_of i = if type_in i.part_type ("season" ∷ []) then i.season_number else none

-- `by_season.setdefault(season_number, []).append(row)`
abbrev pub put : ℤ → Row → List (ℤ × List Row) → List (ℤ × List Row)
put s r [] = (s, r ∷ []) ∷ []
put s r ((k, rows) ∷ rest) =
    let later = put s r rest in if ℤ_eq s k then (k, rows ++ (r ∷ [])) ∷ rest else (k, rows) ∷ later

abbrev pub place : Option ℤ → Row → List (ℤ × List Row) → List (ℤ × List Row)
place none r table = table
place (some s) r table = put s r table

-- The loop over the titles.
abbrev pub by_season : Override → List EffectiveTitle → List (ℤ × List Row) → List (ℤ × List Row)
by_season o [] table = table
by_season o (t ∷ titles) table =
    let i = identity_of o t in by_season o titles (place (season_of i) (t, i.part_number) table)

abbrev pub ℤ_lt : ℤ → ℤ → Bool
ℤ_lt (ℤ.pos a) (ℤ.pos b) = ltb a b
ℤ_lt (ℤ.pos a) (ℤ.negsuc b) = false
ℤ_lt (ℤ.negsuc a) (ℤ.pos b) = true
ℤ_lt (ℤ.negsuc a) (ℤ.negsuc b) = ltb b a

-- `sorted(by_season.items())`: the keys differ.
abbrev pub insert_item : ℤ × List Row → List (ℤ × List Row) → List (ℤ × List Row)
insert_item item [] = item ∷ []
insert_item item (other ∷ rest) =
    let later = insert_item item rest in
    if ℤ_lt item.0 other.0 then item ∷ other ∷ rest else other ∷ later

abbrev pub sorted_items : List (ℤ × List Row) → List (ℤ × List Row)
sorted_items [] = []
sorted_items (item ∷ rest) = insert_item item (sorted_items rest)

abbrev pub one_if : Bool → ℕ
one_if true = 1
one_if false = 0

-- `part_numbers.count(number)`
abbrev pub count : Option ℤ → List (Option ℤ) → ℕ
count n [] = 0
count n (m ∷ ms) = one_if (option_eq ℤ_eq n m) + count n ms

abbrev pub keep_repeated : Bool → Option ℤ → List ℤ → List ℤ
keep_repeated true (some n) rest = n ∷ rest
keep_repeated _ _ rest = rest

-- The numbers of `ns` that occur more than once in `part_numbers`.
abbrev pub repeated : List (Option ℤ) → List (Option ℤ) → List ℤ
repeated part_numbers [] = []
repeated part_numbers (n ∷ ns) =
    keep_repeated (ltb 1 (count n part_numbers)) n (repeated part_numbers ns)

-- `sorted({…})`
abbrev pub insert_number : ℤ → List ℤ → List ℤ
insert_number n [] = n ∷ []
insert_number n (m ∷ rest) =
    let later = insert_number n rest in
    if ℤ_eq n m then m ∷ rest else if ℤ_lt n m then n ∷ m ∷ rest else m ∷ later

abbrev pub sorted_numbers : List ℤ → List ℤ
sorted_numbers [] = []
sorted_numbers (n ∷ ns) = insert_number n (sorted_numbers ns)

abbrev pub is_none : Option ℤ → Bool
is_none none = true
is_none (some n) = false

abbrev pub any_left : List ℤ → Bool
any_left [] = false
any_left (n ∷ ns) = true

-- The body of the loop over the seasons.
abbrev pub issue_of : ℤ × List Row → List SplitSeasonStructureIssue → List SplitSeasonStructureIssue
issue_of (s, members) issues =
    let part_numbers = map (λ r. r.1) members in
    let duplicates = sorted_numbers (repeated part_numbers part_numbers) in
    let missing = any is_none part_numbers in
    if ltb (length members) 2
    then issues
    else if missing || any_left duplicates
    then record {
      season_number = s;
      titles = map (λ r. r.0) members;
      missing_part_number = missing;
      duplicate_part_numbers = duplicates;
    }
      ∷ issues
    else issues

abbrev pub issues_of : List (ℤ × List Row) → List SplitSeasonStructureIssue
issues_of [] = []
issues_of (item ∷ items) = issue_of item (issues_of items)

unfoldable pub split_season_structure_issues :
    Override → List EffectiveTitle → List SplitSeasonStructureIssue
split_season_structure_issues o titles = issues_of (sorted_items (by_season o titles []))
