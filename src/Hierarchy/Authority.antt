-- ===== src/Hierarchy/Authority.antt =====
-- The manual hierarchy decision on a title: app/hierarchy_authority.py, and the effective values that
-- `CatalogTitle` of app/models.py reads from it.
pub mod Decisions
use anime_db.Base.{
  ℕ, String, Bool, true, false, not, ◌&&◌, ◌||◌, Option, none, some, List, [], ◌∷◌, elem, is_some,
  Result, ok, err, if◌then◌else◌, nat_eq, ◌==◌, String_eq,
}
use anime_db.Execution.Manifest.{ℤ}

pub record CatalogTitle : Type 0 where
  pub season_number : Option ℤ
  pub season_label : Option String
  pub part_number : Option ℤ
  pub part_type : String
  pub sort_order : ℤ
  pub season_number_manual : Option ℤ
  pub season_label_manual : Option String
  pub part_number_manual : Option ℤ
  pub part_type_manual : Option String
  pub sort_order_manual : Option ℤ
  pub hierarchy_manual_override : Bool
  pub hierarchy_verified_at : Option String

-- `ManualHierarchyAuthorityState`
pub data AuthorityState : Type 0 where
  nothing incomplete complete : AuthorityState

-- `PART_TYPES`
abbrev pub part_types : List String
part_types =
    "season" ∷ "part" ∷ "film" ∷ "ova" ∷ "special" ∷ "preview" ∷ "recap" ∷ "bonus" ∷ "other"
    ∷ "cour" ∷ []

abbrev pub type_in : Option String → List String → Bool
type_in none names = false
type_in (some name) names = elem name names

-- `number is not None and number <= 0`
abbrev pub not_positive : Option ℤ → Bool
not_positive none = false
not_positive (some (ℤ.pos n)) = nat_eq n 0
not_positive (some (ℤ.negsuc n)) = true

unfoldable pub structural_hierarchy_issue : Option String → Option ℤ → Option ℤ → Option String
structural_hierarchy_issue part_type season_number part_number =
    if not (type_in part_type part_types)
    then some "Pro ruční zařazení zvolte konkrétní typ části."
    else if not_positive season_number
    then some "Číslo sezóny musí být kladné."
    else if not_positive part_number
    then some "Číslo Part musí být kladné."
    else if type_in part_type ("part" ∷ []) && not (is_some part_number)
    then some "Pro typ Part potvrďte číslo Part."
    else if not (type_in part_type ("season" ∷ "part" ∷ "cour" ∷ [])) && is_some part_number
    then some "Číslo Part lze uložit pouze pro Season nebo Part."
    else none

abbrev pub manual_hierarchy_snapshot_issue : CatalogTitle → Option String
manual_hierarchy_snapshot_issue t =
    if not t.hierarchy_manual_override
    then some "Chybí autoritativní ruční hierarchy override."
    else structural_hierarchy_issue t.part_type_manual t.season_number_manual t.part_number_manual

abbrev pub manual_hierarchy_authority_state : CatalogTitle → AuthorityState
manual_hierarchy_authority_state t =
    if not t.hierarchy_manual_override
    then (if is_some t.hierarchy_verified_at then incomplete else nothing)
    else if is_some (manual_hierarchy_snapshot_issue t)
    then incomplete
    else complete

abbrev is_complete : AuthorityState → Bool
is_complete complete = true
is_complete _ = false

abbrev is_nothing : AuthorityState → Bool
is_nothing nothing = true
is_nothing _ = false

abbrev pub manual_hierarchy_snapshot_is_complete : CatalogTitle → Bool
manual_hierarchy_snapshot_is_complete t = is_complete (manual_hierarchy_authority_state t)

abbrev pub manual_hierarchy_snapshot_requires_preservation : CatalogTitle → Bool
manual_hierarchy_snapshot_requires_preservation t =
    not (is_nothing (manual_hierarchy_authority_state t))

abbrev is_incomplete : AuthorityState → Bool
is_incomplete incomplete = true
is_incomplete _ = false

abbrev pub manual_hierarchy_snapshot_uses_legacy_projection : CatalogTitle → Bool
manual_hierarchy_snapshot_uses_legacy_projection t =
    t.hierarchy_manual_override && is_incomplete (manual_hierarchy_authority_state t)

-- The effective values, which the properties of `CatalogTitle` return.
abbrev pub effective_season_number : CatalogTitle → Option ℤ
effective_season_number t =
    if manual_hierarchy_snapshot_is_complete t then t.season_number_manual else t.season_number

abbrev pub effective_season_label : CatalogTitle → Option String
effective_season_label t =
    if manual_hierarchy_snapshot_is_complete t then t.season_label_manual else t.season_label

abbrev pub effective_part_number : CatalogTitle → Option ℤ
effective_part_number t =
    if manual_hierarchy_snapshot_is_complete t
    then t.part_number_manual
    else if elem t.part_type ("part" ∷ "cour" ∷ [])
    then t.part_number
    else none

abbrev pub effective_part_type : CatalogTitle → Option String
effective_part_type t =
    if manual_hierarchy_snapshot_is_complete t then t.part_type_manual else some t.part_type

abbrev order_of : Option ℤ → ℤ → ℤ
order_of none automatic = automatic
order_of (some manual) automatic = manual

abbrev pub effective_sort_order : CatalogTitle → ℤ
effective_sort_order t =
    if manual_hierarchy_snapshot_is_complete t
    then order_of t.sort_order_manual t.sort_order
    else t.sort_order

-- What a person decides in one go.
pub record Decision : Type 0 where
  pub part_type : String
  pub season_number : Option ℤ
  pub part_number : Option ℤ
  pub season_label : Option String
  pub sort_order : Option ℤ
  pub verified_at : String

abbrev pub persist :
    Option String → Decision → CatalogTitle → Result String (Unit {0}) × CatalogTitle
persist (some issue) d t = (err issue, t)
persist none d t = (
  ok tt,
  record t {
    part_type_manual = some d.part_type;
    season_number_manual = d.season_number;
    part_number_manual = d.part_number;
    season_label_manual = d.season_label;
    sort_order_manual = d.sort_order;
    hierarchy_manual_override = true;
    hierarchy_verified_at = some d.verified_at;
  },
)

unfoldable pub activate_manual_hierarchy_snapshot :
    CatalogTitle → Decision → Result String (Unit {0}) × CatalogTitle
activate_manual_hierarchy_snapshot t d =
    persist (structural_hierarchy_issue (some d.part_type) d.season_number d.part_number) d t

unfoldable pub clear_manual_hierarchy_snapshot : CatalogTitle → CatalogTitle
clear_manual_hierarchy_snapshot t = record t {
  season_number_manual = none;
  part_number_manual = none;
  season_label_manual = none;
  part_type_manual = none;
  sort_order_manual = none;
  hierarchy_manual_override = false;
  hierarchy_verified_at = none;
}
