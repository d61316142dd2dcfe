-- ===== src/Hierarchy/Authority/Decisions.antt =====
-- Activating and clearing a manual hierarchy decision.
use anime_db.Base.{String, ◌≡◌, refl, Option, none, some, Result, ok, err}
use anime_db.Hierarchy.Authority.{
  CatalogTitle, Decision, structural_hierarchy_issue, manual_hierarchy_authority_state,
  effective_season_number, effective_season_label, effective_part_number, effective_part_type,
  effective_sort_order, order_of, persist, complete, activate_manual_hierarchy_snapshot,
  clear_manual_hierarchy_snapshot,
}

-- The decision is in force, and what was found automatically is kept.
pub record InForce (d : Decision) (before after : CatalogTitle) : Type 0 where
  pub state : manual_hierarchy_authority_state after ≡ complete
  pub season : effective_season_number after ≡ d.season_number
  pub label : effective_season_label after ≡ d.season_label
  pub part : effective_part_number after ≡ d.part_number
  pub part_type : effective_part_type after ≡ some d.part_type
  pub order : effective_sort_order after ≡ order_of d.sort_order before.sort_order
  pub undone : clear_manual_hierarchy_snapshot after ≡ clear_manual_hierarchy_snapshot before

-- Either the decision is in force, or it was refused for its issue and nothing changed.
abbrev pub Activated : Decision → CatalogTitle → Result String (Unit {0}) × CatalogTitle → Type 0
Activated d before (ok _, after) = InForce d before after
Activated d before (err issue, after) =
    (structural_hierarchy_issue (some d.part_type) d.season_number d.part_number ≡ some issue)
    × (after ≡ before)

persist-Activated :
    (issue : Option String) (d : Decision) (t : CatalogTitle)
    → structural_hierarchy_issue (some d.part_type) d.season_number d.part_number ≡ issue
    → Activated d t (persist issue d t)
unfolding clear_manual_hierarchy_snapshot
persist-Activated (some issue) d t is = (is, refl)
persist-Activated none d t is = record {
  state = rw is refl;
  season = rw is refl;
  label = rw is refl;
  part = rw is refl;
  part_type = rw is refl;
  order = rw is refl;
  undone = refl;
}

-- Activating a manual decision either refuses it for its structural issue and leaves the title as it
-- was, or the title then has complete authority and its effective season, label, part, part type and
-- order are those decided; clearing it again leaves what clearing would have left before.
pub activate-Activated :
    (t : CatalogTitle) (d : Decision) → Activated d t (activate_manual_hierarchy_snapshot t d)
unfolding activate_manual_hierarchy_snapshot
activate-Activated t d =
    persist-Activated (structural_hierarchy_issue (some d.part_type) d.season_number d.part_number)
      d t refl
