-- ===== src/Hierarchy/Examples.antt =====
-- Tests: a manual decision on a title, and a season in two parts.
use anime_db.Base.{◌≡◌, refl, none, some, false, List, [], ◌∷◌}
use anime_db.Execution.Manifest.{ℤ}
use anime_db.Hierarchy.Authority.{CatalogTitle, Decision, activate_manual_hierarchy_snapshot}
use anime_db.Hierarchy.Authority.Decisions.{Activated, activate-Activated}
use anime_db.Hierarchy.Seasons.{EffectiveTitle, split_season_structure_issues}
use anime_db.Hierarchy.Seasons.Members.{members}
use anime_db.Hierarchy.Seasons.Siblings.{TellApart, no_issues-TellApart}

abbrev title : CatalogTitle
title = record {
  season_number = some (ℤ.pos 1);
  season_label = none;
  part_number = none;
  part_type = "season";
  sort_order = ℤ.pos 0;
  season_number_manual = none;
  season_label_manual = none;
  part_number_manual = none;
  part_type_manual = none;
  sort_order_manual = none;
  hierarchy_manual_override = false;
  hierarchy_verified_at = none;
}

abbrev decision : Decision
decision = record {
  part_type = "season";
  season_number = some (ℤ.pos 2);
  part_number = some (ℤ.pos 1);
  season_label = some "Final";
  sort_order = none;
  verified_at = "2026-01-01";
}

activate-Activated_example :
    Activated decision title (activate_manual_hierarchy_snapshot title decision)
activate-Activated_example = activate-Activated title decision

abbrev parts : List EffectiveTitle
parts =
    record {
      object = 1;
      effective = record {
        part_type = some "season";
        season_number = some (ℤ.pos 1);
        part_number = some (ℤ.pos 1);
      };
    }
    ∷ record {
      object = 2;
      effective = record {
        part_type = some "season";
        season_number = some (ℤ.pos 1);
        part_number = some (ℤ.pos 2);
      };
    }
    ∷ []

told : split_season_structure_issues none parts ≡ []
unfolding split_season_structure_issues
told = refl

no_issues-TellApart_example : TellApart (members (ℤ.pos 1) none parts)
no_issues-TellApart_example = no_issues-TellApart none parts told (ℤ.pos 1)
