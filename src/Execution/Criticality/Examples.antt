-- ===== src/Execution/Criticality/Examples.antt =====
-- Tests: a film, and a subtitle that fits it.
use anime_db.Base.{◌≡◌, refl, inl, inr, false, some, [], ◌∷◌}
use anime_db.Execution.Manifest.{ObjectId}
use anime_db.Execution.Criticality.{
  primary, Judgement, PlanRecord, Decision, Context, video_criticality, severities,
  base_criticality, criticality,
}
use anime_db.Execution.Criticality.Primary.{criticality-primary, criticality-subtitle}

abbrev context : Context
context = record {
  videos =
      record {
        id = 1;
        content_type = "film";
        title_id = some 1;
        source_evidence_filename = "film.mkv";
      }
      ∷ record {
        id = 2;
        content_type = "op";
        title_id = some 1;
        source_evidence_filename = "op.mkv";
      }
      ∷ [];
  story_preview = λ t. false;
  own_metadata = λ t. false;
  pv_evidence = λ name. false;
}

abbrev film : PlanRecord
film = record { object_kind = "video"; object_id = ObjectId.num 1; compatibility = [] }

abbrev subtitle : PlanRecord
subtitle = record {
  object_kind = "subtitle";
  object_id = ObjectId.num 7;
  compatibility = (2, "automatic_match") ∷ (1, "confirmed_compatible") ∷ [];
}

abbrev confirmed : Decision
confirmed = record {
  object_kind = "video";
  object_id = ObjectId.num 1;
  severity = primary;
  reason = "kept";
  actor = "owner";
}

abbrev kept : Judgement
kept = (primary, "kept")

abbrev by_film : Judgement
by_film = (primary, "compatible_primary_video")

criticality-primary_example : kept.0 ≡ primary
unfolding criticality base_criticality
criticality-primary_example =
    criticality-primary context (confirmed ∷ []) film (primary, "effective_content_type:film") kept
      refl refl refl

criticality-subtitle_example : by_film.0 ≡ primary
unfolding criticality base_criticality severities video_criticality
criticality-subtitle_example =
    criticality-subtitle context [] subtitle by_film refl
      (inr (inl (refl, ("effective_content_type:film", refl)))) refl
