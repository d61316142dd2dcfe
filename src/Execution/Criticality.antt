-- ===== src/Execution/Criticality.antt =====
-- `_base_criticality` and `_criticality` of app/target_execution_manifest.py: how much the loss of an
-- asset would matter, and what a person may decide about it.
pub mod Primary
mod Examples
use anime_db.Base.{
  ℕ, String, Bool, true, false, not, ◌&&◌, ◌||◌, Option, none, some, List, [], ◌∷◌, elem, all, any,
  Result, ok, err, ◌>>=◌, if◌then◌else◌, ◌==◌, nat_eq, String_eq,
}
use anime_db.Execution.Paths.{concat, stripped_nonempty}
use anime_db.Execution.Manifest.{ObjectId}
use anime_db.Execution.Manifest.Keys.{id_eq}

pub data Severity : Type 0 where
  primary low review : Severity

-- A severity and its reason.
abbrev pub Judgement : Type 0
Judgement = Severity × String

-- A video of the planner's context, its content type in lower case.
pub record PlannedVideo : Type 0 where
  pub id : ℕ
  pub content_type : String
  pub title_id : Option ℕ
  pub source_evidence_filename : String

-- A record of the plan; `compatibility` is (video id, status).
pub record PlanRecord : Type 0 where
  pub object_kind : String
  pub object_id : ObjectId
  pub compatibility : List (ℕ × String)

-- A person's decision about one object.
pub record Decision : Type 0 where
  pub object_kind : String
  pub object_id : ObjectId
  pub severity : Severity
  pub reason : String
  pub actor : String

-- What the planner's context says of a title, and the search for a PV number in a file name.
pub record Context : Type 0 where
  pub videos : List PlannedVideo
  pub story_preview : ℕ → Bool
  pub own_metadata : ℕ → Bool
  pub pv_evidence : String → Bool

abbrev pub of_title : (ℕ → Bool) → Option ℕ → Bool
of_title f none = false
of_title f (some title) = f title

-- `{video.id: video for video in context.videos}.get(id)`
abbrev pub video_at : ℕ → List PlannedVideo → Option PlannedVideo
video_at id [] = none
video_at id (v ∷ rest) = elim (video_at id rest) [
  | some later ↦ some later
  | none ↦ if nat_eq v.id id then some v else none
]

abbrev story_types : List String
story_types = "episode" ∷ "film" ∷ "ova" ∷ "special" ∷ "recap" ∷ []

abbrev extra_types : List String
extra_types = "op" ∷ "ed" ∷ "ncop" ∷ "nced" ∷ "cm" ∷ "menu" ∷ "pv" ∷ []

-- The branch of a video, by its content type.
abbrev pub judge_video : Context → PlannedVideo → Judgement
judge_video context v =
    if elem v.content_type story_types
    then (primary, concat "effective_content_type:" v.content_type)
    else if elem v.content_type extra_types
    then (low, concat "effective_content_type:" v.content_type)
    else if v.content_type == "preview"
    then (if of_title context.story_preview v.title_id
        then (primary, "authoritative_story_preview")
        else if context.pv_evidence v.source_evidence_filename
        then (low, "parser_pv_evidence")
        else (review, "preview_vs_pv_unresolved"))
    else if v.content_type == "bonus"
    then (if of_title context.own_metadata v.title_id
        then (primary, "confirmed_own_title_metadata")
        else (review, "bonus_content_authority_unresolved"))
    else (review, "content_criticality_unresolved")

abbrev pub judge_found : Context → Option PlannedVideo → Judgement
judge_found context none = (review, "video_authority_unavailable")
judge_found context (some v) = judge_video context v

abbrev video_id : ObjectId → Option ℕ
video_id (ObjectId.num id) = some id
video_id (ObjectId.name text) = none

abbrev pub found_video : Context → Option ℕ → Option PlannedVideo
found_video context none = none
found_video context (some id) = video_at id context.videos

-- `decisions.get((kind, id))`
abbrev pub decision_for : String → ObjectId → List Decision → Option Decision
decision_for kind id [] = none
decision_for kind id (d ∷ rest) =
    if d.object_kind == kind && id_eq d.object_id id then some d else decision_for kind id rest

abbrev pub is_low : Severity → Bool
is_low low = true
is_low _ = false

abbrev pub is_primary : Severity → Bool
is_primary primary = true
is_primary _ = false

abbrev pub is_review : Severity → Bool
is_review review = true
is_review _ = false

abbrev pub decide : Judgement → Option Decision → Result String Judgement
decide base none = ok base
decide base (some d) =
    if is_review d.severity || (not (stripped_nonempty d.reason) || not (stripped_nonempty d.actor))
    then err "criticality decision requires exact severity, reason and actor"
    else if is_primary base.0 && is_low d.severity
    then err "human criticality cannot downgrade mandatory PRIMARY asset"
    else ok (d.severity, d.reason)

-- `_criticality` of a video
unfoldable pub video_criticality : Context → List Decision → ℕ → Result String Judgement
unfolding stripped_nonempty concat
video_criticality context decisions id =
    decide (judge_found context (video_at id context.videos))
      (decision_for "video" (ObjectId.num id) decisions)

-- The video counts as compatible with the subtitle.
abbrev pub counts : Context → ℕ × String → Bool
counts context (id, status) =
    elem status ("automatic_match" ∷ "confirmed_compatible" ∷ [])
    && elim (video_at id context.videos) [ none ↦ false | some v ↦ true ]

-- The severities of the compatible videos. The cache of the code holds the same answers.
unfoldable pub severities :
    Context → List Decision → List (ℕ × String) → Result String (List Severity)
unfolding video_criticality
severities context decisions [] = ok []
severities context decisions ((id, status) ∷ rest) =
    let later = severities context decisions rest in
    if counts context (id, status)
    then (do
      judged ← video_criticality context decisions id
      others ← later
      ok (judged.0 ∷ others))
    else later

abbrev pub judge_subtitle : List Severity → Judgement
judge_subtitle found =
    if any is_primary found then (primary, "compatible_primary_video") else elim found [
      | [] ↦ (primary, "ownerless_subtitle_preservation")
      | s ∷ rest ↦
          if all is_low (s ∷ rest)
          then (low, "compatible_low_video_only")
          else (primary, "ownerless_subtitle_preservation")
    ]

abbrev unmatched_kinds : List String
unmatched_kinds = "confirmed_no_match" ∷ "unresolved_subtitle" ∷ []

abbrev unclassified_kinds : List String
unclassified_kinds =
    "auxiliary" ∷ "subtitle_archive" ∷ "unknown" ∷ "duplicate_side_asset"
    ∷ "duplicate_quarantine_candidate" ∷ []

abbrev pub judge_other : String → Judgement
judge_other kind =
    if elem kind unmatched_kinds
    then (primary, "unmatched_subtitle_preservation")
    else if elem kind unclassified_kinds
    then (primary, "unclassified_asset_preservation")
    else (primary, "physical_asset_preservation")

-- `_base_criticality`
unfoldable pub base_criticality : Context → List Decision → PlanRecord → Result String Judgement
unfolding severities
base_criticality context decisions r =
    if r.object_kind == "video"
    then ok (judge_found context (found_video context (video_id r.object_id)))
    else if r.object_kind == "subtitle"
    then (do found ← severities context decisions r.compatibility; ok (judge_subtitle found))
    else ok (judge_other r.object_kind)

-- `_criticality`
unfoldable pub criticality : Context → List Decision → PlanRecord → Result String Judgement
unfolding base_criticality
criticality context decisions r = do
  base ← base_criticality context decisions r
  decide base (decision_for r.object_kind r.object_id decisions)

-- `criticality_for_records`
unfoldable pub criticality_for_records :
    Context → List Decision → List PlanRecord → Result String (List (PlanRecord × Judgement))
unfolding criticality
criticality_for_records context decisions [] = ok []
criticality_for_records context decisions (r ∷ rest) = do
  judged ← criticality context decisions r
  others ← criticality_for_records context decisions rest
  ok ((r, judged) ∷ others)
