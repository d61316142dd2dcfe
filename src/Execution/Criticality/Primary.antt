-- ===== src/Execution/Criticality/Primary.antt =====
-- What must be kept stays PRIMARY, whatever a person decides.
use anime_db.Base.{
  ℕ, String, ◌≡◌, refl, sym, ap, ◌∙◌, inl, inr, true, false, not, ◌&&◌, ◌||◌, Option, none, some,
  List, [], ◌∷◌, Any, any, Result, ok, >>=-ok, ◌==◌, String_eq, if_ind, arith, or_split, eq_iff,
  ok-injective,
}
use mathlib.Core.Path.{subst}
use anime_db.Execution.Paths.{stripped_nonempty}
use anime_db.Execution.Criticality.{
  Severity, primary, low, review, Judgement, PlanRecord, Decision, Context, decision_for, is_low,
  is_primary, is_review, decide, video_criticality, counts, severities, judge_subtitle,
  base_criticality, criticality,
}

-- A decision keeps what is PRIMARY.
decide-primary :
    (base : Judgement) (d : Option Decision) (result : Judgement)
    → base.0 ≡ primary
    → decide base d ≡ ok result
    → result.0 ≡ primary
decide-primary base none result at h = ap (λ z. z.0) (sym (ok-injective base result h)) ∙ at
decide-primary base (some d) result at h =
    if_ind (λ (z : Result String Judgement). z ≡ ok result → result.0 ≡ primary)
      (is_review d.severity
        || (not (stripped_nonempty d.reason) || not (stripped_nonempty d.actor)))
      (λ _ h'. cc)
      (λ fine h'.
        if_ind (λ (z : Result String Judgement). z ≡ ok result → result.0 ≡ primary)
          (is_primary base.0 && is_low d.severity) (λ _ h''. cc)
          (λ kept h''.
            ap (λ z. z.0) (sym (ok-injective (d.severity, d.reason) result h''))
            ∙ kept_severity d.severity (or_split (is_review d.severity) _ fine).0
                (subst (λ z. (is_primary z && is_low d.severity) ≡ false) at kept))
          h')
      h
  where
    kept_severity :
        (s : Severity)
        → is_review s ≡ false
        → (is_primary primary && is_low s) ≡ false
        → s ≡ primary
    kept_severity primary a b = refl
    kept_severity low a b = cc
    kept_severity review a b = cc

module _ (context : Context) (decisions : List Decision) where
  -- If the evidence makes an asset PRIMARY, the judgement is PRIMARY or refused: no decision of a
  -- person can lower it.
  pub criticality-primary :
      (r : PlanRecord) (base result : Judgement)
      → base_criticality context decisions r ≡ ok base
      → base.0 ≡ primary
      → criticality context decisions r ≡ ok result
      → result.0 ≡ primary
  unfolding criticality
  criticality-primary r base result based at h =
      let (found, is, decided) = >>=-ok (base_criticality context decisions r) _ h in
      let same : base ≡ found = ok-injective base found (sym based ∙ is) in
      decide-primary found (decision_for r.object_kind r.object_id decisions) result
        (ap (λ z. z.0) (sym same) ∙ at) decided

  -- One of the compatible videos is judged PRIMARY.
  abbrev pub HasPrimary : List (ℕ × String) → Type 0
  HasPrimary = Any (λ c.
      (counts context c ≡ true)
      × ((reason : String) × (video_criticality context decisions c.0 ≡ ok (primary, reason))))

  severities-primary :
      (compatibility : List (ℕ × String)) (found : List Severity)
      → HasPrimary compatibility
      → severities context decisions compatibility ≡ ok found
      → any is_primary found ≡ true
  unfolding severities
  severities-primary [] found there h = elim there [ ]
  severities-primary ((id, status) ∷ rest) found there h =
      if_ind (λ (z : Result String (List Severity)). z ≡ ok found → any is_primary found ≡ true)
        (counts context (id, status))
        (λ counted h'.
          let (judged, at, more) = >>=-ok (video_criticality context decisions id) _ h' in
          let (others, later, last) = >>=-ok (severities context decisions rest) _ more in
          let is : judged.0 ∷ others ≡ found = ok-injective _ found last in
          subst (λ z. any is_primary z ≡ true) is
            (here judged others at there (λ further. severities-primary rest others further later)))
        (λ skipped h'. skip skipped there (λ further. severities-primary rest found further h')) h
    where
      here :
          (judged : Judgement) (others : List Severity)
          → video_criticality context decisions id ≡ ok judged
          → HasPrimary ((id, status) ∷ rest)
          → (HasPrimary rest → any is_primary others ≡ true)
          → any is_primary (judged.0 ∷ others) ≡ true
      here judged others at (inl (_, (reason, known))) further =
          let is : judged ≡ (primary, reason) =
            ok-injective judged (primary, reason) (sym at ∙ known) in
          subst (λ z. any is_primary (z.0 ∷ others) ≡ true) (sym is) refl
      here judged others at (inr there) further = ground (arith, further there)

      skip :
          counts context (id, status) ≡ false
          → HasPrimary ((id, status) ∷ rest)
          → (HasPrimary rest → any is_primary found ≡ true)
          → any is_primary found ≡ true
      skip skipped (inl (counted, _)) further = cc
      skip skipped (inr there) further = further there

  base-subtitle :
      (r : PlanRecord) (base : Judgement)
      → r.object_kind ≡ "subtitle"
      → HasPrimary r.compatibility
      → base_criticality context decisions r ≡ ok base
      → base.0 ≡ primary
  unfolding base_criticality
  base-subtitle r base kind there h =
      if_ind (λ (z : Result String Judgement). z ≡ ok base → base.0 ≡ primary)
        (r.object_kind == "video")
        (λ video _. let is : r.object_kind ≡ "video" = (eq_iff r.object_kind "video").0 video in cc)
        (λ _ h'.
          if_ind (λ (z : Result String Judgement). z ≡ ok base → base.0 ≡ primary)
            (r.object_kind == "subtitle")
            (λ _ h''.
              let (found, at, last) = >>=-ok (severities context decisions r.compatibility) _ h'' in
              let judged : (judge_subtitle found).0 ≡ primary =
                rw (severities-primary r.compatibility found there at) refl in
              ap (λ z. z.0) (sym (ok-injective (judge_subtitle found) base last)) ∙ judged)
            (λ other _.
              let is : (r.object_kind == "subtitle") ≡ true =
                (eq_iff r.object_kind "subtitle").1 kind in
              cc)
            h')
        h

  -- A subtitle with one compatible video that is judged PRIMARY is judged PRIMARY itself, or the
  -- judgement is refused: neither other videos nor a decision of a person can lower it.
  pub criticality-subtitle :
      (r : PlanRecord) (result : Judgement)
      → r.object_kind ≡ "subtitle"
      → HasPrimary r.compatibility
      → criticality context decisions r ≡ ok result
      → result.0 ≡ primary
  unfolding criticality
  criticality-subtitle r result kind there h =
      let (base, is, decided) = >>=-ok (base_criticality context decisions r) _ h in
      decide-primary base (decision_for r.object_kind r.object_id decisions) result
        (base-subtitle r base kind there is) decided
