-- ===== src/Naming/Ambiguous.antt =====
-- The name of supplementary content is read back as what it was made from, perhaps beside another
-- reading.
use anime_db.Base.{
  ℕ, Bool, true, ◌||◌, not, ◌≡◌, refl, sym, ap, ◌⊎◌, inl, inr, Option, none, some, List, [], ◌∷◌,
  ◌++◌, arith, and_split, is_some, if_ind,
}
use mathlib.Core.List.{append_assoc, append-nil}
use mathlib.Core.Path.{subst}
use anime_db.Naming.Types.{SupplementaryType, ova, special, preview, op, ed, ncop, nced, canonical}
use anime_db.Naming.Text.{
  Text, separator, rpartition, rpartition-separator, rpartition-last, rpartition-none, no_separator,
  strip_prefix, Spaceless,
}
use anime_db.Naming.Numbers.{number, two_digits, two_digits-Digits}
use anime_db.Naming.Formatters.{
  Supplementary, label, label_suffix, marked, structure_text, structured, supplementary_suffix,
  positive_int, optional_int, Prefix, normalize_extension, with_prefix, format_supplementary,
}
use anime_db.Naming.Extensions.{if_some, filename-stem}
use anime_db.Naming.Canonical.{
  supplementary, Interpretation, structure, scope, match_episode, match_supplementary, labels,
  label_in, result, scoped, root_alternative, scoped_alternative, parse_parts, parse_canonical_stem,
  text_leb, parse_canonical_filename,
}
use anime_db.Naming.Suffixes.{
  optional_number-marked, media_part-marked, mp_mark, no_digit, structure-text, Spaceless-append,
  Digits-Spaceless, marked-Spaceless,
}

abbrev tail_of : Option ℕ → Option ℕ → Text
tail_of ordinal mp = marked (b' ' ∷ []) ordinal ++ marked mp_mark mp

-- The content with a type that names are read for
abbrev of_kind : SupplementaryType → Supplementary → Supplementary
of_kind kind e = record e { content_type = canonical kind }

-- No label and no part of a suffix makes a separator.
rpartition-tail : (ordinal mp : Option ℕ) → rpartition (tail_of ordinal mp) ≡ none
unfolding rpartition
rpartition-tail none mp = rpartition-none (marked mp_mark mp) (marked-Spaceless mp_mark mp refl)
rpartition-tail (some n) mp =
    let spaceless : Spaceless (two_digits n ++ marked mp_mark mp) =
      Spaceless-append (two_digits n) _ (Digits-Spaceless _ (two_digits-Digits n))
        (marked-Spaceless mp_mark mp refl) in
    rw
      (
        rpartition-none (two_digits n ++ marked mp_mark mp) spaceless,
        no_separator b' ' (two_digits n ++ marked mp_mark mp) spaceless,
      )
      refl

rpartition-label :
    (kind : SupplementaryType) (t : Text)
    → rpartition t ≡ none
    → rpartition (separator ++ (label kind ++ t)) ≡ some ([], label kind ++ t)
unfolding rpartition
rpartition-label ova t h = rw h refl
rpartition-label special t h = rw h refl
rpartition-label preview t h = rw h refl
rpartition-label op t h = rw h refl
rpartition-label ed t h = rw h refl
rpartition-label ncop t h = rw h refl
rpartition-label nced t h = rw h refl

-- The last separator of a name stands in front of its label.
rpartition-label_suffix :
    (p : Text) (kind : SupplementaryType) (e : Supplementary)
    → rpartition (p ++ (separator ++ label_suffix (of_kind kind e)))
      ≡ some (p, label_suffix (of_kind kind e))
rpartition-label_suffix p kind e = rpartition-last p (label_suffix (of_kind kind e)) (
    rpartition-label kind (tail_of e.ordinal e.media_part) (rpartition-tail e.ordinal e.media_part))

no_space : (mp : Option ℕ) → strip_prefix (b' ' ∷ []) (marked mp_mark mp) ≡ none
no_space none = refl
no_space (some n) = refl

match_episode-label : (kind : SupplementaryType) (t : Text) → match_episode (label kind ++ t) ≡ none
unfolding match_episode structure number
match_episode-label ova t = refl
match_episode-label special t = refl
match_episode-label preview t = refl
match_episode-label op t = refl
match_episode-label ed t = refl
match_episode-label ncop t = refl
match_episode-label nced t = refl

label_in-label :
    (kind : SupplementaryType) (t : Text) → label_in labels (label kind ++ t) ≡ some (kind, t)
label_in-label ova t = refl
label_in-label special t = refl
label_in-label preview t = refl
label_in-label op t = refl
label_in-label ed t = refl
label_in-label ncop t = refl
label_in-label nced t = refl

match_supplementary-label_suffix :
    (kind : SupplementaryType) (e : Supplementary)
    → optional_int e.ordinal ≡ true
    → optional_int e.media_part ≡ true
    → match_supplementary (label_suffix (of_kind kind e)) ≡ some (kind, (e.ordinal, e.media_part))
unfolding match_supplementary
match_supplementary-label_suffix kind e ok_ordinal ok_media =
    rw
      (
        label_in-label kind (tail_of e.ordinal e.media_part),
        optional_number-marked (b' ' ∷ []) e.ordinal (marked mp_mark e.media_part) ok_ordinal
            (no_space e.media_part) (no_digit e.media_part),
        media_part-marked e.media_part ok_media,
      )
      refl

-- `x` is one of the readings.
abbrev pub Among : Interpretation → List Interpretation → Type 0
Among x [] = ⊥
Among x (y ∷ ys) = (x ≡ y) ⊎ Among x ys

swapped :
    (x y z : Interpretation) (rest : List Interpretation)
    → Among x (y ∷ z ∷ rest)
    → Among x (z ∷ y ∷ rest)
swapped x y z rest (inl is) = inr (inl is)
swapped x y z rest (inr (inl is)) = inl is
swapped x y z rest (inr (inr later)) = inr (inr later)

Among-result : (x : Interpretation) (xs : List Interpretation) → Among x xs → Among x (result xs)
Among-result x [] h = elim h [ ]
Among-result x (y ∷ []) h = h
Among-result x (y ∷ z ∷ rest) h =
    if_ind (Among x) (text_leb y.prefix z.prefix) (λ _. h) (λ _. swapped x y z rest h)

Among-append : (x : Interpretation) (xs ys : List Interpretation) → Among x ys → Among x (xs ++ ys)
Among-append x [] ys h = h
Among-append x (y ∷ xs) ys h = inr (Among-append x xs ys h)

structure_text-Spaceless : (season : ℕ) (part : Option ℕ) → Spaceless (structure_text season part)
structure_text-Spaceless season part =
    Spaceless-append (two_digits season) _ (Digits-Spaceless _ (two_digits-Digits season))
      (marked-Spaceless (b'P' ∷ []) part refl)

scope-structure_text :
    (season : ℕ) (part : Option ℕ)
    → positive_int season ≡ true
    → optional_int part ≡ true
    → scope (structure_text season part) ≡ some (season, part)
unfolding scope
scope-structure_text season part ok_season ok_part =
    let read : structure (structure_text season part) ≡ some ((season, part), []) =
      subst (λ t. structure t ≡ some ((season, part), [])) (append-nil (structure_text season part))
        (structure-text season part [] ok_season ok_part refl refl) in
    rw read refl

module _ (clean : Text → Bool) (prefix : Text) (is_clean : clean prefix ≡ true)
    (kind : SupplementaryType) (e : Supplementary) (ok_ordinal : optional_int e.ordinal ≡ true)
    (ok_media : optional_int e.media_part ≡ true) where
  abbrev pub reading : Option ℕ → Option ℕ → Interpretation
  reading season part = record {
    prefix = prefix;
    identity = supplementary season part kind e.ordinal;
    media_part = e.media_part;
  }

  Among-parse_parts :
      (season part : Option ℕ)
      → optional_int season ≡ true
      → optional_int part ≡ true
      → (not (is_some part) || is_some season) ≡ true
      → Among (reading season part) (
          parse_parts clean (
            rpartition
              (prefix ++ (separator ++ structured season part (label_suffix (of_kind kind e))))))
  Among-parse_parts none (some p) ok_season ok_part scoped_part = ground (arith, scoped_part)
  Among-parse_parts none none ok_season ok_part scoped_part =
      rw
        (
          rpartition-label_suffix prefix kind e,
          match_episode-label kind (tail_of e.ordinal e.media_part),
          match_supplementary-label_suffix kind e ok_ordinal ok_media,
          is_clean,
        )
        (Among-result (reading none none)
          (reading none none
            ∷ scoped_alternative clean (scoped (rpartition prefix)) kind e.ordinal e.media_part)
          (inl refl))
  Among-parse_parts (some season) part ok_season ok_part scoped_part =
      let before : Text = prefix ++ (separator ++ structure_text season part) in
      subst (λ t. Among (reading (some season) part) (parse_parts clean (rpartition t)))
        (append_assoc prefix (separator ++ structure_text season part)
          (separator ++ label_suffix (of_kind kind e)))
        (rw
          (
            rpartition-label_suffix before kind e,
            match_episode-label kind (tail_of e.ordinal e.media_part),
            match_supplementary-label_suffix kind e ok_ordinal ok_media,
            rpartition-separator prefix (structure_text season part)
                (structure_text-Spaceless season part),
            scope-structure_text season part ok_season ok_part,
            is_clean,
          )
          (Among-result (reading (some season) part)
            (root_alternative clean before kind e.ordinal e.media_part
              ++ (reading (some season) part ∷ []))
            (Among-append (reading (some season) part)
              (root_alternative clean before kind e.ordinal e.media_part)
              (reading (some season) part ∷ []) (inl refl))))

-- The name that the formatter gives to supplementary content of a type that canonical names have (OVA,
-- special, preview, OP, ED, NCOP, NCED) is read back as that content under the same prefix, perhaps
-- beside another reading, if the prefix is sanitized, and stem and name are valid components.
pub parse_canonical_filename-format_supplementary :
    (clean valid : Text → Bool) (pre : Prefix) (kind : SupplementaryType) (e : Supplementary)
    (given prefix extension name : Text)
    → e.content_type ≡ canonical kind
    → pre.preview_text ≡ some prefix
    → normalize_extension given ≡ some extension
    → format_supplementary pre e given ≡ some name
    → clean prefix ≡ true
    → valid name ≡ true
    → valid (prefix ++ (separator ++ supplementary_suffix e)) ≡ true
    → Among
        (record {
          prefix = prefix;
          identity = supplementary e.season e.part kind e.ordinal;
          media_part = e.media_part;
        })
        (parse_canonical_filename clean valid name extension)
unfolding format_supplementary parse_canonical_stem
parse_canonical_filename-format_supplementary clean valid pre kind e given prefix extension name
      is_kind has_prefix has_extension printed is_clean valid_name valid_stem =
    let is_e : of_kind kind e ≡ e = ap (λ k. record e { content_type = k }) (sym is_kind) in
    let (tests, with_text) =
      if_some _ (with_prefix pre (supplementary_suffix e) given) name printed in
    let (ok_season, tests₁) = and_split (optional_int e.season) _ tests in
    let (ok_part, tests₂) = and_split (optional_int e.part) _ tests₁ in
    let (scoped_part, tests₃) = and_split (not (is_some e.part) || is_some e.season) _ tests₂ in
    let (ok_ordinal, ok_media) = and_split (optional_int e.ordinal) _ tests₃ in
    rw
      (
        filename-stem clean valid pre given prefix (supplementary_suffix e) extension name
            has_prefix has_extension with_text valid_name,
        valid_stem,
      )
      (subst
        (λ x. Among (reading clean prefix is_clean kind e ok_ordinal ok_media e.season e.part) (
          parse_parts clean
            (rpartition (prefix ++ (separator ++ structured e.season e.part (label_suffix x))))))
        is_e
        (Among-parse_parts clean prefix is_clean kind e ok_ordinal ok_media e.season e.part
          ok_season ok_part scoped_part))
