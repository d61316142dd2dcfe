-- ===== src/Naming/Canonical.antt =====
-- app/canonical_filename.py: the identities that a canonical stem can carry. The checks of a component
-- by app/physical_naming_components.py are the parameters of this module's functions.
use anime_db.Base.{
  ℕ, Bool, true, false, ◌&&◌, ◌||◌, not, Option, none, some, List, [], ◌∷◌, ◌++◌, any, nat_eq, leb,
  if◌then◌else◌, all, list_eq, length, ◌-◌, take, drop,
}
use anime_db.Naming.Text.{Text, strip_prefix, rpartition, is_digit, span_digits}
use anime_db.Naming.Numbers.{number}
use anime_db.Naming.Types.{SupplementaryType, ova, special, preview, op, ed, ncop, nced}

-- A recap position as the digits before and after the point
pub record Position : Type 0 where
  pub whole : Text
  pub fraction : Text

pub data LogicalIdentity : Type 0 where
  episode : ℕ → Option ℕ → ℕ → LogicalIdentity
  supplementary : Option ℕ → Option ℕ → SupplementaryType → Option ℕ → LogicalIdentity
  recap : ℕ → Option ℕ → Position → LogicalIdentity

-- `extension`, which the source adds to each reading, is the argument of `parse_canonical_filename`.
pub record Interpretation : Type 0 where
  pub prefix : Text
  pub identity : LogicalIdentity
  pub media_part : Option ℕ

infixl 5 ◌>>=◌
abbrev pub ◌>>=◌ : {A B : Type 0} → Option A → (A → Option B) → Option B
none >>= f = none
some a >>= f = f a

abbrev pub absent_or : Text → Option Text → Option (Option ℕ × Text)
absent_or t none = some (none, t)
absent_or t (some rest) = number rest >>= λ r. some (some r.0, r.1)

-- `(?:…)?` in front of a number: absent, or with its number.
abbrev pub optional_number : Text → Text → Option (Option ℕ × Text)
optional_number mark t = absent_or t (strip_prefix mark t)

abbrev pub ends : Text → Bool
ends [] = true
ends (c ∷ t) = false

abbrev pub only_if {ℓ} : {A : Type ℓ} → Bool → A → Option A
only_if b a = if b then some a else none

-- `S(?P<season>…)(?:P(?P<part>…))?`
unfoldable pub structure : Text → Option ((ℕ × Option ℕ) × Text)
unfolding number
structure t = strip_prefix (b'S' ∷ []) t >>= λ t₁.
    number t₁ >>= λ s. optional_number (b'P' ∷ []) s.1 >>= λ p. some ((s.0, p.0), p.1)

-- `(?:-MP(?P<mp>…))?` at the end
unfoldable pub media_part : Text → Option (Option ℕ)
unfolding number
media_part t = optional_number (b'-' ∷ b'M' ∷ b'P' ∷ []) t >>= λ r. only_if (ends r.1) r.0

-- `_SCOPE.fullmatch`
unfoldable pub scope : Text → Option (ℕ × Option ℕ)
unfolding structure
scope t = structure t >>= λ r. only_if (ends r.1) r.0

-- `_EPISODE.fullmatch`
unfoldable pub match_episode : Text → Option (LogicalIdentity × Option ℕ)
unfolding structure media_part number
match_episode t = structure t >>= λ s. strip_prefix (b'E' ∷ []) s.1 >>= λ t₁.
    number t₁ >>= λ e. media_part e.1 >>= λ mp. some (episode s.0.0 s.0.1 e.0, mp)

abbrev pub labels : List (Text × SupplementaryType)
labels =
    (b'O' ∷ b'V' ∷ b'A' ∷ [], ova)
    ∷ (b'S' ∷ b'p' ∷ b'e' ∷ b'c' ∷ b'i' ∷ b'a' ∷ b'l' ∷ [], special)
    ∷ (b'P' ∷ b'r' ∷ b'e' ∷ b'v' ∷ b'i' ∷ b'e' ∷ b'w' ∷ [], preview)
    ∷ (b'O' ∷ b'P' ∷ [], op)
    ∷ (b'E' ∷ b'D' ∷ [], ed)
    ∷ (b'N' ∷ b'C' ∷ b'O' ∷ b'P' ∷ [], ncop)
    ∷ (b'N' ∷ b'C' ∷ b'E' ∷ b'D' ∷ [], nced)
    ∷ []

abbrev pub or_else {ℓ} : {A : Type ℓ} → Option A → Option A → Option A
or_else none later = later
or_else (some a) later = some a

-- The alternatives of a pattern, of which no label is a prefix of another.
abbrev pub label_in : List (Text × SupplementaryType) → Text → Option (SupplementaryType × Text)
label_in [] t = none
label_in ((label, kind) ∷ rest) t =
    let later = label_in rest t in
    or_else (strip_prefix label t >>= λ after. some (kind, after)) later

-- `_SUPPLEMENTARY.fullmatch`
unfoldable pub match_supplementary : Text → Option (SupplementaryType × (Option ℕ × Option ℕ))
unfolding media_part number
match_supplementary t = label_in labels t >>= λ l.
    optional_number (b' ' ∷ []) l.1 >>= λ o. media_part o.1 >>= λ mp. some (l.0, (o.0, mp))

abbrev pub is_whole : Text → Bool
is_whole [] = false
is_whole (c ∷ []) = true
is_whole (c ∷ d ∷ t) = not (nat_eq c b'0')

abbrev pub last_nonzero : Text → Bool
last_nonzero [] = false
last_nonzero (c ∷ []) = not (nat_eq c b'0')
last_nonzero (c ∷ d ∷ t) = last_nonzero (d ∷ t)

abbrev pub with_fraction : Text → Text → Option Text → Option (Position × Text)
with_fraction whole rest none = some (record { whole = whole; fraction = [] }, rest)
with_fraction whole rest (some t) =
    let (digits, rest') = span_digits t in
    only_if (last_nonzero digits) (record { whole = whole; fraction = digits }, rest')

-- `_RECAP.fullmatch`
abbrev pub position : Text → Option (Position × Text)
position t =
    let (digits, rest) = span_digits t in
    only_if (is_whole digits) tt >>= λ _. with_fraction digits rest (strip_prefix (b'.' ∷ []) rest)

unfoldable pub match_recap : Text → Option (Position × Option ℕ)
unfolding media_part
match_recap t = strip_prefix (b'R' ∷ b'e' ∷ b'c' ∷ b'a' ∷ b'p' ∷ b' ' ∷ []) t >>= λ t₁.
    position t₁ >>= λ p. media_part p.1 >>= λ mp. some (p.0, mp)

abbrev pub is_positive : Position → Bool
is_positive p = any (λ c. not (nat_eq c b'0')) (p.whole ++ p.fraction)

abbrev pub text_leb : Text → Text → Bool
text_leb [] u = true
text_leb (c ∷ t) [] = false
text_leb (c ∷ t) (d ∷ u) = let rest = text_leb t u in if nat_eq c d then rest else leb c d

-- `_result`: sorted by the prefix
abbrev pub result : List Interpretation → List Interpretation
result [] = []
result (a ∷ []) = a ∷ []
result (a ∷ b ∷ rest) = if text_leb a.prefix b.prefix then a ∷ b ∷ rest else b ∷ a ∷ rest

abbrev pub keep_if {ℓ} : {A : Type ℓ} → Bool → A → List A
keep_if b a = if b then a ∷ [] else []

-- The scope in front of a supplementary or recap suffix, with what is before it.
abbrev pub scoped : Option (Text × Text) → Option (Text × (ℕ × Option ℕ))
scoped none = none
scoped (some (before, t)) = scope t >>= λ s. some (before, s)

module _ (clean : Text → Bool) where
  abbrev pub root_alternative : Text → SupplementaryType → Option ℕ → Option ℕ → List Interpretation
  root_alternative prefix kind ordinal mp =
      keep_if (clean prefix) (record {
        prefix = prefix;
        identity = supplementary none none kind ordinal;
        media_part = mp;
      })

  abbrev pub scoped_alternative :
      Option (Text × (ℕ × Option ℕ)) → SupplementaryType → Option ℕ → Option ℕ → List Interpretation
  scoped_alternative none kind ordinal mp = []
  scoped_alternative (some (before, (season, part))) kind ordinal mp =
      keep_if (clean before) (record {
        prefix = before;
        identity = supplementary (some season) part kind ordinal;
        media_part = mp;
      })

  abbrev pub recap_alternative :
      Option (Text × (ℕ × Option ℕ)) → Option (Position × Option ℕ) → List Interpretation
  recap_alternative none r = []
  recap_alternative (some scope) none = []
  recap_alternative (some (before, (season, part))) (some (p, mp)) =
      keep_if (is_positive p && clean before)
        (record { prefix = before; identity = recap season part p; media_part = mp })

  abbrev pub other_suffix :
      Text → Text → Option (SupplementaryType × (Option ℕ × Option ℕ)) → List Interpretation
  other_suffix prefix suffix (some (kind, (ordinal, mp))) = result (
      root_alternative prefix kind ordinal mp
      ++ scoped_alternative (scoped (rpartition prefix)) kind ordinal mp)
  other_suffix prefix suffix none =
      recap_alternative (scoped (rpartition prefix)) (match_recap suffix)

  abbrev pub parse_suffix : Text → Text → Option (LogicalIdentity × Option ℕ) → List Interpretation
  parse_suffix prefix suffix (some (identity, mp)) =
      keep_if (clean prefix) (record { prefix = prefix; identity = identity; media_part = mp })
  parse_suffix prefix suffix none = other_suffix prefix suffix (match_supplementary suffix)

  abbrev pub parse_parts : Option (Text × Text) → List Interpretation
  parse_parts none = []
  parse_parts (some (prefix, suffix)) = parse_suffix prefix suffix (match_episode suffix)

  -- `parse_canonical_stem`; `valid` is `component_preview(…).valid`, and `clean` is `_valid_prefix`.
  unfoldable pub parse_canonical_stem : (Text → Bool) → Text → List Interpretation
  unfolding rpartition scope match_episode match_supplementary match_recap
  parse_canonical_stem valid stem = if valid stem then parse_parts (rpartition stem) else []

abbrev pub is_extension : Text → Bool
is_extension [] = false
is_extension (c ∷ []) = false
is_extension (c ∷ d ∷ t) =
    nat_eq c b'.' && all (λ x. is_digit x || (leb b'a' x && leb x b'z')) (d ∷ t)

abbrev pub same_text : Text → Text → Bool
same_text = list_eq nat_eq

abbrev pub without_suffix : ℕ → Text → Text → Option Text
without_suffix n suffix t = only_if (same_text (drop n t) suffix) (take n t)

-- `filename.endswith(extension)` and `filename[:-len(extension)]`
abbrev pub strip_suffix : Text → Text → Option Text
strip_suffix suffix t = without_suffix (length t - length suffix) suffix t

abbrev pub stem_interpretations : (Text → Bool) → (Text → Bool) → Option Text → List Interpretation
stem_interpretations clean valid none = []
stem_interpretations clean valid (some stem) = parse_canonical_stem clean valid stem

-- `parse_canonical_filename`; each interpretation is one of this extension.
unfoldable pub parse_canonical_filename :
    (Text → Bool) → (Text → Bool) → Text → Text → List Interpretation
unfolding parse_canonical_stem
parse_canonical_filename clean valid filename extension =
    if is_extension extension && valid filename
    then stem_interpretations clean valid (strip_suffix extension filename)
    else []
