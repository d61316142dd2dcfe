-- ===== src/Naming/Formatters.antt =====
-- app/physical_naming_formatters.py: the name of an episode and of supplementary content, without the
-- measures of its length.
use anime_db.Base.{
  ℕ, Bool, true, false, ◌&&◌, ◌||◌, not, Option, none, some, [], ◌∷◌, ◌++◌, all, ltb, leb, nat_eq,
  if◌then◌else◌, map, ◌+◌, is_some,
}
use anime_db.Naming.Text.{Text, is_digit, separator}
use anime_db.Naming.Numbers.{two_digits}
use anime_db.Naming.Types.{
  SupplementaryType, ova, special, preview, op, ed, ncop, nced, ContentType, canonical, film, bonus,
  cm, menu,
}

pub record EpisodeIdentity : Type 0 where
  pub season : ℕ
  pub number : ℕ
  pub part : Option ℕ
  pub media_part : Option ℕ

-- `SanitizedComponent`: its preview text, and whether it has an error other than its length.
pub record Prefix : Type 0 where
  pub preview_text : Option Text
  pub errors : Bool

abbrev pub positive_int : ℕ → Bool
positive_int n = ltb 0 n

-- `_optional_int`
abbrev pub optional_int : Option ℕ → Bool
optional_int none = true
optional_int (some n) = positive_int n

abbrev pub marked : Text → Option ℕ → Text
marked mark none = []
marked mark (some n) = mark ++ two_digits n

-- `_structure`, where there is a season
abbrev pub structure_text : ℕ → Option ℕ → Text
structure_text season part = b'S' ∷ (two_digits season ++ marked (b'P' ∷ []) part)

abbrev pub is_lower : ℕ → Bool
is_lower c = leb b'a' c && leb c b'z'

abbrev pub is_upper : ℕ → Bool
is_upper c = leb b'A' c && leb c b'Z'

abbrev pub lower : ℕ → ℕ
lower c = if is_upper c then c + 32 else c

abbrev pub is_alphanumeric : ℕ → Bool
is_alphanumeric c = is_digit c || (is_lower c || is_upper c)

abbrev pub without_dot : Text → Text
without_dot [] = []
without_dot (c ∷ t) = if nat_eq c b'.' then t else c ∷ t

abbrev pub nonempty : Text → Bool
nonempty [] = false
nonempty (c ∷ t) = true

-- `normalize_extension`
unfoldable pub normalize_extension : Text → Option Text
normalize_extension e =
    let name = without_dot e in
    if nonempty name && all is_alphanumeric name then some (b'.' ∷ map lower name) else none

-- `_with_prefix`
abbrev pub assembled : Text → Text → Option Text → Option Text
assembled prefix suffix none = none
assembled prefix suffix (some extension) = some (prefix ++ (separator ++ (suffix ++ extension)))

abbrev pub with_text : Bool → Option Text → Text → Option Text → Option Text
with_text errors none suffix extension = none
with_text errors (some prefix) suffix extension =
    if errors || not (nonempty prefix) then none else assembled prefix suffix extension

unfoldable pub with_prefix : Prefix → Text → Text → Option Text
unfolding normalize_extension
with_prefix prefix suffix extension =
    with_text prefix.errors prefix.preview_text suffix (normalize_extension extension)

abbrev pub episode_suffix : EpisodeIdentity → Text
episode_suffix e =
    structure_text e.season e.part
    ++ (b'E' ∷ (two_digits e.number ++ marked (b'-' ∷ b'M' ∷ b'P' ∷ []) e.media_part))

-- `format_episode_component`: the text of the name, before it is measured
unfoldable pub format_episode : Prefix → EpisodeIdentity → Text → Option Text
unfolding with_prefix two_digits
format_episode prefix e extension =
    if positive_int e.season
      && (positive_int e.number && (optional_int e.part && optional_int e.media_part))
    then with_prefix prefix (episode_suffix e) extension
    else none

-- `_SUPPLEMENTARY_LABELS`, first for the types that canonical names are read for
abbrev pub label : SupplementaryType → Text
label ova = b'O' ∷ b'V' ∷ b'A' ∷ []
label special = b'S' ∷ b'p' ∷ b'e' ∷ b'c' ∷ b'i' ∷ b'a' ∷ b'l' ∷ []
label preview = b'P' ∷ b'r' ∷ b'e' ∷ b'v' ∷ b'i' ∷ b'e' ∷ b'w' ∷ []
label op = b'O' ∷ b'P' ∷ []
label ed = b'E' ∷ b'D' ∷ []
label ncop = b'N' ∷ b'C' ∷ b'O' ∷ b'P' ∷ []
label nced = b'N' ∷ b'C' ∷ b'E' ∷ b'D' ∷ []

abbrev pub content_label : ContentType → Text
content_label (canonical kind) = label kind
content_label film = b'F' ∷ b'i' ∷ b'l' ∷ b'm' ∷ []
content_label bonus = b'B' ∷ b'o' ∷ b'n' ∷ b'u' ∷ b's' ∷ []
content_label cm = b'C' ∷ b'M' ∷ []
content_label menu = b'M' ∷ b'e' ∷ b'n' ∷ b'u' ∷ []

-- `SupplementaryIdentity` of a type other than the recap, which has no recap position
pub record Supplementary : Type 0 where
  pub content_type : ContentType
  pub season : Option ℕ
  pub part : Option ℕ
  pub ordinal : Option ℕ
  pub media_part : Option ℕ

abbrev pub label_suffix : Supplementary → Text
label_suffix e =
    content_label e.content_type
    ++ (marked (b' ' ∷ []) e.ordinal ++ marked (b'-' ∷ b'M' ∷ b'P' ∷ []) e.media_part)

abbrev pub structured : Option ℕ → Option ℕ → Text → Text
structured none part suffix = suffix
structured (some season) part suffix = structure_text season part ++ (separator ++ suffix)

abbrev pub supplementary_suffix : Supplementary → Text
supplementary_suffix e = structured e.season e.part (label_suffix e)

-- `format_supplementary_component`, for a type that is not a recap: the text of the name, before it is
-- measured
unfoldable pub format_supplementary : Prefix → Supplementary → Text → Option Text
unfolding with_prefix two_digits
format_supplementary prefix e extension =
    if optional_int e.season
      && (optional_int e.part
          && ((not (is_some e.part) || is_some e.season)
              && (optional_int e.ordinal && optional_int e.media_part)))
    then with_prefix prefix (supplementary_suffix e) extension
    else none
