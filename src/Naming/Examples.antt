-- ===== src/Naming/Examples.antt =====
-- Two names, printed and read back: one episode, and one name with two readings.
use anime_db.Base.{Bool, true, false, not, ◌≡◌, refl, none, some, [], ◌∷◌, ◌++◌, any, nat_eq}
use anime_db.Naming.Types.{ova, canonical, film}
use anime_db.Naming.Text.{Text, separator}
use anime_db.Naming.Numbers.{two_digits}
use anime_db.Naming.Formatters.{
  Prefix, EpisodeIdentity, Supplementary, episode_suffix, supplementary_suffix, normalize_extension,
  format_episode, format_supplementary,
}
use anime_db.Naming.Canonical.{episode, supplementary, Interpretation, parse_canonical_filename}
use anime_db.Naming.RoundTrip.{parse_canonical_filename-format_episode}
use anime_db.Naming.Ambiguous.{Among, parse_canonical_filename-format_supplementary}

-- Stand for the checks of a component.
abbrev no_slash : Text → Bool
no_slash t = not (any (nat_eq b'/') t)

abbrev foo : Text
foo = b'F' ∷ b'o' ∷ b'o' ∷ []

abbrev foo_prefix : Prefix
foo_prefix = record { preview_text = some foo; errors = false }

abbrev third : EpisodeIdentity
third = record { season = 1; number = 3; part = some 2; media_part = some 12 }

abbrev upper_mkv : Text
upper_mkv = b'M' ∷ b'K' ∷ b'V' ∷ []

abbrev mkv : Text
mkv = b'.' ∷ b'm' ∷ b'k' ∷ b'v' ∷ []

abbrev third_name : Text
third_name =
    foo
    ++ (separator
        ++ (b'S' ∷ b'0' ∷ b'1' ∷ b'P' ∷ b'0' ∷ b'2' ∷ b'E' ∷ b'0' ∷ b'3' ∷ b'-' ∷ b'M' ∷ b'P' ∷ b'1'
            ∷ b'2' ∷ mkv))

mkv_normalized : normalize_extension upper_mkv ≡ some mkv
unfolding normalize_extension
mkv_normalized = refl

third_printed : format_episode foo_prefix third upper_mkv ≡ some third_name
unfolding format_episode
third_printed = refl

third_valid : no_slash (foo ++ (separator ++ episode_suffix third)) ≡ true
unfolding two_digits
third_valid = refl

parse_canonical_filename-format_episode_example :
    parse_canonical_filename no_slash no_slash third_name mkv
    ≡ record { prefix = foo; identity = episode 1 (some 2) 3; media_part = some 12 } ∷ []
parse_canonical_filename-format_episode_example =
    parse_canonical_filename-format_episode no_slash no_slash foo_prefix third upper_mkv foo mkv
      third_name refl mkv_normalized third_printed refl refl third_valid

abbrev season_ova : Supplementary
season_ova = record {
  content_type = canonical ova;
  season = some 1;
  part = none;
  ordinal = none;
  media_part = none;
}

abbrev ova_name : Text
ova_name = foo ++ (separator ++ (b'S' ∷ b'0' ∷ b'1' ∷ (separator ++ (b'O' ∷ b'V' ∷ b'A' ∷ mkv))))

ova_printed : format_supplementary foo_prefix season_ova upper_mkv ≡ some ova_name
unfolding format_supplementary
ova_printed = refl

ova_valid : no_slash (foo ++ (separator ++ supplementary_suffix season_ova)) ≡ true
unfolding two_digits
ova_valid = refl

abbrev of_season : Interpretation
of_season = record {
  prefix = foo;
  identity = supplementary (some 1) none ova none;
  media_part = none;
}

abbrev of_root : Interpretation
of_root = record {
  prefix = foo ++ (separator ++ (b'S' ∷ b'0' ∷ b'1' ∷ []));
  identity = supplementary none none ova none;
  media_part = none;
}

two_readings : parse_canonical_filename no_slash no_slash ova_name mkv ≡ of_season ∷ of_root ∷ []
unfolding parse_canonical_filename
two_readings = refl

-- A film is printed, and its name is not read.
abbrev film_name : Text
film_name = foo ++ (separator ++ (b'F' ∷ b'i' ∷ b'l' ∷ b'm' ∷ mkv))

film_printed :
    format_supplementary foo_prefix
      (record season_ova { content_type = film; season = none })
      upper_mkv
    ≡ some film_name
unfolding format_supplementary
film_printed = refl

film_unread : parse_canonical_filename no_slash no_slash film_name mkv ≡ []
unfolding parse_canonical_filename
film_unread = refl

parse_canonical_filename-format_supplementary_example :
    Among of_season (parse_canonical_filename no_slash no_slash ova_name mkv)
parse_canonical_filename-format_supplementary_example =
    parse_canonical_filename-format_supplementary no_slash no_slash foo_prefix ova season_ova
      upper_mkv foo mkv ova_name refl refl mkv_normalized ova_printed refl refl ova_valid
