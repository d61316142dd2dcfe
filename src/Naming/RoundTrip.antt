-- ===== src/Naming/RoundTrip.antt =====
-- The name of an episode is read back as that episode.
use anime_db.Base.{Bool, true, ◌≡◌, refl, some, [], ◌∷◌, ◌++◌, and_split}
use anime_db.Naming.Text.{Text, separator, rpartition-separator}
use anime_db.Naming.Formatters.{
  EpisodeIdentity, Prefix, positive_int, optional_int, episode_suffix, normalize_extension,
  with_text, with_prefix, format_episode,
}
use anime_db.Naming.Canonical.{episode, parse_canonical_stem, parse_canonical_filename}
use anime_db.Naming.Suffixes.{match_episode-episode_suffix, episode_suffix-Spaceless}
use anime_db.Naming.Extensions.{if_some, filename-stem}

-- The name that the formatter gives to an episode is read back as that episode alone, under the same
-- prefix, if the prefix is sanitized, and stem and name are valid components.
pub parse_canonical_filename-format_episode :
    (clean valid : Text → Bool) (pre : Prefix) (e : EpisodeIdentity)
    (given prefix extension name : Text)
    → pre.preview_text ≡ some prefix
    → normalize_extension given ≡ some extension
    → format_episode pre e given ≡ some name
    → clean prefix ≡ true
    → valid name ≡ true
    → valid (prefix ++ (separator ++ episode_suffix e)) ≡ true
    → parse_canonical_filename clean valid name extension
      ≡ record {
        prefix = prefix;
        identity = episode e.season e.part e.number;
        media_part = e.media_part;
      }
        ∷ []
unfolding format_episode parse_canonical_stem
parse_canonical_filename-format_episode clean valid pre e given prefix extension name has_prefix
      has_extension printed is_clean valid_name valid_stem =
    let (tests, with_text) = if_some _ (with_prefix pre (episode_suffix e) given) name printed in
    let (ok_season, tests₁) = and_split (positive_int e.season) _ tests in
    let (ok_number, tests₂) = and_split (positive_int e.number) _ tests₁ in
    let (ok_part, ok_media) = and_split (optional_int e.part) _ tests₂ in
    rw
      (
        filename-stem clean valid pre given prefix (episode_suffix e) extension name has_prefix
            has_extension with_text valid_name,
        valid_stem,
        rpartition-separator prefix (episode_suffix e) (episode_suffix-Spaceless e),
        match_episode-episode_suffix e ok_season ok_number ok_part ok_media,
        is_clean,
      )
      refl
