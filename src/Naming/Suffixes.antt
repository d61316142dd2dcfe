-- ===== src/Naming/Suffixes.antt =====
-- The suffix of an episode is read back.
use anime_db.Base.{
  ℕ, true, false, ◌≡◌, refl, ◌<◌, Option, none, some, [], ◌∷◌, ◌++◌, nat_eq, nat_eq_iff, arith,
  or_split,
}
use mathlib.Core.List.{append_assoc, append-nil}
use mathlib.Core.Path.{subst}
use anime_db.Naming.Text.{Text, strip_prefix, starts_digit, Spaceless}
use anime_db.Naming.Numbers.{two_digits, Digits, two_digits-Digits, number-two_digits}
use anime_db.Naming.Formatters.{
  EpisodeIdentity, positive_int, optional_int, marked, structure_text, episode_suffix,
}
use anime_db.Naming.Canonical.{episode, structure, media_part, match_episode, optional_number, ends}

strip_prefix-append : (m t : Text) → strip_prefix m (m ++ t) ≡ some t
strip_prefix-append [] t = refl
strip_prefix-append (c ∷ m) t = rw ((nat_eq_iff c c).1 refl, strip_prefix-append m t) refl

positive : (n : ℕ) → positive_int n ≡ true → 0 < n
positive n h = ground (arith, h)

pub optional_number-marked :
    (mark : Text) (o : Option ℕ) (tail : Text)
    → optional_int o ≡ true
    → strip_prefix mark tail ≡ none
    → starts_digit tail ≡ false
    → optional_number mark (marked mark o ++ tail) ≡ some (o, tail)
optional_number-marked mark none tail ok_number other ends = rw other refl
optional_number-marked mark (some n) tail ok_number other ends =
    rw
      (
        append_assoc mark (two_digits n) tail,
        strip_prefix-append mark (two_digits n ++ tail),
        number-two_digits n tail (positive n ok_number) ends,
      )
      refl

digits_in_front :
    (o : Option ℕ) (tail : Text)
    → starts_digit tail ≡ false
    → starts_digit (marked (b'P' ∷ []) o ++ tail) ≡ false
digits_in_front none tail h = h
digits_in_front (some k) tail h = refl

pub structure-text :
    (season : ℕ) (part : Option ℕ) (tail : Text)
    → positive_int season ≡ true
    → optional_int part ≡ true
    → starts_digit tail ≡ false
    → strip_prefix (b'P' ∷ []) tail ≡ none
    → structure (structure_text season part ++ tail) ≡ some ((season, part), tail)
unfolding structure
structure-text season part tail ok_season ok_part no_digit_next no_part =
    rw
      (
        append_assoc (two_digits season) (marked (b'P' ∷ []) part) tail,
        number-two_digits season (marked (b'P' ∷ []) part ++ tail) (positive season ok_season)
            (digits_in_front part tail no_digit_next),
        optional_number-marked (b'P' ∷ []) part tail ok_part no_part no_digit_next,
      )
      refl

abbrev pub mp_mark : Text
mp_mark = b'-' ∷ b'M' ∷ b'P' ∷ []

pub media_part-marked :
    (o : Option ℕ) → optional_int o ≡ true → media_part (marked mp_mark o) ≡ some o
unfolding media_part
media_part-marked o ok_number =
    let at_end : marked mp_mark o ++ [] ≡ marked mp_mark o = append-nil (marked mp_mark o) in
    let read : optional_number mp_mark (marked mp_mark o) ≡ some (o, []) =
      subst (λ t. optional_number mp_mark t ≡ some (o, [])) at_end
        (optional_number-marked mp_mark o [] ok_number refl refl) in
    rw read refl

pub no_digit : (o : Option ℕ) → starts_digit (marked mp_mark o) ≡ false
no_digit none = refl
no_digit (some n) = refl

-- `_EPISODE` matches what the formatter prints, with the same numbers.
pub match_episode-episode_suffix :
    (e : EpisodeIdentity)
    → positive_int e.season ≡ true
    → positive_int e.number ≡ true
    → optional_int e.part ≡ true
    → optional_int e.media_part ≡ true
    → match_episode (episode_suffix e) ≡ some (episode e.season e.part e.number, e.media_part)
unfolding match_episode
match_episode-episode_suffix e ok_season ok_number ok_part ok_media =
    rw
      (
        structure-text e.season e.part (b'E' ∷ (two_digits e.number ++ marked mp_mark e.media_part))
            ok_season ok_part refl refl,
        number-two_digits e.number (marked mp_mark e.media_part) (positive e.number ok_number)
            (no_digit e.media_part),
        media_part-marked e.media_part ok_media,
      )
      refl

pub Spaceless-append : (s t : Text) → Spaceless s → Spaceless t → Spaceless (s ++ t)
Spaceless-append [] t hs ht = ht
Spaceless-append (c ∷ s) t hs ht =
    let (here, rest) = or_split (nat_eq b' ' c) _ hs in rw (here, Spaceless-append s t rest ht) refl

pub Digits-Spaceless : (t : Text) → Digits t → Spaceless t
Digits-Spaceless [] h = refl
Digits-Spaceless (c ∷ t) (is, h) =
    let apart : nat_eq b' ' c ≡ false = ground (arith, is) in rw (apart, Digits-Spaceless t h) refl

pub marked-Spaceless : (mark : Text) (o : Option ℕ) → Spaceless mark → Spaceless (marked mark o)
marked-Spaceless mark none h = refl
marked-Spaceless mark (some n) h =
    Spaceless-append mark (two_digits n) h (Digits-Spaceless _ (two_digits-Digits n))

pub episode_suffix-Spaceless : (e : EpisodeIdentity) → Spaceless (episode_suffix e)
episode_suffix-Spaceless e =
    let numbers = λ (n : ℕ). Digits-Spaceless _ (two_digits-Digits n) in
    Spaceless-append (structure_text e.season e.part) _
      (Spaceless-append (two_digits e.season) _ (numbers e.season)
        (marked-Spaceless (b'P' ∷ []) e.part refl))
      (Spaceless-append (two_digits e.number) _ (numbers e.number)
        (marked-Spaceless mp_mark e.media_part refl))
