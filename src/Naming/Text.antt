-- ===== src/Naming/Text.antt =====
-- Texts as lists of code points, with `str.rpartition(" - ")`.
use anime_db.Base.{
  ℕ, Bool, true, false, ◌&&◌, ◌≡◌, refl, Option, none, some, List, [], ◌∷◌, ◌++◌, any, nat_eq,
  if◌then◌else◌, leb, or_split, arith, All,
}

abbrev pub Text : Type 0
Text = List ℕ

-- A match of a fixed text at the front, and what follows it.
abbrev pub strip_prefix : Text → Text → Option Text
strip_prefix [] t = some t
strip_prefix (p ∷ ps) [] = none
strip_prefix (p ∷ ps) (c ∷ t) = let rest = strip_prefix ps t in if nat_eq p c then rest else none

abbrev pub separator : Text
separator = b' ' ∷ b'-' ∷ b' ' ∷ []

abbrev pub at_front : Option Text → Option (Text × Text)
at_front none = none
at_front (some rest) = some ([], rest)

abbrev pub further : ℕ → Option (Text × Text) → Option (Text × Text) → Option (Text × Text)
further c none here = here
further c (some (before, after)) here = some (c ∷ before, after)

-- The last separator splits the text.
unfoldable pub rpartition : Text → Option (Text × Text)
rpartition [] = none
rpartition (c ∷ t) =
    let later = rpartition t in further c later (at_front (strip_prefix separator (c ∷ t)))

abbrev pub is_digit : ℕ → Bool
is_digit c = leb b'0' c && leb c b'9'

abbrev pub push : ℕ → Text × Text → Text × Text
push c (digits, rest) = (c ∷ digits, rest)

-- The digits in front, and what follows them.
abbrev pub span_digits : Text → Text × Text
span_digits [] = ([], [])
span_digits (c ∷ t) = let later = span_digits t in if is_digit c then push c later else ([], c ∷ t)

abbrev pub Spaceless : Text → Type 0
Spaceless t = any (nat_eq b' ') t ≡ false

-- Without a space there is no separator.
pub no_separator : (c : ℕ) (t : Text) → Spaceless t → strip_prefix separator (c ∷ t) ≡ none
no_separator c [] h = ground arith
no_separator c (d ∷ []) h = ground arith
no_separator c (d ∷ e ∷ t) h = ground arith

pub rpartition-none : (t : Text) → Spaceless t → rpartition t ≡ none
unfolding rpartition
rpartition-none [] h = refl
rpartition-none (c ∷ t) h =
    let (here, rest) = or_split (nat_eq b' ' c) _ h in
    rw (rpartition-none t rest, no_separator c t rest) refl

split_here : (s : Text) → Spaceless s → rpartition (separator ++ s) ≡ some ([], s)
unfolding rpartition
split_here s h = rw (rpartition-none s h, no_separator b' ' s h) refl

-- A separator with none after it is found, wherever else there are some before it.
pub rpartition-last :
    (p s : Text)
    → rpartition (separator ++ s) ≡ some ([], s)
    → rpartition (p ++ (separator ++ s)) ≡ some (p, s)
unfolding rpartition
rpartition-last [] s h = h
rpartition-last (c ∷ p) s h = rw (rpartition-last p s h) refl

pub rpartition-separator :
    (p s : Text) → Spaceless s → rpartition (p ++ (separator ++ s)) ≡ some (p, s)
rpartition-separator p s h = rpartition-last p s (split_here s h)

abbrev pub starts_digit : Text → Bool
starts_digit [] = false
starts_digit (c ∷ t) = is_digit c

pub span_digits-append :
    (ds rest : Text)
    → All (λ c. is_digit c ≡ true) ds
    → starts_digit rest ≡ false
    → span_digits (ds ++ rest) ≡ (ds, rest)
span_digits-append [] [] all_digits ends = refl
span_digits-append [] (c ∷ rest) all_digits ends = rw ends refl
span_digits-append (d ∷ ds) rest (is, all_digits) ends =
    rw (is, span_digits-append ds rest all_digits ends) refl
