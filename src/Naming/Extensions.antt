-- ===== src/Naming/Extensions.antt =====
-- A formatted name as a stem with an extension.
use anime_db.Base.{
  ℕ, Bool, true, false, ◌&&◌, ◌||◌, not, ◌≡◌, refl, ap, ◌∙◌, ◌-◌, Option, none, some, [], ◌∷◌, ◌++◌,
  all, nat_eq_iff, leb, length, length-append, take, drop, map, if◌then◌else◌, arith, and_split,
}
use mathlib.Core.List.{append_assoc}
use mathlib.Core.Path.{subst}
use anime_db.Naming.Text.{Text, separator, is_digit}
use anime_db.Naming.Formatters.{
  Prefix, lower, is_alphanumeric, without_dot, nonempty, normalize_extension, with_text,
  with_prefix,
}
use anime_db.Naming.Canonical.{
  parse_canonical_stem, is_extension, same_text, strip_suffix, parse_canonical_filename,
}

same_text_refl : (t : Text) → same_text t t ≡ true
same_text_refl [] = refl
same_text_refl (c ∷ t) = rw ((nat_eq_iff c c).1 refl, same_text_refl t) refl

take-length : (s t : Text) → take (length s) (s ++ t) ≡ s
take-length [] t = refl
take-length (c ∷ s) t = ap (λ r. c ∷ r) (take-length s t)

drop-length : (s t : Text) → drop (length s) (s ++ t) ≡ t
drop-length [] t = refl
drop-length (c ∷ s) t = drop-length s t

strip_suffix-append : (s t : Text) → strip_suffix t (s ++ t) ≡ some s
strip_suffix-append s t =
    let n : length (s ++ t) - length t ≡ length s = omega (arith, length-append s t) in
    rw (n, drop-length s t, take-length s t, same_text_refl t) refl

abbrev canonical_char : ℕ → Bool
canonical_char x = is_digit x || (leb b'a' x && leb x b'z')

lower-canonical : (c : ℕ) → is_alphanumeric c ≡ true → canonical_char (lower c) ≡ true
lower-canonical c h = ground (arith, h)

lowered : (t : Text) → all is_alphanumeric t ≡ true → all canonical_char (map lower t) ≡ true
lowered [] h = refl
lowered (c ∷ t) h =
    let (here, rest) = and_split (is_alphanumeric c) _ h in
    rw (lower-canonical c here, lowered t rest) refl

dotted :
    (t : Text)
    → nonempty t ≡ true
    → all is_alphanumeric t ≡ true
    → is_extension (b'.' ∷ map lower t) ≡ true
dotted [] some_char h = some_char
dotted (c ∷ t) some_char h = lowered (c ∷ t) h

some_injective : {A : Type 0} (a b : A) → some a ≡ some b → a ≡ b
some_injective a b h = cc

pub if_some :
    {A : Type 0} (b : Bool) (x : Option A) (v : A)
    → (if b then x else none) ≡ some v
    → (b ≡ true) × (x ≡ some v)
if_some true x v h = (refl, h)
if_some false x v h = cc

unless_some :
    {A : Type 0} (b : Bool) (x : Option A) (v : A) → (if b then none else x) ≡ some v → x ≡ some v
unless_some true x v h = cc
unless_some false x v h = h

normalized :
    (e extension : Text) → normalize_extension e ≡ some extension → is_extension extension ≡ true
unfolding normalize_extension
normalized e extension h =
    let (tests, is) =
      if_some (nonempty (without_dot e) && all is_alphanumeric (without_dot e)) _ extension h in
    let (some_char, chars) = and_split (nonempty (without_dot e)) _ tests in
    subst (λ t. is_extension t ≡ true) (some_injective _ _ is)
      (dotted (without_dot e) some_char chars)

printed-name :
    (pre : Prefix) (given prefix suffix extension name : Text)
    → pre.preview_text ≡ some prefix
    → normalize_extension given ≡ some extension
    → with_prefix pre suffix given ≡ some name
    → prefix ++ (separator ++ (suffix ++ extension)) ≡ name
unfolding with_prefix
printed-name pre given prefix suffix extension name has_prefix has_extension printed =
    let text : with_text pre.errors (some prefix) suffix (some extension) ≡ some name =
      rw (has_prefix, has_extension) at printed in
    some_injective _ _ (unless_some (pre.errors || not (nonempty prefix)) _ name text)

-- A printed name is read as its stem is.
pub filename-stem :
    (clean valid : Text → Bool) (pre : Prefix) (given prefix suffix extension name : Text)
    → pre.preview_text ≡ some prefix
    → normalize_extension given ≡ some extension
    → with_prefix pre suffix given ≡ some name
    → valid name ≡ true
    → parse_canonical_filename clean valid name extension
      ≡ parse_canonical_stem clean valid (prefix ++ (separator ++ suffix))
unfolding parse_canonical_filename
filename-stem clean valid pre given prefix suffix extension name has_prefix has_extension printed
      valid_name =
    let named =
      printed-name pre given prefix suffix extension name has_prefix has_extension printed in
    let stem : Text = prefix ++ (separator ++ suffix) in
    let split : stem ++ extension ≡ name =
      append_assoc prefix (separator ++ suffix) extension ∙ named in
    let stripped : strip_suffix extension name ≡ some stem =
      subst (λ t. strip_suffix extension t ≡ some stem) split
        (strip_suffix-append stem extension) in
    rw (normalized given extension has_extension, valid_name, stripped) refl
