-- ===== src/Execution/Mounts/Places.antt =====
-- Absolute paths as lists of parts: prefixes, and what two paths with a common extension have in common.
use anime_db.Base.{
  String, ◌≡◌, refl, ◌⊎◌, inl, inr, Bool, Option, none, some, List, [], ◌∷◌, ◌++◌, is_some,
  if◌then◌else◌, ◌==◌, String_eq, if_ind, eq_iff,
}

abbrev pub Place : Type 0
Place = List String

abbrev pub list_filter {ℓ} : {A : Type ℓ} → (A → Bool) → List A → List A
list_filter p [] = []
list_filter p (x ∷ xs) = if p x then x ∷ list_filter p xs else list_filter p xs

-- `path.relative_to(base)`, where the base is above the path
abbrev pub strip : Place → Place → Option Place
strip [] path = some path
strip (b ∷ base) [] = none
strip (b ∷ base) (p ∷ path) = let rest = strip base path in if b == p then rest else none

-- `path.is_relative_to(base)`
abbrev pub within : Place → Place → Bool
within base path = is_some (strip base path)

pub strip-ok : (base path rest : Place) → strip base path ≡ some rest → path ≡ base ++ rest
strip-ok [] path rest h = cc
strip-ok (b ∷ base) [] rest h = cc
strip-ok (b ∷ base) (p ∷ path) rest h =
    if_ind (λ (z : Option Place). z ≡ some rest → p ∷ path ≡ b ∷ (base ++ rest)) (b == p)
      (λ same h'. cc ((eq_iff b p).0 same, strip-ok base path rest h')) (λ _ h'. cc) h

pub strip-append : (base rest : Place) → strip base (base ++ rest) ≡ some rest
strip-append [] rest = refl
strip-append (b ∷ base) rest = rw ((eq_iff b b).1 refl) (strip-append base rest)

-- Two paths with a common extension: one is above the other.
pub comparable :
    (a b s t : Place)
    → a ++ s ≡ b ++ t
    → ((v : Place) × (b ≡ a ++ v)) ⊎ ((v : Place) × (a ≡ b ++ v))
comparable [] b s t h = inl (b, refl)
comparable (x ∷ a) [] s t h = inr (x ∷ a, refl)
comparable (x ∷ a) (y ∷ b) s t h = elim (comparable a b s t (cc)) [
  | inl (v, at) ↦ inl (v, cc)
  | inr (v, at) ↦ inr (v, cc)
]

pub append_cancel : (a s t : Place) → a ++ s ≡ a ++ t → s ≡ t
append_cancel [] s t h = h
append_cancel (x ∷ a) s t h = append_cancel a s t (cc)
