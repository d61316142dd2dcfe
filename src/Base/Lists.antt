-- ===== src/Base/Lists.antt =====
-- Lists measured by native numbers, Boolean searches, and their lemmas.
use Prim.Native.Nat.{ℕ, zero, suc, ◌+◌}
use mathlib.Core.Path.{◌≡◌, refl, ap}
use mathlib.Core.Logic.{◌⊎◌, ◌↔◌}
use mathlib.Core.List.{List, [], ◌∷◌, ◌++◌}
use mathlib.Core.Bool.{Bool, true, false, not, ◌&&◌, ◌||◌}
use anime_db.Base.Tests.{Equality, and_split, and_both}
use mathlib.Core.Option.{Option, none, some}
use native.Mathlib.Omega.{arith}

module _ {ℓ} {A : Type ℓ} where
  abbrev pub length : List A → ℕ
  length [] = 0
  length (x ∷ xs) = suc (length xs)

  abbrev pub get_elem? : List A → ℕ → Option A
  get_elem? [] i = none
  get_elem? (x ∷ xs) zero = some x
  get_elem? (x ∷ xs) (suc i) = get_elem? xs i

  abbrev pub all : (A → Bool) → List A → Bool
  all p [] = true
  all p (x ∷ xs) = p x && all p xs

  abbrev pub any : (A → Bool) → List A → Bool
  any p [] = false
  any p (x ∷ xs) = p x || any p xs

  pub length-append : (xs ys : List A) → length (xs ++ ys) ≡ length xs + length ys
  length-append [] ys = omega arith
  length-append (x ∷ xs) ys = omega (arith, length-append xs ys)

-- A proposition for each element, by recursion: the tactics see through it.
abbrev pub All {ℓ κ} : {A : Type ℓ} → (A → Type κ) → List A → Type κ
All P [] = Unit
All P (x ∷ xs) = P x × All P xs

abbrev pub Any {ℓ} : {A : Type ℓ} → (A → Type 0) → List A → Type 0
Any P [] = ⊥
Any P (x ∷ xs) = P x ⊎ Any P xs

module _ {ℓ} {A : Type ℓ} where
  -- `len({key(x) for x in xs}) == len(xs)`: no two equal keys
  abbrev pub distinct : (A → A → Bool) → List A → Bool
  distinct eq [] = true
  distinct eq (x ∷ xs) = not (any (eq x) xs) && distinct eq xs

  abbrev pub list_eq : (A → A → Bool) → List A → List A → Bool
  list_eq eq [] [] = true
  list_eq eq [] (y ∷ ys) = false
  list_eq eq (x ∷ xs) [] = false
  list_eq eq (x ∷ xs) (y ∷ ys) = eq x y && list_eq eq xs ys

  -- `sorted(xs, key=…) == xs`: no later neighbour comes before an earlier one
  abbrev pub in_order : (A → A → Bool) → List A → Bool
  in_order lt [] = true
  in_order lt (x ∷ []) = true
  in_order lt (x ∷ y ∷ r) = not (lt y x) && in_order lt (y ∷ r)

  pub list_eq_iff : (e : Equality A) (xs ys : List A) → (list_eq e.test xs ys ≡ true) ↔ (xs ≡ ys)
  list_eq_iff e [] [] = (λ _. refl, λ _. refl)
  list_eq_iff e [] (y ∷ ys) = (λ h. cc, λ h. cc)
  list_eq_iff e (x ∷ xs) [] = (λ h. cc, λ h. cc)
  list_eq_iff e (x ∷ xs) (y ∷ ys) = (
    λ h.
        let (p, q) = and_split (e.test x y) (list_eq e.test xs ys) h in
        cc ((e.decides x y).0 p, (list_eq_iff e xs ys).0 q),
    λ h. and_both ((e.decides x y).1 (cc)) ((list_eq_iff e xs ys).1 (cc)),
  )

instance abbrev pub List_eq {ℓ} : {A : Type ℓ} ⦃e : Equality A⦄ → Equality (List A)
List_eq ⦃e⦄ = record { test = list_eq e.test; decides = list_eq_iff e }

-- `x in xs`
abbrev pub elem {ℓ} : {A : Type ℓ} ⦃e : Equality A⦄ → A → List A → Bool
elem ⦃e⦄ x xs = any (λ y. e.test y x) xs

module _ {ℓ} {A : Type ℓ} where
  abbrev pub last_is : (A → Bool) → List A → Bool
  last_is p [] = false
  last_is p (x ∷ []) = p x
  last_is p (x ∷ y ∷ r) = last_is p (y ∷ r)

module _ {ℓ} {A : Type ℓ} where
  abbrev pub take : ℕ → List A → List A
  take zero xs = []
  take (suc n) [] = []
  take (suc n) (x ∷ xs) = x ∷ take n xs

  abbrev pub drop : ℕ → List A → List A
  drop zero xs = xs
  drop (suc n) [] = []
  drop (suc n) (x ∷ xs) = drop n xs

  pub take-append-drop : (n : ℕ) (xs : List A) → take n xs ++ drop n xs ≡ xs
  take-append-drop zero xs = refl
  take-append-drop (suc n) [] = refl
  take-append-drop (suc n) (x ∷ xs) = ap (λ t. x ∷ t) (take-append-drop n xs)
