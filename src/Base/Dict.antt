-- ===== src/Base/Dict.antt =====
-- A dictionary as an association list without repeated keys.
use mathlib.Core.Path.{◌≡◌, refl, sym, ◌∙◌, subst}
use mathlib.Core.Bool.{false}
use mathlib.Core.Option.{Option, none, some}
use mathlib.Core.List.{List, [], ◌∷◌}
use mathlib.Core.Logic.{inl, inr}
use anime_db.Base.Tests.{Equality, ◌==◌, equal-sym, if◌then◌else◌, Bool-cases}

module _ {K V : Type 0} ⦃e : Equality K⦄ where
  -- `d.get(k)`
  abbrev pub get : K → List (K × V) → Option V
  get k [] = none
  get k ((j, v) ∷ d) = let later = get k d in if k == j then some v else later

  -- `d.pop(k, None)`
  abbrev pub pop : K → List (K × V) → List (K × V)
  pop k [] = []
  pop k ((j, v) ∷ d) = let later = pop k d in if k == j then later else (j, v) ∷ later

  -- `d[k] = v`; the order of the keys does not matter here.
  abbrev pub put : K → V → List (K × V) → List (K × V)
  put k v d = (k, v) ∷ pop k d

  abbrev pub Unique : List (K × V) → Type 0
  Unique [] = Unit
  Unique ((k, v) ∷ d) = (get k d ≡ none) × Unique d

  pub get-pop_same : (k : K) (d : List (K × V)) → get k (pop k d) ≡ none
  get-pop_same k [] = refl
  get-pop_same k ((j, v) ∷ d) = elim (Bool-cases (k == j)) [
    | inl same ↦ rw same (get-pop_same k d)
    | inr apart ↦ rw apart (rw apart (get-pop_same k d))
  ]

  pub get-pop_other : (i k : K) (d : List (K × V)) → (i == k) ≡ false → get i (pop k d) ≡ get i d
  get-pop_other i k [] h = refl
  get-pop_other i k ((j, v) ∷ d) h = elim (Bool-cases (k == j)) [
    | inl same ↦
        let is : k ≡ j = (e.decides k j).0 same in
        let apart : (i == j) ≡ false = subst (λ x. (i == x) ≡ false) is h in
        rw (same, apart) (get-pop_other i k d h)
    | inr apart ↦ rw (apart, get-pop_other i k d h) refl
  ]

  pub get-pop : (i k : K) (d : List (K × V)) → get i (pop k d) ≡ (if i == k then none else get i d)
  get-pop i k d = elim (Bool-cases (i == k)) [
    | inl same ↦
        let is : i ≡ k = (e.decides i k).0 same in
        rw same (subst (λ x. get x (pop k d) ≡ none) (sym is) (get-pop_same k d))
    | inr apart ↦ rw apart (get-pop_other i k d apart)
  ]

  pub get-put :
      (i k : K) (v : V) (d : List (K × V))
      → get i (put k v d) ≡ (if i == k then some v else get i d)
  get-put i k v d = elim (Bool-cases (i == k)) [
    | inl same ↦ rw same refl
    | inr apart ↦ rw apart (get-pop_other i k d apart)
  ]

  pub pop-Unique : (k : K) (d : List (K × V)) → Unique d → Unique (pop k d)
  pop-Unique k [] h = tt
  pop-Unique k ((j, v) ∷ d) (fresh, h) = elim (Bool-cases (k == j)) [
    | inl same ↦ rw same (pop-Unique k d h)
    | inr apart ↦ rw apart (get-pop_other j k d (equal-sym j k ∙ apart) ∙ fresh, pop-Unique k d h)
  ]

  pub put-Unique : (k : K) (v : V) (d : List (K × V)) → Unique d → Unique (put k v d)
  put-Unique k v d h = (get-pop_same k d, pop-Unique k d h)
