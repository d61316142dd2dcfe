-- ===== src/Execution/Preflight/Cycles.antt =====
-- The walk along the moves: it always ends, and it tells a cycle from a chain.
use anime_db.Base.{
  ℕ, zero, suc, ◌+◌, ◌≤◌, ◌<◌, String, ◌≡◌, refl, sym, is_some, or_split, not-false, ◌⊎◌, inl, inr,
  Bool, true, false, not, ◌||◌, Option, none, some, List, [], ◌∷◌, length, elem, All, ◌==◌,
  String_eq, Bool-cases, arith, eq_iff, if_ind,
}
use mathlib.Core.Path.{subst}
use text.Mathlib.Text.{◌==◌ as str_eq}
use anime_db.Execution.Preflight.Namespace.{Moves, target_of, follow, next_of, walk}

-- From `a`, following the moves, one comes to `b` in one step or more.
pub data Reaches (known : Moves) : String → String → Type 0 where
  step : (a b : String) → target_of known a ≡ some b → Reaches known a b
  more : (a b c : String) → Reaches known a b → target_of known b ≡ some c → Reaches known a c

abbrev pub unit_if : Bool → ℕ
unit_if true = 1
unit_if false = 0

-- How many moves have a source that was not seen.
abbrev pub unseen : Moves → List String → ℕ
unseen [] seen = 0
unseen ((s, t) ∷ rest) seen = unit_if (not (elem s seen)) + unseen rest seen

pub unseen-le_length : (known : Moves) (seen : List String) → unseen known seen ≤ length known
unseen-le_length [] seen = ground arith
unseen-le_length ((s, t) ∷ rest) seen = ground (arith, unseen-le_length rest seen)

unseen_mono :
    (known : Moves) (seen : List String) (x : String) → unseen known (x ∷ seen) ≤ unseen known seen
unseen_mono [] seen x = ground arith
unseen_mono ((s, t) ∷ rest) seen x = ground (arith, unseen_mono rest seen x)

pub unseen-lt :
    (known : Moves) (seen : List String) (x next : String)
    → target_of known x ≡ some next
    → elem x seen ≡ false
    → unseen known (x ∷ seen) < unseen known seen
unseen-lt [] seen x next at new = cc
unseen-lt ((s, t) ∷ rest) seen x next at new =
    if_ind
      (λ (z : Option String).
        z ≡ some next → unseen ((s, t) ∷ rest) (x ∷ seen) < unseen ((s, t) ∷ rest) seen)
      (s == x) (λ same _. here ((eq_iff s x).0 same))
      (λ _ at'. ground (arith, unseen-lt rest seen x next at' new)) at
  where
    here : s ≡ x → unseen ((s, t) ∷ rest) (x ∷ seen) < unseen ((s, t) ∷ rest) seen
    here e =
        let self : str_eq x s ≡ true = (eq_iff x s).1 (sym e) in
        let fresh : elem s seen ≡ false = subst (λ z. elem z seen ≡ false) (sym e) new in
        rw (self, fresh) (ground (arith, unseen_mono rest seen x))

module _ (known : Moves) where
  -- The walk has come to its end: no move leads on, or the node was seen before.
  abbrev pub Ended : List String × String → Type 0
  Ended (seen, node) = (target_of known node ≡ none) ⊎ (elem node seen ≡ true)

  -- Everything seen leads to the node.
  abbrev pub Trail : List String × String → Type 0
  Trail (seen, node) = All (λ x. Reaches known x node) seen

  stops :
      (seen : List String) (node : String)
      → (elem node seen || not (is_some (target_of known node))) ≡ true
      → Ended (seen, node)
  stops seen node h = go (target_of known node) refl h
    where
      go :
          (next : Option String)
          → target_of known node ≡ next
          → (elem node seen || not (is_some next)) ≡ true
          → Ended (seen, node)
      go none at h = inl at
      go (some next) at h = inr (ground (arith, h))

  follow-Ended :
      (fuel : ℕ) (seen : List String) (node : String)
      → unseen known seen < fuel
      → Ended (follow fuel known seen node)
  unfolding follow
  follow-Ended zero seen node lt = ground arith
  follow-Ended (suc fuel) seen node lt =
      if_ind Ended (elem node seen || not (is_some (target_of known node)))
        (λ stop. stops seen node stop)
        (λ on.
          let (new, moves) = or_split (elem node seen) _ on in
          go (target_of known node) refl (not-false _ moves) (λ next at.
            follow-Ended fuel (node ∷ seen) next
              (ground (arith, unseen-lt known seen node next at new))))
    where
      go :
          (next : Option String)
          → target_of known node ≡ next
          → is_some next ≡ true
          → ((next : String)
              → target_of known node ≡ some next
              → Ended (follow fuel known (node ∷ seen) next))
          → Ended (follow fuel known (node ∷ seen) (next_of node next))
      go none at moves rest = cc
      go (some next) at moves rest = rest next at

  follow-Trail :
      (fuel : ℕ) (seen : List String) (node : String)
      → Trail (seen, node)
      → Trail (follow fuel known seen node)
  unfolding follow
  follow-Trail zero seen node trail = trail
  follow-Trail (suc fuel) seen node trail =
      if_ind Trail (elem node seen || not (is_some (target_of known node))) (λ _. trail)
        (λ on.
          go (target_of known node) refl (not-false _ (or_split (elem node seen) _ on).1)
            (λ next at.
              follow-Trail fuel (node ∷ seen) next (step node next at, onward next at seen trail)))
    where
      onward :
          (next : String)
          → target_of known node ≡ some next
          → (xs : List String) → All (λ x. Reaches known x node) xs
          → All (λ x. Reaches known x next) xs
      onward next at [] all = tt
      onward next at (x ∷ xs) all = (more x node next all.0 at, onward next at xs all.1)

      go :
          (next : Option String)
          → target_of known node ≡ next
          → is_some next ≡ true
          → ((next : String)
              → target_of known node ≡ some next
              → Trail (follow fuel known (node ∷ seen) next))
          → Trail (follow fuel known (node ∷ seen) (next_of node next))
      go none at moves rest = cc
      go (some next) at moves rest = rest next at

  pub in-Trail :
      (seen : List String) (node : String)
      → Trail (seen, node)
      → elem node seen ≡ true
      → Reaches known node node
  in-Trail [] node trail there = cc
  in-Trail (x ∷ seen) node trail there = elim (Bool-cases (str_eq x node)) [
    | inl same ↦ subst (λ z. Reaches known z node) ((eq_iff x node).0 same) trail.0
    | inr other ↦ in-Trail seen node trail.1 (ground (arith, there, other))
  ]

  -- The walk from any source takes no more steps than there are moves: it ends where no move leads
  -- on, or at a locator that the moves lead back to itself.
  pub walk-Ended :
      (source : String)
      → (target_of known (walk known source).1 ≡ none)
        ⊎ ((elem (walk known source).1 (walk known source).0 ≡ true)
            × Reaches known (walk known source).1 (walk known source).1)
  unfolding walk
  walk-Ended source =
      let fuel = suc (length known) in
      elim (follow-Ended fuel [] source (ground (arith, unseen-le_length known []))) [
        | inl over ↦ inl over
        | inr again ↦ inr (again, in-Trail _ _ (follow-Trail fuel [] source tt) again)
      ]
