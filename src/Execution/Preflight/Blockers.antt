-- ===== src/Execution/Preflight/Blockers.antt =====
-- Lists of blockers that are empty.
use anime_db.Base.{
  String, ◌≡◌, refl, Bool, true, false, not, Option, none, some, List, [], ◌∷◌, ◌++◌, All,
  String_eq,
}
use anime_db.Execution.Preflight.Inputs.{when, blocks_of}
use anime_db.Execution.Preflight.Runtime.{read_only_state}
use anime_db.Execution.Preflight.{ready_for_execution, status_of}

pub append_empty : (xs ys : List String) → xs ++ ys ≡ [] → (xs ≡ []) × (ys ≡ [])
append_empty [] ys h = (refl, h)
append_empty (x ∷ xs) ys h = cc

pub when_empty : (b : Bool) (text : String) → when (not b) text ≡ [] → b ≡ true
when_empty true text h = refl
when_empty false text h = cc

pub blocks_of-empty {ℓ} :
    {A : Type ℓ} (f : A → List String) (xs : List A) → blocks_of f xs ≡ [] → All (λ x. f x ≡ []) xs
blocks_of-empty f [] h = tt
blocks_of-empty f (x ∷ xs) h =
    let (now, later) = append_empty (f x) _ h in (now, blocks_of-empty f xs later)

pub All-map {ℓ} :
    {A : Type ℓ} (P Q : A → Type 0) → ((x : A) → P x → Q x) → (xs : List A) → All P xs → All Q xs
All-map P Q f [] all = tt
All-map P Q f (x ∷ xs) all = (f x all.0, All-map P Q f xs all.1)

pub status_of-empty :
    (blockers : List String) → status_of blockers ≡ ready_for_execution → blockers ≡ []
status_of-empty [] h = refl
status_of-empty (b ∷ bs) h = cc

pub read_only_state-empty : (now : Option Bool) → read_only_state now ≡ [] → now ≡ some false
read_only_state-empty none h = cc
read_only_state-empty (some true) h = cc
read_only_state-empty (some false) h = refl

pub when_off : (b : Bool) (text : String) → when b text ≡ [] → b ≡ false
when_off true text h = cc
when_off false text h = refl

pub All-both {ℓ} :
    {A : Type ℓ} (P Q R : A → Type 0)
    → ((x : A) → P x → Q x → R x)
    → (xs : List A) → All P xs
    → All Q xs
    → All R xs
All-both P Q R f [] p q = tt
All-both P Q R f (x ∷ xs) p q = (f x p.0 q.0, All-both P Q R f xs p.1 q.1)

pub blocks_of-when {ℓ} :
    {A : Type ℓ} (b : A → Bool) (text : A → String) (xs : List A)
    → blocks_of (λ x. when (b x) (text x)) xs ≡ []
    → All (λ x. b x ≡ false) xs
blocks_of-when b text xs h =
    All-map (λ x. when (b x) (text x) ≡ []) (λ x. b x ≡ false) (λ x. when_off (b x) (text x)) xs
      (blocks_of-empty _ xs h)

pub blocks_of-when-not {ℓ} :
    {A : Type ℓ} (b : A → Bool) (text : A → String) (xs : List A)
    → blocks_of (λ x. when (not (b x)) (text x)) xs ≡ []
    → All (λ x. b x ≡ true) xs
blocks_of-when-not b text xs h =
    All-map (λ x. when (not (b x)) (text x) ≡ []) (λ x. b x ≡ true) (λ x. when_empty (b x) (text x))
      xs (blocks_of-empty _ xs h)
