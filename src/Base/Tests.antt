-- ===== src/Base/Tests.antt =====
-- Boolean tests, the conditional, equality as an interface, and a result type for code that raises.
use Prim.Native.Nat.{ℕ, ◌≤◌, compare, Ordering}
use Prim.Native.String.{String}
use mathlib.Core.Path.{◌≡◌, refl, sym, ◌∙◌, ap}
use mathlib.Core.Logic.{◌↔◌, ◌⊎◌, inl, inr}
use mathlib.Core.Bool.{Bool, true, false, not, ◌&&◌, ◌||◌}
use mathlib.Core.Option.{Option, none, some}
use native.Mathlib.Omega.{arith}
use text.Mathlib.Text.{◌==◌ as str_eq}
use text.Mathlib.TextEquality.{eq_iff}

abbrev pub ltb : ℕ → ℕ → Bool
ltb a b = elim (compare a b) [ Ordering.lt ↦ true | _ ↦ false ]

abbrev pub leb : ℕ → ℕ → Bool
leb a b = elim (compare a b) [ Ordering.gt ↦ false | _ ↦ true ]

abbrev pub nat_eq : ℕ → ℕ → Bool
nat_eq a b = elim (compare a b) [ Ordering.eq ↦ true | _ ↦ false ]

infix 1 if◌then◌else◌
abbrev pub if◌then◌else◌ {ℓ} : {A : Type ℓ} → Bool → A → A → A
if true then x else y = x
if false then x else y = y

pub nat_eq_iff : (a b : ℕ) → (nat_eq a b ≡ true) ↔ (a ≡ b)
nat_eq_iff a b = ground arith

pub leb→le : (a b : ℕ) → leb a b ≡ true → a ≤ b
leb→le a b h = ground arith

pub Bool-cases : (b : Bool) → (b ≡ true) ⊎ (b ≡ false)
Bool-cases true = inl refl
Bool-cases false = inr refl

pub and_split : (a b : Bool) → (a && b) ≡ true → (a ≡ true) × (b ≡ true)
and_split a b h = ground arith

-- Python's `==` at a type: a test that decides equality.
pub record Equality {ℓ} (A : Type ℓ) : Type ℓ where
  pub test : A → A → Bool
  pub decides : (a b : A) → (test a b ≡ true) ↔ (a ≡ b)

abbrev pub bool_eq : Bool → Bool → Bool
bool_eq true b = b
bool_eq false b = not b

pub bool_eq_iff : (a b : Bool) → (bool_eq a b ≡ true) ↔ (a ≡ b)
bool_eq_iff a b = ground arith

instance abbrev pub Bool_eq : Equality Bool
Bool_eq = record { test = bool_eq; decides = bool_eq_iff }

instance abbrev pub String_eq : Equality String
String_eq = record { test = str_eq; decides = eq_iff }

instance abbrev pub ℕ_eq : Equality ℕ
ℕ_eq = record { test = nat_eq; decides = nat_eq_iff }

module _ {ℓ} {A : Type ℓ} ⦃e : Equality A⦄ where
  infix 50 ◌==◌
  abbrev pub ◌==◌ : A → A → Bool
  a == b = e.test a b

  pub equal_self : (a : A) → (a == a) ≡ true
  equal_self a = (e.decides a a).1 refl

  equal-agree : (a b : A) (p q : Bool) → (a == b) ≡ p → (b == a) ≡ q → (a == b) ≡ (b == a)
  equal-agree a b true q h k = h ∙ sym ((e.decides b a).1 (sym ((e.decides a b).0 h)))
  equal-agree a b false true h k = (e.decides a b).1 (sym ((e.decides b a).0 k)) ∙ sym k
  equal-agree a b false false h k = h ∙ sym k

  pub equal-sym : (a b : A) → (a == b) ≡ (b == a)
  equal-sym a b = equal-agree a b (a == b) (b == a) refl refl

abbrev pub option_eq {ℓ} : {A : Type ℓ} → (A → A → Bool) → Option A → Option A → Bool
option_eq f none none = true
option_eq f none (some b) = false
option_eq f (some a) none = false
option_eq f (some a) (some b) = f a b

pub option_eq_iff {ℓ} :
    {A : Type ℓ} (e : Equality A) (a b : Option A) → (option_eq e.test a b ≡ true) ↔ (a ≡ b)
option_eq_iff e none none = (λ _. refl, λ _. refl)
option_eq_iff e none (some b) = (λ h. cc, λ h. cc)
option_eq_iff e (some a) none = (λ h. cc, λ h. cc)
option_eq_iff e (some a) (some b) =
    (λ h. ap some ((e.decides a b).0 h), λ h. (e.decides a b).1 (cc))

instance abbrev pub Option_eq {ℓ} : {A : Type ℓ} ⦃e : Equality A⦄ → Equality (Option A)
Option_eq ⦃e⦄ = record { test = option_eq e.test; decides = option_eq_iff e }

-- `if x:` on an optional string: neither `None` nor empty.
abbrev pub nonempty : Option String → Bool
nonempty none = false
nonempty (some s) = not (str_eq s "")

abbrev pub is_true : Option Bool → Bool
is_true none = false
is_true (some b) = b

abbrev pub is_some {ℓ} : {A : Type ℓ} → Option A → Bool
is_some none = false
is_some (some a) = true

pub and_both : {a b : Bool} → a ≡ true → b ≡ true → (a && b) ≡ true
and_both {a} {b} p q = ground arith

pub or_split : (a b : Bool) → (a || b) ≡ false → (a ≡ false) × (b ≡ false)
or_split a b h = ground arith

pub not-true : (b : Bool) → not b ≡ true → b ≡ false
not-true b h = ground arith

pub not-false : (b : Bool) → not b ≡ false → b ≡ true
not-false b h = ground arith

pub ltb-false : (a b : ℕ) → b ≤ a → ltb a b ≡ false
ltb-false a b h = ground arith

-- A statement about a conditional, by its branches.
pub if_ind {ℓ κ} :
    {A : Type ℓ} (P : A → Type κ) (b : Bool) {x y : A}
    → (b ≡ true → P x)
    → (b ≡ false → P y)
    → P (if b then x else y)
if_ind P true px py = px refl
if_ind P false px py = py refl
