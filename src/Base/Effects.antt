-- ===== src/Base/Effects.antt =====
-- Code that mutates a state and may raise: what was written before a raise stays written. With the
-- rules of a program logic for it: a precondition, a postcondition, and one for the raise.
use mathlib.Core.Path.{◌≡◌, refl, ◌∙◌}
use mathlib.Core.Bool.{Bool, true, false}
use anime_db.Base.Raising.{Result, ok, err}

abbrev pub Effect : Type 0 → Type 0 → Type 0 → Type 0
Effect E S A = S → Result E A × S

module _ {E S A B : Type 0} where
  abbrev pub continue : Result E A → (A → Effect E S B) → Effect E S B
  continue (ok a) f s = f a s
  continue (err e) f s = (err e, s)

  infixl 5 ◌>>=◌ ◌>>◌
  unfoldable pub ◌>>=◌ : Effect E S A → (A → Effect E S B) → Effect E S B
  ◌>>=◌ m f s = let (r, s') = m s in continue r f s'

  abbrev pub ◌>>◌ : Effect E S A → Effect E S B → Effect E S B
  m >> n = m >>= λ _. n

module _ {E S A : Type 0} where
  unfoldable pub pure : A → Effect E S A
  pure a s = (ok a, s)

  unfoldable pub raise : E → Effect E S A
  raise e s = (err e, s)

module _ {E S : Type 0} where
  unfoldable pub raise_if : Bool → E → Effect E S (Unit {0})
  raise_if true e s = (err e, s)
  raise_if false e s = (ok tt, s)

  unfoldable pub modify : (S → S) → Effect E S (Unit {0})
  modify f s = (ok tt, f s)

-- What holds of an outcome: `Q` of a value and `R` of an exception, each with the state then.
abbrev pub Outcome :
    {E S A : Type 0} → (A → S → Type 0) → (E → S → Type 0) → Result E A × S → Type 0
Outcome Q R (ok a, s) = Q a s
Outcome Q R (err e, s) = R e s

pub record Ensures {E S A : Type 0} (P : S → Type 0) (m : Effect E S A) (Q : A → S → Type 0)
    (R : E → S → Type 0) : Type 0 where
  pub at : (s : S) → P s → Outcome Q R (m s)

module _ {E S A B : Type 0} {Q : A → S → Type 0} {Q' : B → S → Type 0} {R : E → S → Type 0} where
  continue-Ensures :
      (r : Result E A) (f : A → Effect E S B) (s : S)
      → ((a : A) → Ensures (Q a) (f a) Q' R)
      → Outcome Q R (r, s)
      → Outcome Q' R (continue r f s)
  continue-Ensures (ok a) f s k h = (k a).at s h
  continue-Ensures (err e) f s k h = h

  pub bind :
      {P : S → Type 0} {m : Effect E S A} {f : A → Effect E S B}
      → Ensures P m Q R
      → ((a : A) → Ensures (Q a) (f a) Q' R)
      → Ensures P (m >>= f) Q' R
  unfolding ◌>>=◌
  bind {P} {m} {f} first k = record {
    at = λ s h. let (r, s') = m s in continue-Ensures r f s' k (first.at s h);
  }

module _ {E S A : Type 0} {P : S → Type 0} {R : E → S → Type 0} where
  pub Ensures-pure :
      {Q : A → S → Type 0} (a : A) → ((s : S) → P s → Q a s) → Ensures {E = E} P (pure a) Q R
  unfolding pure
  Ensures-pure a h = record { at = h }

  pub Ensures-raise :
      {Q : A → S → Type 0} (e : E) → ((s : S) → P s → R e s) → Ensures P (raise e) Q R
  unfolding raise
  Ensures-raise e h = record { at = h }

module _ {E S : Type 0} {P : S → Type 0} {R : E → S → Type 0} where
  -- A guard: the rest of the block may use that its test failed.
  pub Ensures-raise_if :
      (b : Bool) (e : E)
      → ((s : S) → P s → R e s)
      → Ensures P (raise_if b e) (λ _ s. P s × (b ≡ false)) R
  unfolding raise_if
  Ensures-raise_if true e h = record { at = h }
  Ensures-raise_if false e h = record { at = λ s p. (p, refl) }

  pub Ensures-modify :
      {Q : S → Type 0} (f : S → S) → ((s : S) → P s → Q (f s)) → Ensures P (modify f) (λ _. Q) R
  unfolding modify
  Ensures-modify f h = record { at = h }

  -- A guard that ends a block.
  pub last_guard :
      (b : Bool) (e : E) → ((s : S) → P s → R e s) → Ensures P (raise_if b e) (λ _. P) R
  unfolding raise_if
  last_guard true e h = record { at = h }
  last_guard false e h = record { at = λ s p. p }

-- Sequencing under one invariant `P`: what a step establishes besides is a fact for the rest.
module _ {E S A B : Type 0} {P : S → Type 0} {Q' : B → S → Type 0} {R : E → S → Type 0} where
  continue-fact :
      (F : A → Type 0) (r : Result E A) (f : A → Effect E S B) (s : S)
      → ((a : A) → F a → Ensures P (f a) Q' R)
      → Outcome (λ a s. P s × F a) R (r, s)
      → Outcome Q' R (continue r f s)
  continue-fact F (ok a) f s k (p, fact) = (k a fact).at s p
  continue-fact F (err e) f s k h = h

  pub bind_fact :
      {F : A → Type 0} {m : Effect E S A} {f : A → Effect E S B}
      → Ensures P m (λ a s. P s × F a) R
      → ((a : A) → F a → Ensures P (f a) Q' R)
      → Ensures P (m >>= f) Q' R
  unfolding ◌>>=◌
  bind_fact {F} {m} {f} first k = record {
    at = λ s h. let (r, s') = m s in continue-fact F r f s' k (first.at s h);
  }

  pub bind_keep :
      {m : Effect E S A} {f : A → Effect E S B}
      → Ensures P m (λ _. P) R
      → ((a : A) → Ensures P (f a) Q' R)
      → Ensures P (m >>= f) Q' R
  bind_keep first k = bind first k

pub weaken :
    {E S A : Type 0} {P P' : S → Type 0} {m : Effect E S A} {Q : A → S → Type 0}
    {R : E → S → Type 0}
    → ((s : S) → P s → P' s)
    → Ensures P' m Q R
    → Ensures P m Q R
weaken h e = record { at = λ s p. e.at s (h s p) }

module _ {E S A : Type 0} where
  pub outcome_after :
      (Q Q' : A → S → Type 0) (R R' : E → S → Type 0) (r : Result E A) (s : S)
      → ((a : A) (s : S) → Q a s → Q' a s)
      → ((e : E) (s : S) → R e s → R' e s)
      → Outcome Q R (r, s)
      → Outcome Q' R' (r, s)
  outcome_after Q Q' R R' (ok a) s h k q = h a s q
  outcome_after Q Q' R R' (err e) s h k q = k e s q

  pub after :
      {P : S → Type 0} {Q Q' : A → S → Type 0} {R : E → S → Type 0} {m : Effect E S A}
      → ((a : A) (s : S) → Q a s → Q' a s)
      → Ensures P m Q R
      → Ensures P m Q' R
  after {P} {Q} {Q'} {R} {m} h e = record {
    at = λ s p. let (r, s') = m s in outcome_after Q Q' R R r s' h (λ e s r. r) (e.at s p);
  }

-- A step that returns, and the state that it leaves.
pub record Returns {E S A : Type 0} (m : Effect E S A) (s : S) (a : A) (s' : S) : Type 0 where
  pub is : m s ≡ (ok a, s')

module _ {E S A B : Type 0} where
  bind-is :
      (m : Effect E S A) (f : A → Effect E S B) (s s' : S) (a : A)
      → m s ≡ (ok a, s')
      → (m >>= f) s ≡ f a s'
  unfolding ◌>>=◌
  bind-is m f s s' a h = rw h refl

  pub chain :
      {m : Effect E S A} {s s' s'' : S} {a : A} {b : B} (f : A → Effect E S B)
      → Returns m s a s'
      → Returns (f a) s' b s''
      → Returns (m >>= f) s b s''
  chain {m} {s} {s'} {s''} {a} f first rest = record { is = bind-is m f s s' a first.is ∙ rest.is }

module _ {E S : Type 0} where
  raise_if-is : (b : Bool) (e : E) (s : S) → b ≡ false → raise_if b e s ≡ (ok tt, s)
  unfolding raise_if
  raise_if-is b e s h = rw h refl

  pub Returns-raise_if : {b : Bool} {s : S} (e : E) → b ≡ false → Returns (raise_if b e) s tt s
  Returns-raise_if {b} {s} e h = record { is = raise_if-is b e s h }

  modify-is : (f : S → S) (s : S) → modify {E = E} f s ≡ (ok tt, f s)
  unfolding modify
  modify-is f s = refl

  pub Returns-modify : {s : S} (f : S → S) → Returns {E = E} (modify f) s tt (f s)
  Returns-modify {s} f = record { is = modify-is f s }

  pure-is : {A : Type 0} (a : A) (s : S) → pure {E = E} a s ≡ (ok a, s)
  unfolding pure
  pure-is a s = refl

  pub Returns-pure : {A : Type 0} {a : A} {s : S} → Returns {E = E} (pure a) s a s
  Returns-pure {a} {s} = record { is = pure-is a s }
