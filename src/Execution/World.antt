-- ===== src/Execution/World.antt =====
-- A part of the program that calls the system and other parts: what it keeps for itself, the changes
-- that its calls have made, and the answers that the environment has left for it.
use anime_db.Base.{◌≡◌, sym, ◌∙◌, Bool, true, false, not, List, [], ◌∷◌, ◌++◌, Result, ok, err}
use anime_db.Base.Effects.{
  Effect, Ensures, Outcome, ◌>>=◌, ◌>>◌, pure, raise_if, modify, bind, last_guard, Ensures-pure,
  Ensures-modify,
}
use mathlib.Core.List.{append_assoc}

-- As expected, with a value that differs, with an exception, or with one although the call took effect.
pub data Reply (E : Type 0) : Type 0 where
  fine differs : Reply E
  raises applied : E → Reply E

pub record World (E V X : Type 0) : Type 0 where
  pub own : X
  pub log : List V
  pub replies : List (Reply E)

abbrev pub Act : Type 0 → Type 0 → Type 0 → Type 0 → Type 0
Act E V X A = Effect E (World E V X) A

module _ {E V X : Type 0} where
  abbrev pub asked : List (Reply E) → Act E V X Bool
  asked [] w = (ok true, w)
  asked (fine ∷ rest) w = (ok true, record w { replies = rest })
  asked (differs ∷ rest) w = (ok false, record w { replies = rest })
  asked (raises e ∷ rest) w = (err e, record w { replies = rest })
  asked (applied e ∷ rest) w = (err e, record w { replies = rest })

  -- A call that changes nothing, and whether its value is as expected.
  unfoldable pub ask : Act E V X Bool
  ask w = asked w.replies w

  unfoldable pub consult : Act E V X (Unit {0})
  unfolding ask
  consult = ask >> pure tt

  -- The value must be as expected.
  unfoldable pub expect : E → Act E V X (Unit {0})
  unfolding ask
  expect e = ask >>= λ same. raise_if (not same) e

  abbrev pub logged : V → World E V X → World E V X
  logged v w = record w { log = w.log ++ (v ∷ []) }

  abbrev pub changed : V → List (Reply E) → Act E V X (Unit {0})
  changed v [] w = (ok tt, logged v w)
  changed v (fine ∷ rest) w = (ok tt, logged v (record w { replies = rest }))
  changed v (differs ∷ rest) w = (ok tt, logged v (record w { replies = rest }))
  changed v (raises e ∷ rest) w = (err e, record w { replies = rest })
  changed v (applied e ∷ rest) w = (err e, logged v (record w { replies = rest }))

  -- A call that makes a change.
  unfoldable pub change : V → Act E V X (Unit {0})
  change v w = changed v w.replies w

  abbrev pub set_own : (X → X) → World E V X → World E V X
  set_own f w = record w { own = f w.own }

-- Steps that keep to a plan, of which `rest` is ahead, while `P` holds of what is kept.
module _ {E V X : Type 0} (plan : List V) (P : X → Type 0) (R : E → World E V X → Type 0) where
  abbrev pub Ahead : List V → World E V X → Type 0
  Ahead rest w = P w.own × (plan ≡ w.log ++ rest)

  abbrev pub Step : List V → List V → {A : Type 0} → Effect E (World E V X) A → Type 0
  Step rest rest' {A} m = Ensures (Ahead rest) m (λ (_ : A). Ahead rest') R

module _ {E V X : Type 0} (plan : List V) (P : X → Type 0) (R : E → World E V X → Type 0)
    (halts : (rest : List V) (e : E) (w : World E V X) → Ahead plan P R rest w → R e w) where
  asked-Ahead :
      (rest : List V) (replies : List (Reply E)) (w : World E V X)
      → Ahead plan P R rest w
      → Outcome (λ _. Ahead plan P R rest) R (asked replies w)
  asked-Ahead rest [] w h = h
  asked-Ahead rest (fine ∷ later) w h = h
  asked-Ahead rest (differs ∷ later) w h = h
  asked-Ahead rest (raises e ∷ later) w h = halts rest e (record w { replies = later }) h
  asked-Ahead rest (applied e ∷ later) w h = halts rest e (record w { replies = later }) h

  pub ask-Step : {rest : List V} → Step plan P R rest rest ask
  unfolding ask
  ask-Step {rest} = record { at = λ w h. asked-Ahead rest w.replies w h }

  pub consult-Step : {rest : List V} → Step plan P R rest rest consult
  unfolding consult
  consult-Step = bind ask-Step (λ _. Ensures-pure _ (λ w h. h))

  pub expect-Step : (e : E) {rest : List V} → Step plan P R rest rest (expect e)
  unfolding expect
  expect-Step e {rest} = bind ask-Step (λ same. last_guard (not same) e (halts rest e))

  pub guard-Step : (b : Bool) (e : E) {rest : List V} → Step plan P R rest rest (raise_if b e)
  guard-Step b e {rest} = last_guard b e (halts rest e)

  after_change :
      (v : V) (rest : List V) (w : World E V X)
      → Ahead plan P R (v ∷ rest) w
      → Ahead plan P R rest (logged v w)
  after_change v rest w (p, h) = (p, h ∙ sym (append_assoc w.log (v ∷ []) rest))

  changed-Ahead :
      (v : V) (rest : List V) (replies : List (Reply E)) (w : World E V X)
      → Ahead plan P R (v ∷ rest) w
      → Outcome (λ _. Ahead plan P R rest) R (changed v replies w)
  changed-Ahead v rest [] w h = after_change v rest w h
  changed-Ahead v rest (fine ∷ later) w h = after_change v rest w h
  changed-Ahead v rest (differs ∷ later) w h = after_change v rest w h
  changed-Ahead v rest (raises e ∷ later) w h = halts (v ∷ rest) e (record w { replies = later }) h
  changed-Ahead v rest (applied e ∷ later) w h =
      halts rest e (logged v (record w { replies = later })) (after_change v rest w h)

  pub change-Step : (v : V) (rest : List V) → Step plan P R (v ∷ rest) rest (change v)
  unfolding change
  change-Step v rest = record { at = λ w h. changed-Ahead v rest w.replies w h }

  pub keep-Step :
      (f : X → X) {rest : List V}
      → ((x : X) → P x → P (f x))
      → Step plan P R rest rest (modify (set_own f))
  keep-Step f k = Ensures-modify _ (λ w h. (k w.own h.0, h.1))

-- What leaves a block whose resource is closed: `choose` picks between the exception under way and one
-- on closing.
abbrev pub after_close : {E A : Type 0} → (E → E → E) → Result E A → Result E Bool → Result E A
after_close choose (ok a) (ok b) = ok a
after_close choose (ok a) (err e) = err e
after_close choose (err p) (ok b) = err p
after_close choose (err p) (err e) = err (choose p e)

unfoldable pub with_close : {E V X A : Type 0} → (E → E → E) → Act E V X A → Act E V X A
unfolding ask
with_close choose m w = let (r, w') = m w in let (c, w'') = ask w' in (after_close choose r c, w'')

module _ {E V X A : Type 0} (plan : List V) (P : X → Type 0) (R : World E V X → Type 0)
    (halts : (rest : List V) (w : World E V X) → Ahead plan P (λ (_ : E). R) rest w → R w)
    (blind : (w : World E V X) (replies : List (Reply E))
      → R w
      → R (record w { replies = replies })) where
  abbrev Ends : List V → Result E A → World E V X → Type 0
  Ends rest r w = Outcome (λ _. Ahead plan P (λ (_ : E). R) rest) (λ _. R) (r, w)

  chosen :
      (rest : List V) (choose : E → E → E) (r : Result E A) (c : Result E Bool) (w : World E V X)
      → Ends rest r w
      → Ends rest (after_close choose r c) w
  chosen rest choose (ok a) (ok b) w h = h
  chosen rest choose (ok a) (err e) w h = halts rest w h
  chosen rest choose (err p) (ok b) w h = h
  chosen rest choose (err p) (err e) w h = h

  unseen :
      (rest : List V) (r : Result E A) (w : World E V X) (replies : List (Reply E))
      → Ends rest r w
      → Ends rest r (record w { replies = replies })
  unseen rest (ok a) w replies h = h
  unseen rest (err e) w replies h = blind w replies h

  replied :
      (rest : List V) (r : Result E A) (replies : List (Reply E)) (w : World E V X)
      → Ends rest r w
      → Ends rest r (asked replies w).1
  replied rest r [] w h = h
  replied rest r (fine ∷ later) w h = unseen rest r w later h
  replied rest r (differs ∷ later) w h = unseen rest r w later h
  replied rest r (raises e ∷ later) w h = unseen rest r w later h
  replied rest r (applied e ∷ later) w h = unseen rest r w later h

  pub with_close-Step :
      {before : World E V X → Type 0} {rest : List V} {m : Act E V X A} (choose : E → E → E)
      → Ensures before m (λ _. Ahead plan P (λ (_ : E). R) rest) (λ _. R)
      → Ensures before (with_close choose m) (λ _. Ahead plan P (λ (_ : E). R) rest) (λ _. R)
  unfolding with_close ask
  with_close-Step {before} {rest} {m} choose h = record {
    at = λ w p.
        let (r, w') = m w in
        chosen rest choose r (asked w'.replies w').0 (asked w'.replies w').1
          (replied rest r w'.replies w' (h.at w p));
  }
