-- ===== src/Naming/Numbers.antt =====
-- `f"{n:02d}"` of a positive number, and `(?:0[1-9]|[1-9][0-9]+)` with `int`.
use Prim.Native.Nat.{◌/◌, ◌%◌}
use anime_db.Base.{
  ℕ, zero, suc, Bool, true, false, not, ◌≡◌, refl, ◌≤◌, ◌<◌, ◌+◌, ◌-◌, ◌*◌, Option, none, some, [],
  ◌∷◌, ◌++◌, All, length, nat_eq, ltb, leb, if◌then◌else◌, arith, ◌||◌, if_ind, Bool-cases,
  nat_eq_iff, inl, inr, sym, ◌∙◌, ap,
}
use mathlib.Core.Path.{subst}
use anime_db.Naming.Text.{Text, is_digit, span_digits, starts_digit, span_digits-append}

-- The digits of `n` in front of `out`; `n` rounds are enough.
abbrev pub emit : ℕ → ℕ → Text → Text
emit zero n out = out
emit (suc fuel) n out =
    let more = emit fuel (n / 10) ((b'0' + n % 10) ∷ out) in if nat_eq n 0 then out else more

unfoldable pub two_digits : ℕ → Text
two_digits n = if ltb n 10 then b'0' ∷ (b'0' + n) ∷ [] else emit n n []

abbrev pub value : ℕ → Text → ℕ
value n [] = n
value n (c ∷ t) = value (n * 10 + (c - b'0')) t

-- Digits that the pattern matches as a whole
abbrev pub matches_integer : Text → Bool
matches_integer [] = false
matches_integer (c ∷ []) = false
matches_integer (c ∷ d ∷ []) = not (nat_eq c b'0') || leb b'1' d
matches_integer (c ∷ d ∷ e ∷ rest) = not (nat_eq c b'0')

abbrev pub read : Text × Text → Option (ℕ × Text)
read (ds, rest) = if matches_integer ds then some (value 0 ds, rest) else none

-- A number in front; what follows it in the grammar is never a digit.
unfoldable pub number : Text → Option (ℕ × Text)
number t = read (span_digits t)

abbrev pub Digits : Text → Type 0
Digits = All (λ c. is_digit c ≡ true)

emit-Digits : (fuel n : ℕ) (out : Text) → Digits out → Digits (emit fuel n out)
emit-Digits zero n out h = h
emit-Digits (suc fuel) n out h =
    if_ind Digits (nat_eq n 0) (λ _. h)
      (λ _. emit-Digits fuel (n / 10) ((b'0' + n % 10) ∷ out) (ground arith, h))

value-emit : (fuel n : ℕ) (out : Text) → n ≤ fuel → value 0 (emit fuel n out) ≡ value n out
value-emit zero n out h = let is : n ≡ 0 = omega (arith, h) in rw is refl
value-emit (suc fuel) n out h =
    let ih = value-emit fuel (n / 10) ((b'0' + n % 10) ∷ out) in ground (arith, ih)

abbrev heads : Text → Bool
heads [] = false
heads (c ∷ t) = not (nat_eq c b'0')

emit-zero : (fuel : ℕ) (out : Text) → emit fuel 0 out ≡ out
emit-zero zero out = refl
emit-zero (suc fuel) out = refl

emit-positive :
    (fuel n : ℕ) (out : Text)
    → 0 < n
    → emit (suc fuel) n out ≡ emit fuel (n / 10) ((b'0' + n % 10) ∷ out)
emit-positive fuel n out h = let apart : nat_eq n 0 ≡ false = ground (arith, h) in rw apart refl

heads-emit : (fuel n : ℕ) (out : Text) → 0 < n → n ≤ fuel → heads (emit fuel n out) ≡ true
heads-emit zero n out positive h = absurd (omega (arith, h, positive))
heads-emit (suc fuel) n out positive h = elim (Bool-cases (nat_eq (n / 10) 0)) [
  | inl last ↦
      let is : n / 10 ≡ 0 = (nat_eq_iff _ _).0 last in
      let one : heads (emit fuel 0 ((b'0' + n % 10) ∷ out)) ≡ true =
        rw (emit-zero fuel ((b'0' + n % 10) ∷ out)) (ground (arith, is, positive)) in
      rw (emit-positive fuel n out positive, is) one
  | inr more ↦ rw (emit-positive fuel n out positive) (
      heads-emit fuel (n / 10) ((b'0' + n % 10) ∷ out) (ground (arith, more))
        (omega (arith, h, positive)))
]

length-emit : (fuel n : ℕ) (out : Text) → length out ≤ length (emit fuel n out)
length-emit zero n out = omega arith
length-emit (suc fuel) n out =
    let ih = length-emit fuel (n / 10) ((b'0' + n % 10) ∷ out) in
    if_ind (λ t. length out ≤ length t) (nat_eq n 0) (λ _. omega arith) (λ _. omega (arith, ih))

long-emit : (fuel n : ℕ) → 10 ≤ n → n ≤ fuel → 2 ≤ length (emit fuel n [])
long-emit zero n big h = absurd (omega (arith, big, h))
long-emit (suc zero) n big h = absurd (omega (arith, big, h))
long-emit (suc (suc fuel)) n big h =
    rw
      (
        emit-positive (suc fuel) n [] (omega (arith, big)),
        emit-positive fuel (n / 10) ((b'0' + n % 10) ∷ []) (omega (arith, big)),
      )
      (length-emit fuel (n / 10 / 10) _)

matches-heads : (t : Text) → heads t ≡ true → 2 ≤ length t → matches_integer t ≡ true
matches-heads [] h long = h
matches-heads (c ∷ []) h long = absurd (omega (arith, long))
matches-heads (c ∷ d ∷ []) h long = ground (arith, h)
matches-heads (c ∷ d ∷ e ∷ rest) h long = h

number-Digits :
    (ds rest : Text)
    → Digits ds
    → starts_digit rest ≡ false
    → matches_integer ds ≡ true
    → number (ds ++ rest) ≡ some (value 0 ds, rest)
unfolding number
number-Digits ds rest digits ends fits = rw (span_digits-append ds rest digits ends, fits) refl

-- A number that is printed is read back, whatever follows it but a digit.
pub number-two_digits :
    (n : ℕ) (rest : Text)
    → 0 < n
    → starts_digit rest ≡ false
    → number (two_digits n ++ rest) ≡ some (n, rest)
unfolding two_digits
number-two_digits n rest positive ends = elim (Bool-cases (ltb n 10)) [
  | inl small ↦
      let ds : Text = b'0' ∷ (b'0' + n) ∷ [] in
      let below : n < 10 = ground (arith, small) in
      let digit : is_digit (b'0' + n) ≡ true = ground (arith, below) in
      let fits : matches_integer ds ≡ true = ground (arith, positive) in
      let is : value 0 ds ≡ n = omega arith in
      let printed : two_digits n ≡ ds = rw small refl in
      subst (λ t. number (t ++ rest) ≡ some (n, rest)) (sym printed)
        (number-Digits ds rest (refl, (digit, tt)) ends fits ∙ ap (λ v. some (v, rest)) is)
  | inr large ↦
      let big : 10 ≤ n = ground (arith, large) in
      let ds : Text = emit n n [] in
      let fits =
        matches-heads ds (heads-emit n n [] positive (omega arith))
          (long-emit n n big (omega arith)) in
      let printed : two_digits n ≡ ds = rw large refl in
      subst (λ t. number (t ++ rest) ≡ some (n, rest)) (sym printed)
        (number-Digits ds rest (emit-Digits n n [] tt) ends fits
          ∙ ap (λ v. some (v, rest)) (value-emit n n [] (omega arith)))
]

pub two_digits-Digits : (n : ℕ) → Digits (two_digits n)
unfolding two_digits
two_digits-Digits n =
    if_ind Digits (ltb n 10)
      (λ small.
        let below : n < 10 = ground (arith, small) in
        let digit : is_digit (b'0' + n) ≡ true = ground (arith, below) in (refl, (digit, tt)))
      (λ _. emit-Digits n n [] tt)
