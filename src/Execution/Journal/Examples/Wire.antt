-- ===== src/Execution/Journal/Examples/Wire.antt =====
-- A concrete codec for the examples: every value becomes numbers other than the newline's.
use Prim.Native.Char.{Char, char, code, nul, IsLt}
use Prim.Native.Nat.{compare, Ordering}
use package.text.Mathlib.TextEquality.{Char-path}
use anime_db.Base.{
  ℕ, zero, suc, ◌+◌, ◌-◌, String, ◌≡◌, refl, ap, ◌∙◌, ◌⊎◌, inl, inr, Bool, true, false, not, Option,
  none, some, List, [], ◌∷◌, all, nat_eq, arith,
}

-- No value is written with a newline.
abbrev pub plain : ℕ → Bool
plain c = not (nat_eq c 10)

pub record Coder (A : Type 0) : Type 0 where
  pub put : A → List ℕ → List ℕ
  pub get : List ℕ → Option (A × List ℕ)
  pub get-put : (a : A) (rest : List ℕ) → get (put a rest) ≡ some (a, rest)
  pub put-plain : (a : A) (rest : List ℕ) → all plain rest ≡ true → all plain (put a rest) ≡ true

abbrev get_number : List ℕ → Option (ℕ × List ℕ)
get_number [] = none
get_number (b ∷ rest) = some (b - 11, rest)

pub number_back : (n : ℕ) → (n + 11) - 11 ≡ n
number_back n = omega arith

pub number_plain : (n : ℕ) → plain (n + 11) ≡ true
number_plain n = ground arith

abbrev pub number : Coder ℕ
number = record {
  put = λ n rest. (n + 11) ∷ rest;
  get = get_number;
  get-put = λ n rest. ap (λ z. some (z, rest)) (number_back n);
  put-plain = λ n rest h. rw (number_plain n) h;
}

module _ {A B : Type 0} where
  abbrev map_get : (A → B) → Option (A × List ℕ) → Option (B × List ℕ)
  map_get f none = none
  map_get f (some (a, rest)) = some (f a, rest)

  abbrev pub convert : (f : A → B) (g : B → A) → ((b : B) → f (g b) ≡ b) → Coder A → Coder B
  convert f g back c = record {
    put = λ b. c.put (g b);
    get = λ bytes. map_get f (c.get bytes);
    get-put = λ b rest. ap (map_get f) (c.get-put (g b) rest) ∙ ap (λ z. some (z, rest)) (back b);
    put-plain = λ b. c.put-plain (g b);
  }

  abbrev add_first : A → Option (B × List ℕ) → Option ((A × B) × List ℕ)
  add_first a none = none
  add_first a (some (b, rest)) = some ((a, b), rest)

  abbrev get_pair : Coder B → Option (A × List ℕ) → Option ((A × B) × List ℕ)
  get_pair d none = none
  get_pair d (some (a, rest)) = add_first a (d.get rest)

  infixr 30 ◌then◌
  abbrev pub ◌then◌ : Coder A → Coder B → Coder (A × B)
  c then d = record {
    put = λ x rest. c.put x.0 (d.put x.1 rest);
    get = λ bytes. get_pair d (c.get bytes);
    get-put = λ x rest.
        ap (get_pair d) (c.get-put x.0 (d.put x.1 rest)) ∙ ap (add_first x.0) (d.get-put x.1 rest);
    put-plain = λ x rest h. c.put-plain x.0 _ (d.put-plain x.1 rest h);
  }

  abbrev put_either : Coder A → Coder B → A ⊎ B → List ℕ → List ℕ
  put_either c d (inl a) rest = 0 ∷ c.put a rest
  put_either c d (inr b) rest = 1 ∷ d.put b rest

  abbrev get_either : Coder A → Coder B → List ℕ → Option ((A ⊎ B) × List ℕ)
  get_either c d [] = none
  get_either c d (zero ∷ rest) = elim (c.get rest) [
    | none ↦ none
    | some (a, more) ↦ some (inl a, more)
  ]
  get_either c d (suc _ ∷ rest) = elim (d.get rest) [
    | none ↦ none
    | some (b, more) ↦ some (inr b, more)
  ]

  pub get_either-put_either :
      (c : Coder A) (d : Coder B) (x : A ⊎ B) (rest : List ℕ)
      → get_either c d (put_either c d x rest) ≡ some (x, rest)
  get_either-put_either c d (inl a) rest = rw (c.get-put a rest) refl
  get_either-put_either c d (inr b) rest = rw (d.get-put b rest) refl

  pub put_either-plain :
      (c : Coder A) (d : Coder B) (x : A ⊎ B) (rest : List ℕ)
      → all plain rest ≡ true
      → all plain (put_either c d x rest) ≡ true
  put_either-plain c d (inl a) rest h = c.put-plain a rest h
  put_either-plain c d (inr b) rest h = d.put-plain b rest h

  infixr 20 ◌or◌
  abbrev pub ◌or◌ : Coder A → Coder B → Coder (A ⊎ B)
  c or d = record {
    put = put_either c d;
    get = get_either c d;
    get-put = get_either-put_either c d;
    put-plain = put_either-plain c d;
  }

abbrev pub nothing : Coder (Unit {0})
nothing = record {
  put = λ _ rest. rest;
  get = λ bytes. some (tt, bytes);
  get-put = λ _ rest. refl;
  put-plain = λ _ rest h. h;
}

module _ {A : Type 0} where
  abbrev to_option : (Unit {0}) ⊎ A → Option A
  to_option (inl _) = none
  to_option (inr a) = some a

  abbrev of_option : Option A → (Unit {0}) ⊎ A
  of_option none = inl tt
  of_option (some a) = inr a

  pub to_option-of_option : (o : Option A) → to_option (of_option o) ≡ o
  to_option-of_option none = refl
  to_option-of_option (some a) = refl

  abbrev pub optional : Coder A → Coder (Option A)
  optional c = convert to_option of_option to_option-of_option (nothing or c)

abbrev to_bool : ℕ → Bool
to_bool zero = false
to_bool (suc _) = true

abbrev of_bool : Bool → ℕ
of_bool false = 0
of_bool true = 1

pub to_bool-of_bool : (b : Bool) → to_bool (of_bool b) ≡ b
to_bool-of_bool false = refl
to_bool-of_bool true = refl

abbrev pub boolean : Coder Bool
boolean = convert to_bool of_bool to_bool-of_bool number

-- The character with a number; NUL where there is none.
unfoldable pub char_at :
    (n : ℕ) (low above high : Ordering)
    → compare n 55296 ≡ low
    → compare 57343 n ≡ above
    → compare n 1114112 ≡ high
    → Char
char_at n Ordering.lt above high p q r = char n (rw p tt)
char_at n Ordering.eq above high p q r = nul
char_at n Ordering.gt Ordering.lt Ordering.lt p q r = char n (rw (p, q, r) tt)
char_at n Ordering.gt Ordering.lt Ordering.eq p q r = nul
char_at n Ordering.gt Ordering.lt Ordering.gt p q r = nul
char_at n Ordering.gt Ordering.eq high p q r = nul
char_at n Ordering.gt Ordering.gt high p q r = nul

abbrev to_char : ℕ → Char
to_char n = char_at n (compare n 55296) (compare 57343 n) (compare n 1114112) refl refl refl

abbrev BothLt : Ordering → Ordering → Type 0
BothLt Ordering.lt high = IsLt high
BothLt Ordering.eq high = ⊥
BothLt Ordering.gt high = ⊥

-- `IsScalar n`, by the three comparisons
abbrev Scalar : Ordering → Ordering → Ordering → Type 0
Scalar Ordering.lt above high = Unit
Scalar Ordering.eq above high = BothLt above high
Scalar Ordering.gt above high = BothLt above high

code-char_at :
    (n : ℕ) (low above high : Ordering) (p : compare n 55296 ≡ low) (q : compare 57343 n ≡ above)
    (r : compare n 1114112 ≡ high)
    → Scalar low above high
    → code (char_at n low above high p q r) ≡ n
unfolding char_at
code-char_at n Ordering.lt above high p q r s = refl
code-char_at n Ordering.eq Ordering.lt Ordering.lt p q r s = ground arith
code-char_at n Ordering.eq Ordering.lt Ordering.eq p q r s = elim s [ ]
code-char_at n Ordering.eq Ordering.lt Ordering.gt p q r s = elim s [ ]
code-char_at n Ordering.eq Ordering.eq high p q r s = elim s [ ]
code-char_at n Ordering.eq Ordering.gt high p q r s = elim s [ ]
code-char_at n Ordering.gt Ordering.lt Ordering.lt p q r s = refl
code-char_at n Ordering.gt Ordering.lt Ordering.eq p q r s = elim s [ ]
code-char_at n Ordering.gt Ordering.lt Ordering.gt p q r s = elim s [ ]
code-char_at n Ordering.gt Ordering.eq high p q r s = elim s [ ]
code-char_at n Ordering.gt Ordering.gt high p q r s = elim s [ ]

to_char-code : (c : Char) → to_char (code c) ≡ c
to_char-code (char n s) =
    Char-path (to_char n) (char n s)
      (code-char_at n (compare n 55296) (compare 57343 n) (compare n 1114112) refl refl refl s)

ten_back : (n : ℕ) → (n + 10) - 10 ≡ n
ten_back n = omega arith

char_plain : (n : ℕ) → plain (suc (n + 10)) ≡ true
char_plain n = ground arith

abbrev put_text : String → List ℕ → List ℕ
put_text String.[] rest = 0 ∷ rest
put_text (String.◌∷◌ c s) rest = suc (code c + 10) ∷ put_text s rest

abbrev add_char : Char → Option (String × List ℕ) → Option (String × List ℕ)
add_char c none = none
add_char c (some (s, rest)) = some (String.◌∷◌ c s, rest)

abbrev get_text : List ℕ → Option (String × List ℕ)
get_text [] = none
get_text (zero ∷ rest) = some ("", rest)
get_text (suc b ∷ rest) = add_char (to_char (b - 10)) (get_text rest)

pub get_text-put_text : (s : String) (rest : List ℕ) → get_text (put_text s rest) ≡ some (s, rest)
get_text-put_text String.[] rest = refl
get_text-put_text (String.◌∷◌ c s) rest =
    ap (add_char (to_char ((code c + 10) - 10))) (get_text-put_text s rest)
    ∙ ap (λ n. some (String.◌∷◌ (to_char n) s, rest)) (ten_back (code c))
    ∙ ap (λ d. some (String.◌∷◌ d s, rest)) (to_char-code c)

pub put_text-plain :
    (s : String) (rest : List ℕ) → all plain rest ≡ true → all plain (put_text s rest) ≡ true
put_text-plain String.[] rest h = h
put_text-plain (String.◌∷◌ c s) rest h = rw (char_plain (code c)) (put_text-plain s rest h)

abbrev pub texts : Coder String
texts = record {
  put = put_text;
  get = get_text;
  get-put = get_text-put_text;
  put-plain = put_text-plain;
}
