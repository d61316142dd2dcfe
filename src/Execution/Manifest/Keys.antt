-- ===== src/Execution/Manifest/Keys.antt =====
-- Identifiers of the manifest: their texts, equality, and the integers that a file may make negative.
use Prim.Native.Nat.{◌/◌, ◌%◌}
use anime_db.Base.{
  ℕ, zero, suc, ◌+◌, ◌-◌, String, Bool, true, false, [], ◌∷◌, if◌then◌else◌, nat_eq, leb, ◌==◌,
  String_eq, ℕ_eq, get_elem?, none, some,
}
use anime_db.Execution.Paths.{concat}
use anime_db.Execution.Platform.{Atom}
use anime_db.Execution.Manifest.{ObjectId, ℤ}

digit : ℕ → String
digit n =
    elim (get_elem? {A = String} ("0" ∷ "1" ∷ "2" ∷ "3" ∷ "4" ∷ "5" ∷ "6" ∷ "7" ∷ "8" ∷ "9" ∷ [])
      n) [ some d ↦ d | none ↦ "" ]

-- `str(n)`: a number has at most as many digits as its successor has units.
decimal_from : ℕ → ℕ → String → String
unfolding digit concat
decimal_from zero n tail = tail
decimal_from (suc fuel) n tail =
    let shown = concat (digit (n % 10)) tail in
    let rest = decimal_from fuel (n / 10) shown in if nat_eq (n / 10) 0 then shown else rest

unfoldable pub decimal : ℕ → String
unfolding decimal_from
decimal n = decimal_from (suc n) n ""

-- `str(object_id)`
unfoldable pub id_text : ObjectId → String
unfolding decimal
id_text (ObjectId.num n) = decimal n
id_text (ObjectId.name s) = s

abbrev pub id_atom : ObjectId → Atom
id_atom (ObjectId.num n) = Atom.num n
id_atom (ObjectId.name s) = Atom.text s

abbrev pub id_eq : ObjectId → ObjectId → Bool
id_eq (ObjectId.num a) (ObjectId.num b) = nat_eq a b
id_eq (ObjectId.num a) (ObjectId.name b) = false
id_eq (ObjectId.name a) (ObjectId.num b) = false
id_eq (ObjectId.name a) (ObjectId.name b) = a == b

abbrev pub ℤ_eq : ℤ → ℤ → Bool
ℤ_eq (ℤ.pos a) (ℤ.pos b) = nat_eq a b
ℤ_eq (ℤ.pos a) (ℤ.negsuc b) = false
ℤ_eq (ℤ.negsuc a) (ℤ.pos b) = false
ℤ_eq (ℤ.negsuc a) (ℤ.negsuc b) = nat_eq a b

abbrev pub negative : ℤ → Bool
negative (ℤ.pos n) = false
negative (ℤ.negsuc n) = true

infixl 65 ◌+ℤ◌
abbrev pub ◌+ℤ◌ : ℤ → ℤ → ℤ
ℤ.pos a +ℤ ℤ.pos b = ℤ.pos (a + b)
ℤ.pos a +ℤ ℤ.negsuc b = if leb (suc b) a then ℤ.pos (a - suc b) else ℤ.negsuc (b - a)
ℤ.negsuc a +ℤ ℤ.pos b = if leb (suc a) b then ℤ.pos (b - suc a) else ℤ.negsuc (a - b)
ℤ.negsuc a +ℤ ℤ.negsuc b = ℤ.negsuc (suc (a + b))
