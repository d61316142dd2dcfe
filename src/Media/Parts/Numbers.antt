-- ===== src/Media/Parts/Numbers.antt =====
-- Lists of part numbers: occurrences, maximum, and what a complete list is.
use anime_db.Base.{
  ℕ, zero, suc, ◌≤◌, ◌≡◌, refl, inl, inr, Bool, true, false, ◌&&◌, Option, none, some, List, [],
  ◌∷◌, All, any, elem, length, nat_eq, ltb, leb, ℕ_eq, if_ind, arith, Bool-cases, and_split,
}
use mathlib.Core.Path.{subst}
use anime_db.Execution.Manifest.{ℤ}
use anime_db.Media.Duplicates.{Video, Catalog}
use anime_db.Media.Parts.{
  ordinal_of, put_ordinal, unit_if, occurrences, maximum, all_up_to, numbers_of,
}

-- The numbers are 1, …, n, each of them once.
abbrev pub IsComplete : ℕ → List ℕ → Type 0
IsComplete n ns = (k : ℕ) → occurrences k ns ≡ unit_if (ltb 0 k && leb k n)

pub elem-occurrences : (k : ℕ) (ns : List ℕ) → elem k ns ≡ true → 1 ≤ occurrences k ns
elem-occurrences k [] h = cc
elem-occurrences k (n ∷ ns) h = elim (Bool-cases (nat_eq n k)) [
  | inl same ↦ rw same (ground arith)
  | inr other ↦ ground (arith, elem-occurrences k ns (ground (arith, h, other)))
]

pub occurrences-elem : (k : ℕ) (ns : List ℕ) → 1 ≤ occurrences k ns → elem k ns ≡ true
occurrences-elem k [] h = ground arith
occurrences-elem k (n ∷ ns) h = elim (Bool-cases (nat_eq n k)) [
  | inl same ↦ rw same refl
  | inr other ↦ ground (arith, other, occurrences-elem k ns (ground (arith, h, other)))
]

pub any_at :
    (p : ℕ → Bool) (k : ℕ) (ns : List ℕ) → any p ns ≡ false → elem k ns ≡ true → p k ≡ false
any_at p k [] none_of there = cc
any_at p k (n ∷ ns) none_of there = elim (Bool-cases (nat_eq n k)) [
  | inl same ↦
      let is : n ≡ k = ground (arith, same) in subst (λ z. p z ≡ false) is (ground (arith, none_of))
  | inr other ↦ any_at p k ns (ground (arith, none_of)) (ground (arith, there, other))
]

pub le-maximum : (k : ℕ) (ns : List ℕ) → elem k ns ≡ true → k ≤ maximum ns
le-maximum k [] h = cc
le-maximum k (n ∷ ns) h = elim (Bool-cases (nat_eq n k)) [
  | inl same ↦ ground (arith, same)
  | inr other ↦ ground (arith, le-maximum k ns (ground (arith, h, other)))
]

pub elem_later : (k n : ℕ) (ns : List ℕ) → elem k ns ≡ true → elem k (n ∷ ns) ≡ true
elem_later k n ns h = ground (arith, h)

pub elem_here : (n : ℕ) (ns : List ℕ) → elem n (n ∷ ns) ≡ true
elem_here n ns = let self : nat_eq n n ≡ true = ground arith in rw self refl

pub maximum-elem : (n : ℕ) (ns : List ℕ) → elem (maximum (n ∷ ns)) (n ∷ ns) ≡ true
maximum-elem n [] = ground arith
maximum-elem n (m ∷ ns) =
    if_ind (λ z. elem z (n ∷ m ∷ ns) ≡ true) (leb n (maximum (m ∷ ns)))
      (λ _. elem_later (maximum (m ∷ ns)) n (m ∷ ns) (maximum-elem m ns))
      (λ _. elem_here n (m ∷ ns))

pub all_up_to-elem :
    (n : ℕ) (ns : List ℕ) (k : ℕ) → all_up_to n ns ≡ true → 1 ≤ k → k ≤ n → elem k ns ≡ true
all_up_to-elem zero ns k all low high = ground arith
all_up_to-elem (suc n) ns k all low high = elim (Bool-cases (nat_eq (suc n) k)) [
  | inl same ↦
      let is : suc n ≡ k = ground (arith, same) in
      subst (λ z. elem z ns ≡ true) is (and_split (elem (suc n) ns) _ all).0
  | inr other ↦
      all_up_to-elem n ns k (and_split (elem (suc n) ns) _ all).1 low (ground (arith, other, high))
]

pub all_up_to-of :
    (n : ℕ) (ns : List ℕ) → ((k : ℕ) → 1 ≤ k → k ≤ n → elem k ns ≡ true) → all_up_to n ns ≡ true
all_up_to-of zero ns h = refl
all_up_to-of (suc n) ns h =
    let top = h (suc n) (omega arith) (omega arith) in
    let rest = all_up_to-of n ns (λ k low high. h k low (omega (arith, high))) in
    ground (arith, top, rest)

pub ordinal-positive : (value : Option ℤ) (k : ℕ) → ordinal_of value ≡ some k → 1 ≤ k
ordinal-positive none k h = cc
ordinal-positive (some (ℤ.pos zero)) k h = cc
ordinal-positive (some (ℤ.negsuc n)) k h = cc
ordinal-positive (some (ℤ.pos (suc n))) k h = let is : suc n ≡ k = cc in omega (arith, is)

pub numbers_of-positive :
    (catalog : Catalog) (videos : List Video) → All (λ n. 1 ≤ n) (numbers_of catalog videos)
numbers_of-positive catalog [] = tt
numbers_of-positive catalog (v ∷ videos) =
    go (ordinal_of v.media_part_number) (ordinal-positive v.media_part_number)
      (numbers_of-positive catalog videos)
  where
    go :
        (n : Option ℕ)
        → ((k : ℕ) → n ≡ some k → 1 ≤ k)
        → All (λ n. 1 ≤ n) (numbers_of catalog videos)
        → All (λ n. 1 ≤ n) (put_ordinal n (numbers_of catalog videos))
    go none h rest = rest
    go (some n) h rest = (h n refl, rest)

pub positive-elem : (k : ℕ) (ns : List ℕ) → All (λ n. 1 ≤ n) ns → elem k ns ≡ true → 1 ≤ k
positive-elem k [] all h = cc
positive-elem k (n ∷ ns) all h = elim (Bool-cases (nat_eq n k)) [
  | inl same ↦ ground (arith, same, all.0)
  | inr other ↦ positive-elem k ns all.1 (ground (arith, h, other))
]

pub absent : (k : ℕ) (ns : List ℕ) → elem k ns ≡ false → occurrences k ns ≡ 0
absent k [] h = refl
absent k (n ∷ ns) h = ground (arith, h, absent k ns (ground (arith, h)))

-- At least two different positive numbers.
pub two-le_maximum :
    (ns : List ℕ)
    → All (λ n. 1 ≤ n) ns
    → any (λ n. ltb 1 (occurrences n ns)) ns ≡ false
    → ltb (length ns) 2 ≡ false
    → 2 ≤ maximum ns
two-le_maximum [] all once long = ground (arith, long)
two-le_maximum (x ∷ []) all once long = ground (arith, long)
two-le_maximum (x ∷ y ∷ ns) all once long =
    let x_low = le-maximum x (x ∷ y ∷ ns) (elem_here x (y ∷ ns)) in
    let y_low = le-maximum y (x ∷ y ∷ ns) (elem_later y x (y ∷ ns) (elem_here y ns)) in
    let single : ltb 1 (occurrences x (x ∷ y ∷ ns)) ≡ false =
      any_at (λ n. ltb 1 (occurrences n (x ∷ y ∷ ns))) x (x ∷ y ∷ ns) once (elem_here x (y ∷ ns)) in
    let apart : nat_eq y x ≡ false = different x y ns single in
    two (maximum (x ∷ y ∷ ns)) x y x_low y_low all.0 all.1.0 apart
  where
    different :
        (x y : ℕ) (ns : List ℕ) → ltb 1 (occurrences x (x ∷ y ∷ ns)) ≡ false → nat_eq y x ≡ false
    different x y ns h = elim (Bool-cases (nat_eq y x)) [
      | inl same ↦
          let self : nat_eq x x ≡ true = ground arith in
          let twice : occurrences x (x ∷ y ∷ ns) ≡ suc (suc (occurrences x ns)) =
            rw (self, same) (omega arith) in
          let yes : ltb 1 (suc (suc (occurrences x ns))) ≡ true = ground arith in cc
      | inr apart ↦ apart
    ]

    two : (m x y : ℕ) → x ≤ m → y ≤ m → 1 ≤ x → 1 ≤ y → nat_eq y x ≡ false → 2 ≤ m
    two m x y a b c d apart = ground arith
