-- ===== src/Media/Parts/Complete.antt =====
-- `media_part_total` counts exactly the complete sets of parts.
use anime_db.Base.{
  ℕ, ◌≤◌, ◌≡◌, refl, inl, inr, Bool, true, false, ◌&&◌, Option, some, List, [], ◌∷◌, All, any, elem,
  length, ltb, leb, ℕ_eq, if_ind, arith, Bool-cases,
}
use mathlib.Core.Path.{subst}
use anime_db.Media.Duplicates.{Video, Catalog}
use anime_db.Media.Parts.{
  unit_if, occurrences, maximum, all_up_to, total_of, active_media_part_videos, ordinals,
  media_part_total,
}
use anime_db.Media.Parts.Numbers.{
  IsComplete, elem-occurrences, occurrences-elem, any_at, le-maximum, maximum-elem, all_up_to-elem,
  all_up_to-of, numbers_of-positive, positive-elem, absent, two-le_maximum,
}

total_of-IsComplete :
    (ns : List ℕ) (n : ℕ) → All (λ n. 1 ≤ n) ns → total_of ns ≡ some n → (2 ≤ n) × IsComplete n ns
unfolding total_of
total_of-IsComplete ns n all h =
    if_ind (λ (z : Option ℕ). z ≡ some n → (2 ≤ n) × IsComplete n ns)
      (any (λ n. ltb 1 (occurrences n ns)) ns) (λ _ h1. cc)
      (λ once h1.
        if_ind (λ (z : Option ℕ). z ≡ some n → (2 ≤ n) × IsComplete n ns) (ltb (length ns) 2)
          (λ _ h2. cc)
          (λ long h2.
            if_ind (λ (z : Option ℕ). z ≡ some n → (2 ≤ n) × IsComplete n ns)
              (all_up_to (maximum ns) ns)
              (λ full h3.
                let top : maximum ns ≡ n = cc in
                subst (λ z. (2 ≤ z) × IsComplete z ns) top
                  (two-le_maximum ns all once long, complete once full))
              (λ _ h3. cc) h2)
          h1)
      h
  where
    once_only :
        (k c m : ℕ) → 1 ≤ k → k ≤ m → 1 ≤ c → ltb 1 c ≡ false → c ≡ unit_if (ltb 0 k && leb k m)
    once_only k c m low high least most = ground arith

    low_of : (k m : ℕ) → (ltb 0 k && leb k m) ≡ true → 1 ≤ k
    low_of k m h = ground arith

    high_of : (k m : ℕ) → (ltb 0 k && leb k m) ≡ true → k ≤ m
    high_of k m h = ground arith

    complete :
        any (λ n. ltb 1 (occurrences n ns)) ns ≡ false
        → all_up_to (maximum ns) ns ≡ true
        → IsComplete (maximum ns) ns
    complete once full k = elim (Bool-cases (elem k ns)) [
      | inl there ↦
          let low = positive-elem k ns all there in
          let high = le-maximum k ns there in
          let least = elem-occurrences k ns there in
          let most = any_at (λ n. ltb 1 (occurrences n ns)) k ns once there in
          once_only k (occurrences k ns) (maximum ns) low high least most
      | inr missing ↦
          let none_there = absent k ns missing in
          elim (Bool-cases (ltb 0 k && leb k (maximum ns))) [
            | inl inside ↦
                let found : elem k ns ≡ true =
                  all_up_to-elem (maximum ns) ns k full (low_of k (maximum ns) inside)
                    (high_of k (maximum ns) inside) in
                cc
            | inr outside ↦ rw (none_there, outside) refl
          ]
    ]

any_none : (p : ℕ → Bool) (ns : List ℕ) → ((k : ℕ) → p k ≡ false) → any p ns ≡ false
any_none p [] h = refl
any_none p (n ∷ ns) h = rw (h n) (any_none p ns h)

-- The two ways to read a complete set.
once_at : (k c n : ℕ) → c ≡ unit_if (ltb 0 k && leb k n) → ltb 1 c ≡ false
once_at k c n h = ground (arith, h)

inside_at : (k c n : ℕ) → c ≡ unit_if (ltb 0 k && leb k n) → 1 ≤ k → k ≤ n → 1 ≤ c
inside_at k c n h low high = ground (arith, h)

bound_at : (k c n : ℕ) → c ≡ unit_if (ltb 0 k && leb k n) → 1 ≤ c → k ≤ n
bound_at k c n h there = ground (arith, h)

module _ (ns : List ℕ) (n : ℕ) (two : 2 ≤ n) (full : IsComplete n ns) where
  is_there : (k : ℕ) → 1 ≤ k → k ≤ n → elem k ns ≡ true
  is_there k low high = occurrences-elem k ns (inside_at k (occurrences k ns) n (full k) low high)

maximum-le : (ns : List ℕ) (n : ℕ) → 2 ≤ n → IsComplete n ns → maximum ns ≤ n
maximum-le [] n two full = ground arith
maximum-le (x ∷ ns) n two full =
    bound_at (maximum (x ∷ ns)) (occurrences (maximum (x ∷ ns)) (x ∷ ns)) n
      (full (maximum (x ∷ ns))) (elem-occurrences (maximum (x ∷ ns)) (x ∷ ns) (maximum-elem x ns))

two-le_length : (ns : List ℕ) (n : ℕ) → 2 ≤ n → IsComplete n ns → ltb (length ns) 2 ≡ false
two-le_length [] n two full =
    let one = is_there [] n two full 1 (omega arith) (omega (arith, two)) in cc
two-le_length (x ∷ []) n two full =
    let first = is_there (x ∷ []) n two full 1 (omega arith) (omega (arith, two)) in
    let second = is_there (x ∷ []) n two full 2 (omega arith) two in ground (arith, first, second)
two-le_length (x ∷ y ∷ ns) n two full = ground arith

complete-total_of : (ns : List ℕ) (n : ℕ) → 2 ≤ n → IsComplete n ns → total_of ns ≡ some n
unfolding total_of
complete-total_of ns n two full =
    let once : any (λ k. ltb 1 (occurrences k ns)) ns ≡ false =
      any_none (λ k. ltb 1 (occurrences k ns)) ns (λ k. once_at k (occurrences k ns) n (full k)) in
    let long : ltb (length ns) 2 ≡ false = two-le_length ns n two full in
    let low : maximum ns ≤ n = maximum-le ns n two full in
    let high : n ≤ maximum ns =
      le-maximum n ns (is_there ns n two full n (omega (arith, two)) (omega arith)) in
    let top : maximum ns ≡ n = omega (arith, low, high) in
    let all : all_up_to n ns ≡ true = all_up_to-of n ns (is_there ns n two full) in
    rw (once, long, top, all) refl

-- Where the active part numbers are 1, …, n, each once, with n at least 2, the total is n.
pub IsComplete-media_part_total :
    (catalog : Catalog) (videos : List Video) (n : ℕ)
    → 2 ≤ n
    → IsComplete n (ordinals catalog videos)
    → media_part_total catalog videos ≡ some n
unfolding media_part_total
IsComplete-media_part_total catalog videos n = complete-total_of (ordinals catalog videos) n

-- `media_part_total` gives n exactly for a complete set: every number from 1 to n is the part number
-- of one active video of the title, and no active video has another one; n is at least 2.
pub media_part_total-IsComplete :
    (catalog : Catalog) (videos : List Video) (n : ℕ)
    → media_part_total catalog videos ≡ some n
    → (2 ≤ n) × IsComplete n (ordinals catalog videos)
unfolding media_part_total
media_part_total-IsComplete catalog videos n h =
    total_of-IsComplete (ordinals catalog videos) n
      (numbers_of-positive catalog (active_media_part_videos catalog videos)) h
