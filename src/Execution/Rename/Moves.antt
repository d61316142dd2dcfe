-- ===== src/Execution/Rename/Moves.antt =====
-- What `renameat2` does to the directory entries.
use anime_db.Base.{
  ℕ, ◌≡◌, refl, ap, ◌↔◌, inl, inr, true, false, Option, none, some, List, [], ◌∷◌, nat_eq,
  nat_eq_iff, ◌==◌, String_eq, Bool-cases, and_split, and_both,
}
use mathlib.Core.Path.{subst}
use anime_db.Base.Effects.{Outcome}
use anime_db.Execution.Rename.Files.{
  Location, location_eq, Disk, lookup, erase, place_at, renameat2,
}

pub location_eq_iff : (k l : Location) → (location_eq k l ≡ true) ↔ (k ≡ l)
location_eq_iff (d, n) (e, m) = (
  λ h.
      let (p, q) = and_split (nat_eq d e) (n == m) h in
      let directory = (nat_eq_iff d e).0 p in let name = (String_eq.decides n m).0 q in cc,
  λ h.
      and_both ((nat_eq_iff d e).1 (ap (λ (l : Location). l.0) h))
        ((String_eq.decides n m).1 (ap (λ (l : Location). l.1) h)),
)

pub location_eq_refl : (l : Location) → location_eq l l ≡ true
location_eq_refl l = (location_eq_iff l l).1 refl

pub lookup-erase_self : (l : Location) (es : List (Location × ℕ)) → lookup l (erase l es) ≡ none
lookup-erase_self l [] = refl
lookup-erase_self l ((k, inode) ∷ rest) = elim (Bool-cases (location_eq l k)) [
  | inl same ↦ rw same (lookup-erase_self l rest)
  | inr other ↦ rw other (rw other (lookup-erase_self l rest))
]

pub lookup-erase_other :
    (l k : Location) (es : List (Location × ℕ))
    → location_eq k l ≡ false
    → lookup k (erase l es) ≡ lookup k es
lookup-erase_other l k [] differ = refl
lookup-erase_other l k ((j, inode) ∷ rest) differ = elim (Bool-cases (location_eq l j)) [
  | inl same ↦
      let is : l ≡ j = (location_eq_iff l j).0 same in
      let apart : location_eq k j ≡ false = subst (λ z. location_eq k z ≡ false) is differ in
      rw same (rw apart (lookup-erase_other l k rest differ))
  | inr other ↦ elim (Bool-cases (location_eq k j)) [
    | inl here ↦ rw other (rw here refl)
    | inr apart ↦ rw other (rw apart (lookup-erase_other l k rest differ))
  ]
]

-- The file moved from a place to a free one, and every other entry is as it was.
pub record Moved (source target : Location) (inode : ℕ) (before after : List (Location × ℕ))
    : Type 0 where
  pub found : lookup source before ≡ some inode
  pub free : lookup target before ≡ none
  pub arrived : lookup target after ≡ some inode
  pub gone : lookup source after ≡ none
  pub others :
      (l : Location)
      → location_eq l source ≡ false
      → location_eq l target ≡ false
      → lookup l after ≡ lookup l before

abbrev pub SomeMove : Location → Location → Disk → Disk → Type 0
SomeMove source target d d' = (inode : ℕ) × Moved source target inode d.entries d'.entries

pub placed-Moved :
    (source target : Location) (inode : ℕ) (d : Disk)
    → lookup source d.entries ≡ some inode
    → lookup target d.entries ≡ none
    → Moved source target inode d.entries (place_at source target (some inode) none d).1.entries
placed-Moved source target inode d is there =
    let apart : location_eq source target ≡ false = elim (Bool-cases (location_eq source target)) [
      | inl same ↦
          let one : source ≡ target = (location_eq_iff source target).0 same in
          let both : lookup target d.entries ≡ some inode =
            subst (λ z. lookup z d.entries ≡ some inode) one is in
          cc
      | inr differ ↦ differ
    ] in
    record {
      found = is;
      free = there;
      arrived = let self = location_eq_refl target in rw self refl;
      gone = rw apart (lookup-erase_self source d.entries);
      others = λ l off on. rw on (lookup-erase_other source l d.entries off);
    }

place_at-Moved :
    (source target : Location) (held free : Option ℕ) (d : Disk)
    → lookup source d.entries ≡ held
    → lookup target d.entries ≡ free
    → Outcome
        (λ _ d'. SomeMove source target d d')
        (λ _ d'. d' ≡ d)
        (place_at source target held free d)
place_at-Moved source target held (some other) d is there = refl
place_at-Moved source target none none d is there = refl
place_at-Moved source target (some inode) none d is there =
    (inode, placed-Moved source target inode d is there)

-- The call moves the file or changes nothing.
pub renameat2-Moved :
    (source target : Location) (d : Disk)
    → Outcome (λ _ d'. SomeMove source target d d') (λ _ d'. d' ≡ d) (renameat2 source target d)
unfolding renameat2
renameat2-Moved source target d =
    place_at-Moved source target (lookup source d.entries) (lookup target d.entries) d refl refl
