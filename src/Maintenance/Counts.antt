-- ===== src/Maintenance/Counts.antt =====
-- Counting the open leases borrowed from an owner.
use mathlib.Core.Path.{subst}
use anime_db.Base.{
  ℕ, ◌+◌, ◌<◌, ◌≡◌, refl, ◌∙◌, inl, inr, Bool, true, false, Option, some, List, [], ◌∷◌, All, Any,
  if◌then◌else◌, nat_eq, if_ind, arith, nat_eq_iff,
}
use anime_db.Maintenance.Update.{Lease, Borrow, find, update, remove, find_borrow, drop_borrow}
use anime_db.Maintenance.{Host}

abbrev pub unit_if : Bool → ℕ
unit_if true = 1
unit_if false = 0

-- How many open borrowed leases have this owner.
abbrev pub count : ℕ → List Borrow → ℕ
count id [] = 0
count id (b ∷ borrows) = unit_if (nat_eq b.owner id) + count id borrows

abbrev pub IsOpen : ℕ → List Lease → Type 0
IsOpen id leases = Any (λ l. l.id ≡ id) leases

pub record Balanced (host : Host) : Type 0 where
  pub counted : All (λ l. l.borrowers ≡ count l.id host.borrows) host.leases
  pub owned : All (λ b. IsOpen b.owner host.leases) host.borrows
  pub known : All (λ l. l.id < host.next) host.leases

pub find-All :
    (P : Lease → Type 0) (id : ℕ) (leases : List Lease) (l : Lease)
    → All P leases
    → find id leases ≡ some l
    → P l × (l.id ≡ id)
find-All P id [] l all h = cc
find-All P id (x ∷ leases) l all h =
    if_ind (λ (z : Option Lease). z ≡ some l → P l × (l.id ≡ id)) (nat_eq x.id id)
      (λ same h'.
        let is : x ≡ l = cc in
        (subst P is all.0, subst (λ z. z.id ≡ id) is ((nat_eq_iff x.id id).0 same)))
      (λ _ h'. find-All P id leases l all.1 h') h

pub find-IsOpen :
    (id : ℕ) (leases : List Lease) (l : Lease) → find id leases ≡ some l → IsOpen id leases
find-IsOpen id [] l h = cc
find-IsOpen id (x ∷ leases) l h =
    if_ind (λ (z : Option Lease). z ≡ some l → IsOpen id (x ∷ leases)) (nat_eq x.id id)
      (λ same _. inl ((nat_eq_iff x.id id).0 same)) (λ _ h'. inr (find-IsOpen id leases l h')) h

pub update-All :
    (P Q : Lease → Type 0) (id : ℕ) (f : Lease → Lease)
    → ((l : Lease) → nat_eq l.id id ≡ true → P l → Q (f l))
    → ((l : Lease) → nat_eq l.id id ≡ false → P l → Q l)
    → (leases : List Lease) → All P leases
    → All Q (update id f leases)
update-All P Q id f at other [] all = tt
update-All P Q id f at other (l ∷ leases) all = (
  if_ind Q (nat_eq l.id id) (λ same. at l same all.0) (λ apart. other l apart all.0),
  update-All P Q id f at other leases all.1,
)

pub update-IsOpen :
    (o id : ℕ) (f : Lease → Lease) (leases : List Lease)
    → ((l : Lease) → (f l).id ≡ l.id)
    → IsOpen o leases
    → IsOpen o (update id f leases)
update-IsOpen o id f [] keep h = h
update-IsOpen o id f (l ∷ leases) keep (inl here) =
    inl (if_ind (λ (z : Lease). z.id ≡ o) (nat_eq l.id id) (λ _. keep l ∙ here) (λ _. here))
update-IsOpen o id f (l ∷ leases) keep (inr there) = inr (update-IsOpen o id f leases keep there)

pub remove-IsOpen :
    (o id : ℕ) (leases : List Lease)
    → nat_eq o id ≡ false
    → IsOpen o leases
    → IsOpen o (remove id leases)
remove-IsOpen o id [] apart h = h
remove-IsOpen o id (l ∷ leases) apart (inl here) =
    let other : nat_eq l.id id ≡ false = rw here apart in rw other (inl here)
remove-IsOpen o id (l ∷ leases) apart (inr there) =
    if_ind (IsOpen o) (nat_eq l.id id) (λ _. remove-IsOpen o id leases apart there)
      (λ _. inr (remove-IsOpen o id leases apart there))

pub All-Borrow :
    (P Q : Borrow → Type 0)
    → ((b : Borrow) → P b → Q b)
    → (borrows : List Borrow) → All P borrows
    → All Q borrows
All-Borrow P Q f [] all = tt
All-Borrow P Q f (b ∷ borrows) all = (f b all.0, All-Borrow P Q f borrows all.1)

pub drop-All :
    (P : Borrow → Type 0) (id : ℕ) (borrows : List Borrow)
    → All P borrows
    → All P (drop_borrow id borrows)
drop-All P id [] all = tt
drop-All P id (b ∷ borrows) all =
    if_ind (All P) (nat_eq b.id id) (λ _. all.1) (λ _. (all.0, drop-All P id borrows all.1))

-- Nobody borrows from this owner.
pub none_left :
    (id : ℕ) (borrows : List Borrow)
    → count id borrows ≡ 0
    → All (λ b. nat_eq b.owner id ≡ false) borrows
none_left id [] h = tt
none_left id (b ∷ borrows) h = (ground (arith, h), none_left id borrows (ground (arith, h)))

pub remove-owned :
    (id : ℕ) (leases : List Lease) (borrows : List Borrow)
    → count id borrows ≡ 0
    → All (λ b. IsOpen b.owner leases) borrows
    → All (λ b. IsOpen b.owner (remove id leases)) borrows
remove-owned id leases [] h all = tt
remove-owned id leases (b ∷ borrows) h all = (
  remove-IsOpen b.owner id leases (none_left id (b ∷ borrows) h).0 all.0,
  remove-owned id leases borrows (ground (arith, h)) all.1,
)

pub count-drop :
    (o id : ℕ) (borrows : List Borrow) (b : Borrow)
    → find_borrow id borrows ≡ some b
    → count o (drop_borrow id borrows) + unit_if (nat_eq b.owner o) ≡ count o borrows
count-drop o id [] b h = cc
count-drop o id (x ∷ borrows) b h = go (nat_eq x.id id) h (count-drop o id borrows b)
  where
    go :
        (same : Bool)
        → (if same then some x else find_borrow id borrows) ≡ some b
        → (find_borrow id borrows ≡ some b
            → count o (drop_borrow id borrows) + unit_if (nat_eq b.owner o) ≡ count o borrows)
        → count o (if same then borrows else x ∷ drop_borrow id borrows)
            + unit_if (nat_eq b.owner o)
          ≡ count o (x ∷ borrows)
    go true h rest =
        let is : x ≡ b = cc in
        subst (λ z. count o borrows + unit_if (nat_eq z.owner o) ≡ count o (x ∷ borrows)) is
          (omega arith)
    go false h rest = omega (arith, rest h)

-- The identity of a new borrowed lease is not that of any owner so far.
pub unborrowed :
    (next : ℕ) (leases : List Lease) (borrows : List Borrow)
    → All (λ l. l.id < next) leases
    → All (λ b. IsOpen b.owner leases) borrows
    → count next borrows ≡ 0
unborrowed next leases [] known owned = refl
unborrowed next leases (b ∷ borrows) known owned =
    let lt = below leases known owned.0 in
    ground (arith, lt, unborrowed next leases borrows known owned.1)
  where
    below :
        (leases : List Lease)
        → All (λ l. l.id < next) leases
        → IsOpen b.owner leases
        → b.owner < next
    below [] all h = elim h [ ]
    below (l ∷ leases) all (inl here) = subst (λ z. z < next) here all.0
    below (l ∷ leases) all (inr there) = below leases all.1 there
