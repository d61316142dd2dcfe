-- ===== src/Maintenance/Update.antt =====
-- The leases and borrowed leases as lists, and what changing one of them keeps.
use anime_db.Base.{ℕ, Bool, Option, none, some, List, [], ◌∷◌, All, if◌then◌else◌, nat_eq, if_ind}

pub record Lease : Type 0 where
  pub id : ℕ
  pub pid : ℕ
  pub thread : ℕ
  pub exclusive : Bool
  pub closing : Bool
  pub borrowers : ℕ

pub record Borrow : Type 0 where
  pub id : ℕ
  pub owner : ℕ
  pub pid : ℕ

abbrev pub find : ℕ → List Lease → Option Lease
find id [] = none
find id (l ∷ leases) = if nat_eq l.id id then some l else find id leases

abbrev pub update : ℕ → (Lease → Lease) → List Lease → List Lease
update id f [] = []
update id f (l ∷ leases) = (if nat_eq l.id id then f l else l) ∷ update id f leases

abbrev pub remove : ℕ → List Lease → List Lease
remove id [] = []
remove id (l ∷ leases) = if nat_eq l.id id then remove id leases else l ∷ remove id leases

abbrev pub find_borrow : ℕ → List Borrow → Option Borrow
find_borrow id [] = none
find_borrow id (b ∷ borrows) = if nat_eq b.id id then some b else find_borrow id borrows

abbrev pub drop_borrow : ℕ → List Borrow → List Borrow
drop_borrow id [] = []
drop_borrow id (b ∷ borrows) = if nat_eq b.id id then borrows else b ∷ drop_borrow id borrows

pub All-update :
    (P : Lease → Type 0) (id : ℕ) (f : Lease → Lease)
    → ((l : Lease) → P l → P (f l))
    → (leases : List Lease) → All P leases
    → All P (update id f leases)
All-update P id f keep [] all = tt
All-update P id f keep (l ∷ leases) all = (
  if_ind P (nat_eq l.id id) (λ _. keep l all.0) (λ _. all.0),
  All-update P id f keep leases all.1,
)

pub All-remove :
    (P : Lease → Type 0) (id : ℕ) (leases : List Lease) → All P leases → All P (remove id leases)
All-remove P id [] all = tt
All-remove P id (l ∷ leases) all =
    if_ind (All P) (nat_eq l.id id) (λ _. All-remove P id leases all.1)
      (λ _. (all.0, All-remove P id leases all.1))
