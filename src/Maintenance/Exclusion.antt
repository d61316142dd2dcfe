-- ===== src/Maintenance/Exclusion.antt =====
-- Readers and writers: an exclusive lease is the only one.
use anime_db.Base.{
  ℕ, suc, ◌≡◌, refl, ◌⊎◌, inl, inr, Bool, true, false, not, ◌&&◌, ◌||◌, Option, none, some, List,
  [], ◌∷◌, All, all, length, Result, nat_eq, if_ind, arith, not-false, ltb, ◌≤◌,
}
use anime_db.Maintenance.Update.{
  Lease, Borrow, find, update, remove, find_borrow, All-update, All-remove,
}
use anime_db.Maintenance.{
  Host, Stop, Caller, Checks, Scope, lockable, borrow_from, lease_new, acquire_in, acquire,
  close_found, close, finish_owner, close_borrow_found, close_borrow, Step, acquires, closes,
  gives_back, Reachable, start, then_step, check, lend, take_back, mark_closing, new_lease,
}

-- All leases are shared, or there is at most one lease.
abbrev pub Exclusive : List Lease → Type 0
Exclusive leases = All (λ l. l.exclusive ≡ false) leases ⊎ (length leases ≤ 1)

-- Changes that keep every lease's kind, and drop some.
length-update :
    (id : ℕ) (f : Lease → Lease) (leases : List Lease) → length (update id f leases) ≡ length leases
length-update id f [] = refl
length-update id f (l ∷ leases) = rw (length-update id f leases) refl

length-remove-le : (id : ℕ) (leases : List Lease) → length (remove id leases) ≤ length leases
length-remove-le id [] = ground arith
length-remove-le id (l ∷ leases) =
    if_ind (λ (z : List Lease). length z ≤ suc (length leases)) (nat_eq l.id id)
      (λ _. ground (arith, length-remove-le id leases))
      (λ _. ground (arith, length-remove-le id leases))

update-Exclusive :
    (id : ℕ) (f : Lease → Lease) (leases : List Lease)
    → ((l : Lease) → l.exclusive ≡ false → (f l).exclusive ≡ false)
    → Exclusive leases
    → Exclusive (update id f leases)
update-Exclusive id f leases keep (inl shared) =
    inl (All-update (λ l. l.exclusive ≡ false) id f keep leases shared)
update-Exclusive id f leases keep (inr single) = inr (rw (length-update id f leases) single)

remove-Exclusive : (id : ℕ) (leases : List Lease) → Exclusive leases → Exclusive (remove id leases)
remove-Exclusive id leases (inl shared) =
    inl (All-remove (λ l. l.exclusive ≡ false) id leases shared)
remove-Exclusive id leases (inr single) = inr (ground (arith, length-remove-le id leases))

all-shared :
    (leases : List Lease)
    → all (λ l. not l.exclusive) leases ≡ true
    → All (λ l. l.exclusive ≡ false) leases
all-shared [] h = tt
all-shared (l ∷ leases) h = (ground (arith, h), all-shared leases (ground (arith, h)))

lockable-Exclusive :
    (exclusive : Bool) (l : Lease) (leases : List Lease)
    → l.exclusive ≡ exclusive
    → lockable exclusive leases ≡ true
    → Exclusive (l ∷ leases)
lockable-Exclusive true l [] kind h = inr (ground arith)
lockable-Exclusive true l (x ∷ leases) kind h = cc
lockable-Exclusive false l leases kind h = inl (kind, all-shared leases h)

module _ (host : Host) (safe : Exclusive host.leases) where
  abbrev Safe : {A : Type 0} → Result Stop A × Host → Type 0
  Safe outcome = Exclusive outcome.1.leases

  lease_new-Exclusive :
      (caller : Caller) (checks : Checks) (exclusive : Bool)
      → Safe (lease_new caller checks exclusive host)
  lease_new-Exclusive caller checks exclusive =
      if_ind Safe (not checks.binding_before) (λ _. safe)
        λ _.
          if_ind Safe (not (lockable exclusive host.leases)) (λ _. safe)
            λ free.
              if_ind Safe (not checks.binding_after) (λ _. safe)
                λ _.
                  lockable-Exclusive exclusive (new_lease caller exclusive host) host.leases refl
                    (not-false _ free)

  borrow_from-Exclusive :
      (caller : Caller) (checks : Checks) (scope : Scope) (owner : Option Lease)
      → Safe (borrow_from caller checks scope host owner)
  borrow_from-Exclusive caller checks scope none = safe
  borrow_from-Exclusive caller checks scope (some owner) =
      if_ind Safe
        (not (check caller.pid checks.namespace owner)
          || (not scope.same_binding || not (nat_eq owner.thread caller.thread)))
        (λ _. safe) (λ _. update-Exclusive scope.owner lend host.leases (λ l kind. kind) safe)

  acquire_in-Exclusive :
      (caller : Caller) (checks : Checks) (exclusive : Bool) (scope : Option Scope)
      → Safe (acquire_in caller checks exclusive host scope)
  acquire_in-Exclusive caller checks exclusive none = lease_new-Exclusive caller checks exclusive
  acquire_in-Exclusive caller checks exclusive (some scope) =
      if_ind Safe exclusive (λ _. lease_new-Exclusive caller checks exclusive)
        (λ _. borrow_from-Exclusive caller checks scope (find scope.owner host.leases))

  close_found-Exclusive : (pid id : ℕ) (l : Option Lease) → Safe (close_found pid id host l)
  close_found-Exclusive pid id none = safe
  close_found-Exclusive pid id (some l) =
      if_ind Safe (not (nat_eq l.pid pid)) (λ _. safe)
        λ _.
          if_ind Safe (ltb 0 l.borrowers)
            (λ _. update-Exclusive id mark_closing host.leases (λ x kind. kind) safe)
            (λ _. remove-Exclusive id host.leases safe)

  finish_owner-Exclusive :
      (id : ℕ) (leases : List Lease) (owner : Option Lease)
      → Exclusive leases
      → Exclusive (finish_owner id leases owner)
  finish_owner-Exclusive id leases none e = e
  finish_owner-Exclusive id leases (some owner) e =
      if_ind Exclusive (owner.closing && nat_eq owner.borrowers 0)
        (λ _. remove-Exclusive id leases e) (λ _. e)

  close_borrow_found-Exclusive :
      (pid id : ℕ) (b : Option Borrow) → Safe (close_borrow_found pid id host b)
  close_borrow_found-Exclusive pid id none = safe
  close_borrow_found-Exclusive pid id (some b) =
      if_ind Safe (not (nat_eq b.pid pid)) (λ _. safe)
        (λ _.
          let after = update b.owner take_back host.leases in
          finish_owner-Exclusive b.owner after (find b.owner after)
            (update-Exclusive b.owner take_back host.leases (λ l kind. kind) safe))

  Step-Exclusive : (after : Host) → Step host after → Exclusive after.leases
  unfolding acquire close close_borrow
  Step-Exclusive _ (acquires caller checks exclusive scope) =
      if_ind Safe checks.paths (λ _. acquire_in-Exclusive caller checks exclusive scope) (λ _. safe)
  Step-Exclusive _ (closes pid id) = close_found-Exclusive pid id (find id host.leases)
  Step-Exclusive _ (gives_back pid id) =
      close_borrow_found-Exclusive pid id (find_borrow id host.borrows)

-- After any calls by any processes, either every lease that holds the lock is shared, or there is at
-- most one: maintenance never runs beside a writer or a second maintenance.
pub Reachable-Exclusive : (host : Host) → Reachable host → Exclusive host.leases
Reachable-Exclusive _ start = inl tt
Reachable-Exclusive after (then_step {host} before _ step) =
    Step-Exclusive host (Reachable-Exclusive host before) after step
