-- ===== src/Maintenance/Borrowing.antt =====
-- Borrowed leases: the owner counts them, and outlives them.
use mathlib.Core.Path.{subst}
use anime_db.Base.{
  ℕ, suc, ◌<◌, ◌≡◌, refl, sym, ◌∙◌, inr, Bool, not, ◌&&◌, ◌||◌, Option, none, some, List, [], ◌∷◌,
  All, Result, nat_eq, if_ind, arith, ltb,
}
use anime_db.Maintenance.Update.{
  Lease, Borrow, find, update, remove, find_borrow, drop_borrow, All-update, All-remove,
}
use anime_db.Maintenance.{
  Host, Stop, Held, Caller, Checks, Scope, lockable, borrow_from, lease_new, acquire_in, acquire,
  close_found, close, finish_owner, close_borrow_found, close_borrow, Step, acquires, closes,
  gives_back, Reachable, start, then_step, check, lend, take_back, mark_closing, new_lease,
}
use anime_db.Maintenance.Counts.{
  count, Balanced, find-All, find-IsOpen, update-All, update-IsOpen, All-Borrow, drop-All,
  remove-owned, count-drop, unborrowed,
}

module _ (host : Host) (good : Balanced host) where
  abbrev Kept : {A : Type 0} → Result Stop A × Host → Type 0
  Kept outcome = Balanced outcome.1

  opened :
      (caller : Caller) (exclusive : Bool)
      → Balanced (record host {
        next = suc host.next;
        leases = new_lease caller exclusive host ∷ host.leases;
      })
  opened caller exclusive = record {
    counted =
        (sym (unborrowed host.next host.leases host.borrows good.known good.owned), good.counted);
    owned = All-Borrow _ _ (λ b there. inr there) host.borrows good.owned;
    known = (omega arith, All-map-lt host.leases good.known);
  }
    where
      All-map-lt :
          (leases : List Lease)
          → All (λ l. l.id < host.next) leases
          → All (λ l. l.id < suc host.next) leases
      All-map-lt [] all = tt
      All-map-lt (l ∷ leases) all = (omega (arith, all.0), All-map-lt leases all.1)

  lease_new-Kept :
      (caller : Caller) (checks : Checks) (exclusive : Bool)
      → Kept (lease_new caller checks exclusive host)
  lease_new-Kept caller checks exclusive =
      if_ind Kept (not checks.binding_before) (λ _. good)
        λ _.
          if_ind Kept (not (lockable exclusive host.leases)) (λ _. good)
            λ _. if_ind Kept (not checks.binding_after) (λ _. good) λ _. opened caller exclusive

  lent :
      (o pid : ℕ) (owner : Lease)
      → find o host.leases ≡ some owner
      → Balanced (record {
        next = suc host.next;
        leases = update o lend host.leases;
        borrows = record { id = host.next; owner = o; pid = pid } ∷ host.borrows;
      })
  lent o pid owner at = record {
    counted =
        update-All _ _ o lend (λ l same c. ground (arith, same, c))
          (λ l apart c. ground (arith, apart, c)) host.leases good.counted;
    owned = (
      update-IsOpen o o lend host.leases (λ l. refl) (find-IsOpen o host.leases owner at),
      All-Borrow _ _ (λ b. update-IsOpen b.owner o lend host.leases (λ l. refl)) host.borrows
          good.owned,
    );
    known =
        update-All (λ l. l.id < host.next) (λ l. l.id < suc host.next) o lend
          (λ l _ lt. omega (arith, lt)) (λ l _ lt. omega (arith, lt)) host.leases good.known;
  }

  borrow_from-Kept :
      (caller : Caller) (checks : Checks) (scope : Scope) (owner : Option Lease)
      → find scope.owner host.leases ≡ owner
      → Kept (borrow_from caller checks scope host owner)
  borrow_from-Kept caller checks scope none at = good
  borrow_from-Kept caller checks scope (some owner) at =
      if_ind Kept
        (not (check caller.pid checks.namespace owner)
          || (not scope.same_binding || not (nat_eq owner.thread caller.thread)))
        (λ _. good) (λ _. lent scope.owner caller.pid owner at)

  acquire_in-Kept :
      (caller : Caller) (checks : Checks) (exclusive : Bool) (scope : Option Scope)
      → Kept (acquire_in caller checks exclusive host scope)
  acquire_in-Kept caller checks exclusive none = lease_new-Kept caller checks exclusive
  acquire_in-Kept caller checks exclusive (some scope) =
      if_ind Kept exclusive (λ _. lease_new-Kept caller checks exclusive)
        (λ _. borrow_from-Kept caller checks scope (find scope.owner host.leases) refl)

  -- A lease that nobody borrows from may go.
  removed :
      (id : ℕ)
      → count id host.borrows ≡ 0
      → Balanced (record host { leases = remove id host.leases })
  removed id idle = record {
    counted = All-remove (λ l. l.borrowers ≡ count l.id host.borrows) id host.leases good.counted;
    owned = remove-owned id host.leases host.borrows idle good.owned;
    known = All-remove (λ l. l.id < host.next) id host.leases good.known;
  }

  ending : (id : ℕ) → Balanced (record host { leases = update id mark_closing host.leases })
  ending id = record {
    counted =
        All-update (λ l. l.borrowers ≡ count l.id host.borrows) id mark_closing (λ l c. c)
          host.leases good.counted;
    owned =
        All-Borrow _ _ (λ b. update-IsOpen b.owner id mark_closing host.leases (λ l. refl))
          host.borrows good.owned;
    known = All-update (λ l. l.id < host.next) id mark_closing (λ l lt. lt) host.leases good.known;
  }

  idle_of :
      (id : ℕ) (l : Lease)
      → find id host.leases ≡ some l
      → l.borrowers ≡ 0
      → count id host.borrows ≡ 0
  idle_of id l at none_borrow =
      let (counted, is) =
        find-All (λ l. l.borrowers ≡ count l.id host.borrows) id host.leases l good.counted at in
      subst (λ z. count z host.borrows ≡ 0) is (sym counted ∙ none_borrow)

  close_found-Kept :
      (pid id : ℕ) (l : Option Lease) → find id host.leases ≡ l → Kept (close_found pid id host l)
  close_found-Kept pid id none at = good
  close_found-Kept pid id (some l) at =
      if_ind Kept (not (nat_eq l.pid pid)) (λ _. good)
        λ _.
          if_ind Kept (ltb 0 l.borrowers) (λ _. ending id)
            λ idle. removed id (idle_of id l at (ground (arith, idle)))

  -- The owner's count after one borrowed lease is gone.
  returned :
      (id : ℕ) (b : Borrow)
      → find_borrow id host.borrows ≡ some b
      → Balanced (record host {
        leases = update b.owner take_back host.leases;
        borrows = drop_borrow id host.borrows;
      })
  returned id b at = record {
    counted =
        update-All _ _ b.owner take_back
          (λ l same c. ground (arith, same, c, count-drop l.id id host.borrows b at))
          (λ l apart c. ground (arith, apart, c, count-drop l.id id host.borrows b at)) host.leases
          good.counted;
    owned = drop-All _ id host.borrows (
        All-Borrow _ _ (λ x. update-IsOpen x.owner b.owner take_back host.leases (λ l. refl))
          host.borrows good.owned);
    known =
        All-update (λ l. l.id < host.next) b.owner take_back (λ l lt. lt) host.leases good.known;
  }

finish_owner-Kept :
    (host : Host)
    → Balanced host
    → (id : ℕ) (owner : Option Lease) → find id host.leases ≡ owner
    → Balanced (record host { leases = finish_owner id host.leases owner })
finish_owner-Kept host good id none at = good
finish_owner-Kept host good id (some owner) at =
    if_ind (λ (z : List Lease). Balanced (record host { leases = z }))
      (owner.closing && nat_eq owner.borrowers 0)
      (λ over. removed host good id (idle_of host good id owner at (ground (arith, over))))
      (λ _. good)

module _ (host : Host) (good : Balanced host) where
  close_borrow_found-Kept :
      (pid id : ℕ) (b : Option Borrow)
      → find_borrow id host.borrows ≡ b
      → Balanced (close_borrow_found pid id host b).1
  close_borrow_found-Kept pid id none at = good
  close_borrow_found-Kept pid id (some b) at =
      if_ind (λ (z : Result Stop (Unit {0}) × Host). Balanced z.1) (not (nat_eq b.pid pid))
        (λ _. good) (λ _. finish_owner-Kept _ (returned host good id b at) b.owner _ refl)

  Step-Balanced : (after : Host) → Step host after → Balanced after
  unfolding acquire close close_borrow
  Step-Balanced _ (acquires caller checks exclusive scope) =
      if_ind (λ (z : Result Stop Held × Host). Balanced z.1) checks.paths
        (λ _. acquire_in-Kept host good caller checks exclusive scope) (λ _. good)
  Step-Balanced _ (closes pid id) = close_found-Kept host good pid id (find id host.leases) refl
  Step-Balanced _ (gives_back pid id) =
      close_borrow_found-Kept pid id (find_borrow id host.borrows) refl

-- After any calls by any processes, every lease counts exactly the open leases borrowed from it, and
-- the owner of every open borrowed lease is still open: no transaction outlives the lock it runs under.
pub Reachable-Balanced : (host : Host) → Reachable host → Balanced host
Reachable-Balanced _ start = record { counted = tt; owned = tt; known = tt }
Reachable-Balanced after (then_step {host} before _ step) =
    Step-Balanced host (Reachable-Balanced host before) after step
