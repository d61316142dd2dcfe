-- ===== src/Maintenance.antt =====
-- The leases of app/maintenance.py on one lock file: cooperating writers hold it shared, maintenance
-- holds it exclusively, and database transactions of the owner borrow its lease. A closed lease is no
-- longer in the list, as its descriptor no longer holds the lock.
pub mod Update
pub mod Exclusion
pub mod Counts
pub mod Borrowing
mod Examples
use anime_db.Base.{
  ℕ, zero, suc, ◌+◌, ◌-◌, String, Bool, true, false, not, ◌&&◌, ◌||◌, Option, none, some, List, [],
  ◌∷◌, ◌++◌, all, Result, ok, err, if◌then◌else◌, nat_eq, ltb,
}
use anime_db.Maintenance.Update.{Lease, Borrow, find, update, remove, find_borrow, drop_borrow}

-- MaintenanceStopped and its subclass MaintenanceBusy
pub data Stop : Type 0 where
  stopped busy : Stop

pub record Host : Type 0 where
  pub next : ℕ
  pub leases : List Lease
  pub borrows : List Borrow

-- The process and thread of a call.
pub record Caller : Type 0 where
  pub pid : ℕ
  pub thread : ℕ

-- What a call meets outside: the paths, the identity of the lock file as `check` compares it, and
-- `_check_binding` before and after the lock.
pub record Checks : Type 0 where
  pub paths : Bool
  pub namespace : Bool
  pub binding_before : Bool
  pub binding_after : Bool

-- `_acquire` returns a lease of its own, or a borrowed one.
pub data Held : Type 0 where
  own : (id : ℕ) → Held
  borrowed : (id : ℕ) → Held

-- The context of `write_scope`: the owner, and whether its binding is this one.
pub record Scope : Type 0 where
  pub owner : ℕ
  pub same_binding : Bool

abbrev pub Outcome : Type 0
Outcome = Result Stop Held × Host

-- `flock(fd, LOCK_EX or LOCK_SH | LOCK_NB)` succeeds.
abbrev pub lockable : Bool → List Lease → Bool
lockable true [] = true
lockable true (l ∷ leases) = false
lockable false leases = all (λ l. not l.exclusive) leases

-- `_Lease.check`
abbrev pub check : ℕ → Bool → Lease → Bool
check pid namespace l = nat_eq l.pid pid && (not l.closing && namespace)

abbrev pub lend : Lease → Lease
lend l = record l { borrowers = suc l.borrowers }

abbrev pub take_back : Lease → Lease
take_back l = record l { borrowers = l.borrowers - 1 }

abbrev pub mark_closing : Lease → Lease
mark_closing l = record l { closing = true }

abbrev pub new_lease : Caller → Bool → Host → Lease
new_lease caller exclusive host = record {
  id = host.next;
  pid = caller.pid;
  thread = caller.thread;
  exclusive = exclusive;
  closing = false;
  borrowers = 0;
}

abbrev pub borrow_from : Caller → Checks → Scope → Host → Option Lease → Outcome
borrow_from caller checks scope host none = (err stopped, host)
borrow_from caller checks scope host (some owner) =
    if not (check caller.pid checks.namespace owner)
      || (not scope.same_binding || not (nat_eq owner.thread caller.thread))
    then (err stopped, host)
    else (
      ok (borrowed host.next),
      record {
        next = suc host.next;
        leases = update scope.owner lend host.leases;
        borrows = record { id = host.next; owner = scope.owner; pid = caller.pid } ∷ host.borrows;
      },
    )

-- A lease of its own: it is opened, locked and checked, or closed again.
abbrev pub lease_new : Caller → Checks → Bool → Host → Outcome
lease_new caller checks exclusive host =
    if not checks.binding_before
    then (err stopped, host)
    else if not (lockable exclusive host.leases)
    then (err busy, host)
    else if not checks.binding_after
    then (err stopped, host)
    else (
      ok (own host.next),
      record host { next = suc host.next; leases = new_lease caller exclusive host ∷ host.leases },
    )

abbrev pub acquire_in : Caller → Checks → Bool → Host → Option Scope → Outcome
acquire_in caller checks exclusive host none = lease_new caller checks exclusive host
acquire_in caller checks exclusive host (some scope) =
    if exclusive
    then lease_new caller checks exclusive host
    else borrow_from caller checks scope host (find scope.owner host.leases)

-- `ScratchMaintenance._acquire`
unfoldable pub acquire : Caller → Checks → Bool → Option Scope → Host → Outcome
acquire caller checks exclusive scope host =
    if checks.paths then acquire_in caller checks exclusive host scope else (err stopped, host)

abbrev pub close_found : ℕ → ℕ → Host → Option Lease → Result Stop (Unit {0}) × Host
close_found pid id host none = (ok tt, host)
close_found pid id host (some l) =
    if not (nat_eq l.pid pid)
    then (err stopped, host)
    else if ltb 0 l.borrowers
    then (err stopped, record host { leases = update id mark_closing host.leases })
    else (ok tt, record host { leases = remove id host.leases })

-- `_Lease.close`
unfoldable pub close : ℕ → ℕ → Host → Result Stop (Unit {0}) × Host
close pid id host = close_found pid id host (find id host.leases)

-- `if self.owner._closing and not self.owner._borrowers: self.owner._close_fd()`
abbrev pub finish_owner : ℕ → List Lease → Option Lease → List Lease
finish_owner id leases none = leases
finish_owner id leases (some owner) =
    if owner.closing && nat_eq owner.borrowers 0 then remove id leases else leases

abbrev pub give_back : ℕ → List Lease → List Lease
give_back owner leases =
    let after = update owner take_back leases in finish_owner owner after (find owner after)

abbrev pub close_borrow_found : ℕ → ℕ → Host → Option Borrow → Result Stop (Unit {0}) × Host
close_borrow_found pid id host none = (ok tt, host)
close_borrow_found pid id host (some b) = if not (nat_eq b.pid pid) then (err stopped, host) else (
  ok tt,
  record host { leases = give_back b.owner host.leases; borrows = drop_borrow id host.borrows },
)

-- `_BorrowedLease.close`
unfoldable pub close_borrow : ℕ → ℕ → Host → Result Stop (Unit {0}) × Host
close_borrow pid id host = close_borrow_found pid id host (find_borrow id host.borrows)

-- `write_scope` admits the exclusive owner on its own thread.
abbrev pub scope_of : Caller → Bool → ℕ → Option Lease → Result Stop ℕ
scope_of caller namespace id none = err stopped
scope_of caller namespace id (some l) =
    if not (check caller.pid namespace l)
      || (not l.exclusive || not (nat_eq l.thread caller.thread))
    then err stopped
    else ok id

unfoldable pub write_scope : Caller → Bool → ℕ → Host → Result Stop ℕ
write_scope caller namespace id host = scope_of caller namespace id (find id host.leases)

abbrev pub new_host : Host
new_host = record { next = 0; leases = []; borrows = [] }

-- One call by any process, whatever it meets.
pub data Step (host : Host) : Host → Type 0 where
  acquires :
      (caller : Caller) (checks : Checks) (exclusive : Bool) (scope : Option Scope)
      → Step host (acquire caller checks exclusive scope host).1
  closes : (pid id : ℕ) → Step host (close pid id host).1
  gives_back : (pid id : ℕ) → Step host (close_borrow pid id host).1

pub data Reachable : Host → Type 0 where
  start : Reachable new_host
  then_step : {host : Host} → Reachable host → (after : Host) → Step host after → Reachable after
