-- ===== src/Maintenance/Examples.antt =====
-- Tests: maintenance takes the lock, a transaction of it borrows the lease, a writer is refused, and
-- the lease goes with the transaction.
use anime_db.Base.{◌≡◌, refl, true, false, none, some, [], err}
use anime_db.Maintenance.{
  Host, Caller, Checks, Scope, acquire, close, close_borrow, busy, new_host, Reachable, start,
  then_step, acquires, closes,
}
use anime_db.Maintenance.Exclusion.{Exclusive, Reachable-Exclusive}
use anime_db.Maintenance.Counts.{Balanced}
use anime_db.Maintenance.Borrowing.{Reachable-Balanced}

abbrev owner : Caller
owner = record { pid = 1; thread = 1 }

abbrev writer : Caller
writer = record { pid = 2; thread = 1 }

abbrev fine : Checks
fine = record { paths = true; namespace = true; binding_before = true; binding_after = true }

abbrev locked : Host
locked = (acquire owner fine true none new_host).1

abbrev scope : Scope
scope = record { owner = 0; same_binding = true }

abbrev lent : Host
lent = (acquire owner fine false (some scope) locked).1

abbrev closing : Host
closing = (close 1 0 lent).1

abbrev over : Host
over = (close_borrow 1 1 closing).1

writer_refused : (acquire writer fine false none lent).0 ≡ err busy
unfolding acquire
writer_refused = refl

lease_gone : over.leases ≡ []
unfolding acquire close close_borrow
lease_gone = refl

lent_reachable : Reachable lent
lent_reachable =
    then_step (then_step start locked (acquires owner fine true none)) lent
      (acquires owner fine false (some scope))

Reachable-Exclusive_example : Exclusive lent.leases
Reachable-Exclusive_example = Reachable-Exclusive lent lent_reachable

Reachable-Balanced_example : Balanced closing
Reachable-Balanced_example =
    Reachable-Balanced closing (then_step lent_reachable closing (closes 1 0))
