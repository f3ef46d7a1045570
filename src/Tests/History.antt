-- ===== src/Tests/History.antt =====
-- Runs of several operations one after the other.
use bonapp.Base.{◌≡◌, refl, none, some, List, [], ◌∷◌, arith, All, map, select, ◌==◌, ◌&&◌}
use bonapp.Database.Instance.{first_row}
use bonapp.Database.{
  count, update_many, OrderStatus, Order, Provider, PaymentStatus, Store, TableStatus,
}
use bonapp.Tests.Fixture.{order, with_order, store, register, supply, wish, payment}
use bonapp.Orders.Status.{change_status}
use bonapp.Orders.Status.Progress.{GetsPaid, path, path-GetsPaid}
use bonapp.Orders.Active.{find_active, is_in_work}
use bonapp.Orders.Active.Grouped.{IsGrouped, find_active-IsGrouped}
use bonapp.Orders.Create.{create_guest_order}
use bonapp.Staff.Shifts.{open_shift}
use bonapp.Staff.Shifts.Single.{HasSingle}
use bonapp.Staff.Shifts.Interleaved.{ShiftStep, ShiftReach, ShiftReach-HasSingle}
use bonapp.History.Kept.{IsSound}
use bonapp.History.Reach.{Step, Reach, Reach-IsSound}

abbrev before : Store
before = with_order OrderStatus.new

-- An order starts to cook, and a guest orders at the same table.
abbrev cooking : Store
cooking = (change_status first_row (some 1) 100 OrderStatus.cooking 500 before).1

abbrev both : Store
both = (create_guest_order first_row supply 1 5 (wish ∷ []) 0 none cooking).1

Reach-IsSound_example : IsSound both.orders
unfolding change_status update_many
Reach-IsSound_example =
    Reach-IsSound first_row {s = before} {s' = both}
      (record { keys = (tt, tt); marked = (refl, tt) })
      (Reach.next (Reach.next Reach.here (Step.status_changed (some 1) 100 OrderStatus.cooking 500))
        (Step.guest_created supply 1 5 (wish ∷ []) 0 none ((omega arith), tt)))

abbrev payable : Store
payable =
    store (order OrderStatus.new ∷ []) (payment Provider.bepaid PaymentStatus.succeeded ∷ [])
      TableStatus.occupied []

path-GetsPaid_example : GetsPaid first_row 1 100 500 (path OrderStatus.new) payable
path-GetsPaid_example =
    path-GetsPaid first_row 1 100 500 payable (order OrderStatus.new)
      (record { keys = (tt, tt); found = refl; unpaid = refl; settled = refl; table = refl }) (cc)
      (cc)

abbrev closed : Store
closed = store [] [] TableStatus.available []

abbrev opened : Store
opened = (open_shift first_row register 61 1 40 300 closed).1

ShiftReach-HasSingle_example : HasSingle 1 opened
unfolding count
ShiftReach-HasSingle_example =
    ShiftReach-HasSingle first_row 1 {s = closed} {s' = opened} (ground arith)
      (ShiftReach.next ShiftReach.here (ShiftStep.opened register 61 1 40 300))

abbrev same_order : List Order → List Order
same_order rows = rows

find_active-IsGrouped_example :
    (map (λ a. a.order) (find_active same_order 1 before)
      ≡ select (λ o. o.tenant_id == 1 && is_in_work o.status) before.orders)
    × All (λ a. IsGrouped a.order.items a.items) (find_active same_order 1 before)
find_active-IsGrouped_example = find_active-IsGrouped same_order 1 before
