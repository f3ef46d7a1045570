-- ===== src/Orders/Status/Lifecycle.antt =====
-- The life of an order as a relation, and what `changeStatus` and `pay` do with it.
use bonapp.Base.{
  ◌⊎◌, ℕ, ◌≡◌, refl, ◌↔◌, true, false, Bool, some, arith, All, ok, any, ◌&&◌, ◌==◌, is_some, inl,
  inr, Option-cases,
}
use bonapp.Database.{
  Prisma, Store, Order, OrderStatus, ◌=ₒ◌, DiningTable, Payment, update_many, TableStatus,
  All-update_many_set, is_settled,
}
use bonapp.Orders.Status.{
  of_order, of_table, with_payment, with_status, pay, change_status, can_change,
}

-- An order moves towards the table one step at a time, and may be cancelled until it is paid.
pub data Advance : OrderStatus → OrderStatus → Type 0 where
  cook : Advance OrderStatus.new OrderStatus.cooking
  finish : Advance OrderStatus.cooking OrderStatus.ready
  serve : Advance OrderStatus.ready OrderStatus.served
  cancel_new : Advance OrderStatus.new OrderStatus.cancelled
  cancel_cooking : Advance OrderStatus.cooking OrderStatus.cancelled
  cancel_ready : Advance OrderStatus.ready OrderStatus.cancelled
  cancel_served : Advance OrderStatus.served OrderStatus.cancelled

can_change_complete : {a b : OrderStatus} → Advance a b → can_change a b ≡ true
unfolding can_change
can_change_complete cook = refl
can_change_complete finish = refl
can_change_complete serve = refl
can_change_complete cancel_new = refl
can_change_complete cancel_cooking = refl
can_change_complete cancel_ready = refl
can_change_complete cancel_served = refl

can_change_sound : (a b : OrderStatus) → can_change a b ≡ true → Advance a b
unfolding can_change
can_change_sound OrderStatus.new OrderStatus.cooking h = cook
can_change_sound OrderStatus.new OrderStatus.cancelled h = cancel_new
can_change_sound OrderStatus.cooking OrderStatus.ready h = finish
can_change_sound OrderStatus.cooking OrderStatus.cancelled h = cancel_cooking
can_change_sound OrderStatus.ready OrderStatus.served h = serve
can_change_sound OrderStatus.ready OrderStatus.cancelled h = cancel_ready
can_change_sound OrderStatus.served OrderStatus.cancelled h = cancel_served
can_change_sound _ _ h = cc

module _ (db : Prisma) (t id now : ℕ) (s : Store) where
  -- `changeStatus` to another status than PAID succeeds only for an order of the restaurant that is
  -- found and whose status may advance to the new one; the row that it returns has that status.
  pub change_status-Advance :
      (status : OrderStatus) (o : Order)
      → (status =ₒ OrderStatus.paid) ≡ false
      → (change_status db (some t) id status now s).0 ≡ ok o
      → (old : Order) × (db.find_first (of_order id t) s.orders ≡ some old)
        × Advance old.status status
        × (o ≡ with_status status old)
  unfolding change_status
  change_status-Advance status o ne h =
      elim (Option-cases (db.find_first (of_order id t) s.orders)) [
        | inl missing ↦ absurd (ground arith)
        | inr (old, found) ↦
            (old, found, can_change_sound old.status status (ground arith), ground arith)
      ]

  -- Whether `pay` goes through.
  abbrev pub has_payment : Bool
  has_payment = is_some (
      db.find_first (λ (p : Payment). p.order_id == id && (p.tenant_id == t && is_settled p.status))
        s.payments)

  -- `pay` succeeds exactly for an order of the restaurant that is found, served and not yet paid,
  -- for which a settled payment is found and whose table exists.
  pub pay_iff :
      (o : Order)
      → db.find_first (of_order id t) s.orders ≡ some o
      → any (of_order id t) s.orders ≡ true
      → ((pay db (some t) id now s).0 ≡ ok (with_payment now o)) ↔ (
          (o.is_paid ≡ false)
          × (o.status ≡ OrderStatus.served)
          × (has_payment ≡ true)
          × (any (of_table o.table_id t) s.tables ≡ true))
  unfolding pay
  pay_iff o found listed = (ground arith, ground arith)

  pay-store :
      (o : Order)
      → (pay db (some t) id now s).0 ≡ ok o
      → ((pay db (some t) id now s).1.orders
          ≡ update_many (of_order id t) (with_payment now) s.orders)
        × ((pay db (some t) id now s).1.tables
            ≡ update_many
                (of_table o.table_id t)
                (λ r. record r { status = TableStatus.available })
                s.tables)
  unfolding pay
  pay-store o h = ground arith

  -- After `pay` every row of the order is PAID at the given moment, and every row of its table is
  -- AVAILABLE.
  pub pay-effect :
      (o : Order)
      → (pay db (some t) id now s).0 ≡ ok o
      → All
          (λ r.
            (of_order id t r ≡ false)
            ⊎ ((r.status ≡ OrderStatus.paid) × (r.is_paid ≡ true) × (r.paid_at ≡ some now)))
          (pay db (some t) id now s).1.orders
        × All
            (λ r. (of_table o.table_id t r ≡ false) ⊎ (r.status ≡ TableStatus.available))
            (pay db (some t) id now s).1.tables
  pay-effect o h =
      let (orders, tables) = pay-store o h in
      (
        rw orders (
            All-update_many_set
              (λ r. (r.status ≡ OrderStatus.paid) × (r.is_paid ≡ true) × (r.paid_at ≡ some now))
              (of_order id t) (with_payment now) s.orders (λ r _. (refl, refl, refl))),
        rw tables (
            All-update_many_set (λ (r : DiningTable). r.status ≡ TableStatus.available)
              (of_table o.table_id t) (λ r. record r { status = TableStatus.available }) s.tables
              (λ r _. refl)),
      )
