-- ===== src/Orders/Status/Paid.antt =====
-- The paid mark of an order under the operations of Orders/Status.
use bonapp.Base.{
  ℕ, ◌≡◌, refl, Bool, Keeps, true, false, Option, none, some, List, arith, All, inl, inr,
  Option-cases,
}
use bonapp.Database.{
  Prisma, Store, Order, OrderStatus, ◌=ₒ◌, All-update_many, update_many, HasKeys, find_first-IsOnly,
  All-update_only, update_unique-Keeps, TableStatus,
}
use bonapp.Orders.Status.{
  of_order, of_table, update_order, update_table, with_payment, with_status, pay, change_status,
  can_change, transitions,
}

-- An order has status PAID exactly when it is marked as paid.
abbrev pub IsMarked : Order → Type 0
IsMarked o = (o.status =ₒ OrderStatus.paid) ≡ o.is_paid

abbrev pub order_id : Order → ℕ
order_id o = o.id

-- The writes to one row keep a property of the orders.
module _ (Q : List Order → Type 0) where
  pub update_order-Keeps :
      (filter : Order → Bool) (data' : Order → Order)
      → ((rows : List Order) → Q rows → Q (update_many filter data' rows))
      → Keeps (λ s. Q s.orders) (update_order filter data')
  update_order-Keeps filter data' keep =
      update_unique-Keeps (λ s. s.orders) (λ rows s. record s { orders = rows }) filter data'
        (λ s. keep s.orders)

  pub update_table-Keeps :
      (k t : ℕ) (status : TableStatus) → Keeps (λ s. Q s.orders) (update_table k t status)
  update_table-Keeps k t status =
      update_unique-Keeps (λ s. s.tables) (λ rows s. record s { tables = rows }) (of_table k t)
        (λ r. record r { status = status }) (λ s h. h)

module _ (db : Prisma) where
  -- A property of the orders that survives the marking of an order as paid survives `pay`.
  pub pay-keeps :
      (Q : List Order → Type 0) (tenant_id : Option ℕ) (id now : ℕ) (s : Store)
      → ((t : ℕ) → Q s.orders → Q (update_many (of_order id t) (with_payment now) s.orders))
      → Q s.orders
      → Q (pay db tenant_id id now s).1.orders
  unfolding pay
  pay-keeps Q none id now s keep h = h
  pay-keeps Q (some t) id now s keep h = ground (arith, keep t h)

  pub pay-IsMarked :
      (tenant_id : Option ℕ) (id now : ℕ) (s : Store)
      → All IsMarked s.orders
      → All IsMarked (pay db tenant_id id now s).1.orders
  pay-IsMarked tenant_id id now s =
      pay-keeps (All IsMarked) tenant_id id now s
        (λ t. All-update_many IsMarked (of_order id t) (with_payment now) s.orders (λ r _ _. refl))

  of_order-same :
      (id t : ℕ) (o r : Order) → of_order id t o ≡ true → of_order id t r ≡ true → r.id ≡ o.id
  of_order-same id t o r e f = ground arith

  can_change-IsMarked :
      (o : Order) (status : OrderStatus)
      → (status =ₒ OrderStatus.paid) ≡ false
      → can_change o.status status ≡ true
      → IsMarked o
      → IsMarked (with_status status o)
  unfolding can_change transitions
  can_change-IsMarked o status ne can h = ground arith

  -- The row that is updated, once it is found.
  with_status-IsMarked :
      (t id : ℕ) (status : OrderStatus) (orders : List Order) (o : Order)
      → HasKeys order_id orders
      → All IsMarked orders
      → db.find_first (of_order id t) orders ≡ some o
      → (status =ₒ OrderStatus.paid) ≡ false
      → can_change o.status status ≡ true
      → All IsMarked (update_many (of_order id t) (with_status status) orders)
  with_status-IsMarked t id status orders o keys h found ne can =
      All-update_only order_id IsMarked (of_order id t) (with_status status) orders o
        (λ r e. of_order-same id t o r (db.find_first_matches (of_order id t) orders o found) e)
        (find_first-IsOnly order_id db (of_order id t) orders o keys found)
        (can_change-IsMarked o status ne can
          (db.find_first_listed IsMarked (of_order id t) orders o found h))
        h

  -- `changeStatus`, with `pay` in it, keeps the mark where the ids of the orders are unique: every
  -- order has status PAID exactly when it is marked as paid, afterwards as before.
  pub change_status-IsMarked :
      (tenant_id : Option ℕ) (id : ℕ) (status : OrderStatus) (now : ℕ) (s : Store)
      → HasKeys order_id s.orders
      → All IsMarked s.orders
      → All IsMarked (change_status db tenant_id id status now s).1.orders
  unfolding change_status
  change_status-IsMarked none id status now s keys h = h
  change_status-IsMarked (some t) id status now s keys h =
      elim (Option-cases (db.find_first (of_order id t) s.orders)) [
        | inl missing ↦ ground (arith, pay-IsMarked (some t) id now s h)
        | inr (o, found) ↦ ground (
          arith,
          pay-IsMarked (some t) id now s h,
          with_status-IsMarked t id status s.orders o keys h found,
        )
      ]
