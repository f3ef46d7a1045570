-- ===== src/Orders/Status/Overridden.antt =====
-- `updateStatus`, which sets a status past the rules of `changeStatus`.
use bonapp.Base.{ℕ, ◌≡◌, refl, true, some, ok, arith}
use bonapp.Database.{
  Prisma, Store, Order, OrderStatus, HasKeys, update_many, find_first-update_many, find_first-any,
}
use bonapp.Orders.Status.{of_order, with_status, update_status}
use bonapp.Orders.Status.Paid.{order_id}

module _ (db : Prisma) (t id : ℕ) (status : OrderStatus) (s : Store) (o : Order) where
  by_id : (r x : Order) → of_order id t r ≡ true → of_order id t x ≡ true → x.id ≡ r.id
  by_id r x h k = ground arith

  update_status-orders :
      db.find_first (of_order id t) s.orders ≡ some o
      → ((update_status db (some t) id status s).0 ≡ ok (with_status status o))
        × ((update_status db (some t) id status s).1.orders
            ≡ update_many (of_order id t) (with_status status) s.orders)
        × ((update_status db (some t) id status s).1.tables ≡ s.tables)
  unfolding update_status
  update_status-orders found = ground (arith, find_first-any db (of_order id t) s.orders o found)

  -- `updateStatus` asks neither for the status that a found order has nor whether it is paid: where the
  -- ids of the orders are unique, the order is found afterwards with the new status and is still marked
  -- as paid if it was, and no table changes.
  pub update_status-is_paid :
      HasKeys order_id s.orders
      → db.find_first (of_order id t) s.orders ≡ some o
      → (db.find_first (of_order id t) (update_status db (some t) id status s).1.orders
          ≡ some (with_status status o))
        × ((with_status status o).is_paid ≡ o.is_paid)
        × ((update_status db (some t) id status s).1.tables ≡ s.tables)
  update_status-is_paid keys found =
      let (answered, orders, tables) = update_status-orders found in
      (
        rw orders (
            find_first-update_many order_id db (of_order id t) (with_status status) (λ r. refl)
              by_id s.orders o keys found),
        refl,
        tables,
      )
