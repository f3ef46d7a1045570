-- ===== src/Orders/Status/Progress.antt =====
-- That an order gets through: from each status that is not final, a sequence of `changeStatus` leads to
-- PAID.
use bonapp.Base.{ℕ, ◌≡◌, ◌≢◌, refl, ◌∙◌, true, false, some, arith, ok, any, List, [], ◌∷◌}
use bonapp.Database.{
  Prisma, Store, Order, OrderStatus, DiningTable, update_many, TableStatus, HasKeys,
  find_first-update_many, find_first-any, any-update_many, update_many-HasKeys,
}
use bonapp.Orders.Status.{of_order, of_table, with_payment, with_status, change_status}
use bonapp.Orders.Status.Paid.{order_id}
use bonapp.Orders.Status.Lifecycle.{has_payment}

-- The statuses that an order still goes through.
abbrev pub path : OrderStatus → List OrderStatus
path OrderStatus.new =
    OrderStatus.cooking ∷ OrderStatus.ready ∷ OrderStatus.served ∷ OrderStatus.paid ∷ []
path OrderStatus.cooking = OrderStatus.ready ∷ OrderStatus.served ∷ OrderStatus.paid ∷ []
path OrderStatus.ready = OrderStatus.served ∷ OrderStatus.paid ∷ []
path OrderStatus.served = OrderStatus.paid ∷ []
path OrderStatus.paid = []
path OrderStatus.cancelled = []

module _ (db : Prisma) (t id now : ℕ) where
  -- The store after one `changeStatus` for each of the statuses.
  abbrev pub change_all : List OrderStatus → Store → Store
  change_all [] s = s
  change_all (status ∷ rest) s = change_all rest (change_status db (some t) id status now s).1

  -- Each of them is answered, and not by an exception.
  abbrev pub AllAnswered : List OrderStatus → Store → Type 0
  AllAnswered [] s = Unit
  AllAnswered (status ∷ rest) s =
      ((o : Order) × ((change_status db (some t) id status now s).0 ≡ ok o))
      × AllAnswered rest (change_status db (some t) id status now s).1

  -- An order that is not paid, with its payment settled and its table there.
  pub record IsPayable (s : Store) (o : Order) : Type 0 where
    pub keys : HasKeys order_id s.orders
    pub found : db.find_first (of_order id t) s.orders ≡ some o
    pub unpaid : o.is_paid ≡ false
    pub settled : has_payment db t id now s ≡ true
    pub table : any (of_table o.table_id t) s.tables ≡ true

  by_id : (r x : Order) → of_order id t r ≡ true → of_order id t x ≡ true → x.id ≡ r.id
  by_id r x h k = ground arith

  change_status-found :
      (status : OrderStatus) (s : Store) (o : Order)
      → HasKeys order_id s.orders
      → db.find_first (of_order id t) s.orders ≡ some o
      → db.find_first (of_order id t) (update_many (of_order id t) (with_status status) s.orders)
        ≡ some (with_status status o)
  change_status-found status s o keys found =
      find_first-update_many order_id db (of_order id t) (with_status status) (λ r. refl) by_id
        s.orders o keys found

  tables-any :
      (k u : ℕ) (status : TableStatus) (tables : List DiningTable)
      → any (of_table k t) (update_many (of_table u t) (λ r. record r { status = status }) tables)
        ≡ any (of_table k t) tables
  tables-any k u status tables =
      any-update_many (of_table k t) (of_table u t) (λ r. record r { status = status }) tables
        (λ r. refl)

  -- What one step on the way leaves of the store.
  record HasStepped (status : OrderStatus) (s : Store) (o : Order) : Type 0 where
    answered : (change_status db (some t) id status now s).0 ≡ ok (with_status status o)
    orders :
        (change_status db (some t) id status now s).1.orders
        ≡ update_many (of_order id t) (with_status status) s.orders
    payments : (change_status db (some t) id status now s).1.payments ≡ s.payments
    tables :
        any (of_table o.table_id t) (change_status db (some t) id status now s).1.tables
        ≡ any (of_table o.table_id t) s.tables

  module _ (s : Store) (o : Order) (p : IsPayable s o) where
    listed : any (of_order id t) s.orders ≡ true
    listed = find_first-any db (of_order id t) s.orders o p.found

    step_cooking : o.status ≡ OrderStatus.new → HasStepped OrderStatus.cooking s o
    unfolding change_status
    step_cooking e = ground (arith, listed)

    step_ready : o.status ≡ OrderStatus.cooking → HasStepped OrderStatus.ready s o
    unfolding change_status
    step_ready e = ground (arith, listed)

    step_served : o.status ≡ OrderStatus.ready → HasStepped OrderStatus.served s o
    unfolding change_status
    step_served e =
        ground (arith, listed, tables-any o.table_id o.table_id TableStatus.occupied s.tables)

  -- A step on the way keeps what `pay` needs.
  stepped-IsPayable :
      (status : OrderStatus) (s : Store) (o : Order)
      → IsPayable s o
      → HasStepped status s o
      → IsPayable (change_status db (some t) id status now s).1 (with_status status o)
  stepped-IsPayable status s o p h = record {
    keys = rw h.orders (
        update_many-HasKeys order_id (of_order id t) (with_status status) (λ r. refl) s.orders
          p.keys);
    found = rw h.orders (change_status-found status s o p.keys p.found);
    unpaid = p.unpaid;
    settled = rw h.payments p.settled;
    table = h.tables ∙ p.table;
  }

  -- The row is found as paid.
  abbrev pub IsPaidFor : Store → Type 0
  IsPaidFor s =
      (o : Order) × (db.find_first (of_order id t) s.orders ≡ some o)
      × (o.status ≡ OrderStatus.paid)
      × (o.is_paid ≡ true)
      × (o.paid_at ≡ some now)

  -- All are answered, and lead to a row that is paid.
  abbrev pub GetsPaid : List OrderStatus → Store → Type 0
  GetsPaid statuses s = AllAnswered statuses s × IsPaidFor (change_all statuses s)

  served-GetsPaid :
      (s : Store) (o : Order)
      → IsPayable s o
      → o.status ≡ OrderStatus.served
      → GetsPaid (OrderStatus.paid ∷ []) s
  unfolding change_status
  served-GetsPaid s o p e =
      let paid : (change_status db (some t) id OrderStatus.paid now s).0 ≡ ok (with_payment now o) =
        ground (arith, find_first-any db (of_order id t) s.orders o p.found) in
      let orders : (change_status db (some t) id OrderStatus.paid now s).1.orders
          ≡ update_many (of_order id t) (with_payment now) s.orders =
        ground (arith, find_first-any db (of_order id t) s.orders o p.found) in
      (
        ((with_payment now o, paid), tt),
        (
          with_payment now o,
          rw orders (
              find_first-update_many order_id db (of_order id t) (with_payment now) (λ r. refl)
                by_id s.orders o p.keys p.found),
          refl,
          refl,
          refl,
        ),
      )

  ready-GetsPaid :
      (s : Store) (o : Order)
      → IsPayable s o
      → o.status ≡ OrderStatus.ready
      → GetsPaid (OrderStatus.served ∷ OrderStatus.paid ∷ []) s
  ready-GetsPaid s o p e =
      let h = step_served s o p e in
      let (answered, paid) =
        served-GetsPaid _ _ (stepped-IsPayable OrderStatus.served s o p h) refl in
      (((_, h.answered), answered), paid)

  cooking-GetsPaid :
      (s : Store) (o : Order)
      → IsPayable s o
      → o.status ≡ OrderStatus.cooking
      → GetsPaid (path OrderStatus.cooking) s
  cooking-GetsPaid s o p e =
      let h = step_ready s o p e in
      let (answered, paid) =
        ready-GetsPaid _ _ (stepped-IsPayable OrderStatus.ready s o p h) refl in
      (((_, h.answered), answered), paid)

  new-GetsPaid :
      (s : Store) (o : Order)
      → IsPayable s o
      → o.status ≡ OrderStatus.new
      → GetsPaid (path OrderStatus.new) s
  new-GetsPaid s o p e =
      let h = step_cooking s o p e in
      let (answered, paid) =
        cooking-GetsPaid _ _ (stepped-IsPayable OrderStatus.cooking s o p h) refl in
      (((_, h.answered), answered), paid)

  by_status :
      (s : Store) (o : Order) (status : OrderStatus)
      → IsPayable s o
      → o.status ≡ status
      → status ≢ OrderStatus.paid
      → status ≢ OrderStatus.cancelled
      → GetsPaid (path status) s
  by_status s o OrderStatus.new p e _ _ = new-GetsPaid s o p e
  by_status s o OrderStatus.cooking p e _ _ = cooking-GetsPaid s o p e
  by_status s o OrderStatus.ready p e _ _ = ready-GetsPaid s o p e
  by_status s o OrderStatus.served p e _ _ = served-GetsPaid s o p e
  by_status s o OrderStatus.paid p e paid cancelled = absurd (paid refl)
  by_status s o OrderStatus.cancelled p e paid cancelled = absurd (cancelled refl)

  -- An order that is found and unpaid, neither PAID nor CANCELLED, gets through, where the ids of the
  -- orders are unique, a settled payment is found and the table exists: the requests of
  -- `changeStatus` for the statuses that are left, one after the other, are all answered, and then
  -- the order is found as PAID, marked as paid at the moment of the last request.
  pub path-GetsPaid :
      (s : Store) (o : Order)
      → IsPayable s o
      → o.status ≢ OrderStatus.paid
      → o.status ≢ OrderStatus.cancelled
      → GetsPaid (path o.status) s
  path-GetsPaid s o p = by_status s o o.status p refl
