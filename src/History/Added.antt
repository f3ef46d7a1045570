-- ===== src/History/Added.antt =====
-- New orders: `create` and `createGuestOrder`.
use bonapp.Base.{
  ℕ, ◌≡◌, ◌∙◌, ◌≢◌, ◌⊎◌, inl, inr, false, Option, none, some, List, [], ◌∷◌, ◌++◌, arith, All,
  All-append, Result-cases, ok,
}
use bonapp.Database.{Prisma, Store, Order, OrderStatus, HasKeys-append}
use bonapp.Orders.Status.Paid.{IsMarked, order_id}
use bonapp.Orders.Pricing.{RequestedItem}
use bonapp.Orders.Create.{Supply, create, create_tx, create_guest_order, guest_order_tx}
use bonapp.Orders.Create.Laws.{take_number-keeps, upsert_guest-keeps, price_all-keeps, normalized}
use bonapp.Orders.Create.Guests.{create_guest_order-tx}
use bonapp.History.Kept.{IsSound}

-- No row has the id that the database gives to the next order.
abbrev pub IsFresh : ℕ → List Order → Type 0
IsFresh k rows = All (λ o. o.id ≢ k) rows

-- A new, unpaid order behind the others.
added-IsSound :
    (rows : List Order) (o : Order)
    → o.status ≡ OrderStatus.new
    → o.is_paid ≡ false
    → IsFresh o.id rows
    → IsSound rows
    → IsSound (rows ++ o ∷ [])
added-IsSound rows o new unpaid fresh h = record {
  keys = HasKeys-append order_id rows o h.keys fresh;
  marked = All-append IsMarked rows (o ∷ []) h.marked (ground arith, tt);
}

module _ (db : Prisma) (u : Supply) where
  -- What a new order of the staff does to the orders.
  abbrev WasAdded : List Order → List Order → Type 0
  WasAdded rows rows' =
      (rows' ≡ rows)
      ⊎ ((o : Order) × (rows' ≡ rows ++ o ∷ [])
          × (o.id ≡ u.order_id)
          × (o.status ≡ OrderStatus.new)
          × (o.is_paid ≡ false))

  WasAdded-IsSound :
      (rows rows' : List Order)
      → WasAdded rows rows'
      → IsFresh u.order_id rows
      → IsSound rows
      → IsSound rows'
  WasAdded-IsSound rows rows' (inl same) fresh h = rw same h
  WasAdded-IsSound rows rows' (inr (o, same, id, new, unpaid)) fresh h =
      rw same (added-IsSound rows o new unpaid (rw id fresh) h)

  create_tx-orders :
      (t table : ℕ) (phone : Option (List ℕ)) (requested : List RequestedItem) (s : Store)
      (o : Order)
      → (create_tx db u t table phone requested s).0 ≡ ok o
      → ((create_tx db u t table phone requested s).1.orders ≡ s.orders ++ o ∷ [])
        × (o.id ≡ u.order_id)
        × (o.status ≡ OrderStatus.new)
        × (o.is_paid ≡ false)
  unfolding create_tx
  create_tx-orders t table phone requested s o h =
      grind (arith, take_number-keeps, upsert_guest-keeps, price_all-keeps)

  create-orders :
      (t table : ℕ) (phone : Option (List ℕ)) (requested : List RequestedItem) (s : Store)
      → WasAdded s.orders (create db u (some t) table phone requested s).1.orders
  unfolding create
  create-orders t table none requested s =
      elim (Result-cases (create_tx db u t table none requested s).0) [
        | inl (o, done) ↦
            let added = create_tx-orders t table none requested s o done in
            inr (o, ground arith, added.1, added.2, added.3)
        | inr (e, failed) ↦ inl (ground arith)
      ]
  create-orders t table (some p) requested s = elim (normalized p) [
    | inr (e, bad) ↦ inl (ground arith)
    | inl (q, good) ↦ elim (Result-cases (create_tx db u t table (some q) requested s).0) [
      | inl (o, done) ↦
          let added = create_tx-orders t table (some q) requested s o done in
          inr (o, ground arith, added.1, added.2, added.3)
      | inr (e, failed) ↦ inl (ground arith)
    ]
  ]

  guest_order_tx-orders :
      (t table : ℕ) (session : Option ℕ) (requested : List RequestedItem) (s : Store) (o : Order)
      → (guest_order_tx db u t table session requested s).0 ≡ ok o
      → ((guest_order_tx db u t table session requested s).1.orders ≡ s.orders ++ o ∷ [])
        × (o.id ≡ u.order_id)
        × (o.status ≡ OrderStatus.new)
        × (o.is_paid ≡ false)
  unfolding guest_order_tx
  guest_order_tx-orders t table session requested s o h =
      grind (arith, take_number-keeps, price_all-keeps)

  create_guest_order-orders :
      (t table : ℕ) (requested : List RequestedItem) (comment : ℕ) (session : Option ℕ) (s : Store)
      → WasAdded s.orders (create_guest_order db u t table requested comment session s).1.orders
  unfolding create_guest_order
  create_guest_order-orders t table requested comment session s =
      elim (Result-cases (create_guest_order db u t table requested comment session s).0) [
        | inl (r, answered) ↦
            let (o, done, told, quantities, tenants, orders) =
              create_guest_order-tx db u t table session requested comment s r answered in
            let added = guest_order_tx-orders t table session requested s o done in
            inr (o, orders ∙ added.0, added.1, added.2, added.3)
        | inr (e, failed) ↦ inl (ground arith)
      ]

  pub create-IsSound :
      (t table : ℕ) (phone : Option (List ℕ)) (requested : List RequestedItem) (s : Store)
      → IsFresh u.order_id s.orders
      → IsSound s.orders
      → IsSound (create db u (some t) table phone requested s).1.orders
  create-IsSound t table phone requested s =
      WasAdded-IsSound s.orders (create db u (some t) table phone requested s).1.orders
        (create-orders t table phone requested s)

  pub create_guest_order-IsSound :
      (t table : ℕ) (requested : List RequestedItem) (comment : ℕ) (session : Option ℕ) (s : Store)
      → IsFresh u.order_id s.orders
      → IsSound s.orders
      → IsSound (create_guest_order db u t table requested comment session s).1.orders
  create_guest_order-IsSound t table requested comment session s =
      WasAdded-IsSound s.orders
        (create_guest_order db u t table requested comment session s).1.orders
        (create_guest_order-orders t table requested comment session s)
