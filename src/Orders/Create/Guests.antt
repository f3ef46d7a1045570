-- ===== src/Orders/Create/Guests.antt =====
-- The number and the total of a guest's order.
use bonapp.Base.{
  ℕ, suc, ◌≤◌, ◌≡◌, refl, true, false, Option, none, some, List, [], ◌∷◌, ◌++◌, arith, All, any,
  ◌∙◌, ok, err, Error, inl, inr, Option-cases, ◌⊎◌, Result-cases,
}
use bonapp.Database.{
  Prisma, Store, Tenant, Order, OrderItem, OrderStatus, update_many, All-update_many_set,
}
use bonapp.Orders.Pricing.{RequestedItem, total_amount, price_items}
use bonapp.Orders.Create.{
  Supply, of_tenant, numbered, next_daily_order_number, take_number, price_all, guest_order_tx,
  create_guest_order, new_order, receipt, bad_quantity, GuestReceipt,
}
use bonapp.Orders.Create.Laws.{written-ok}

-- The counter of the restaurant stands at the number, for the day.
abbrev pub Counts : ℕ → ℕ → ℕ → Tenant → Type 0
Counts t number today r =
    (of_tenant t r ≡ false)
    ⊎ ((r.daily_order_number ≡ number) × (r.daily_order_number_date ≡ some today))

module _ (db : Prisma) (t today : ℕ) where
  abbrev next_number : Tenant → ℕ
  next_number row = next_daily_order_number row.daily_order_number row.daily_order_number_date today

  abbrev with_number : ℕ → Store → Store
  with_number n s = record s { tenants = update_many (of_tenant t) (numbered n today) s.tenants }

  take_number-ok :
      (row : Tenant) (s : Store) (n : ℕ)
      → (take_number db t today row s).0 ≡ ok n
      → (n ≡ next_number row) × ((take_number db t today row s).1 ≡ with_number (next_number row) s)
  unfolding take_number
  take_number-ok row s n h =
      written-ok (any (of_tenant t) s.tenants) s (with_number (next_number row) s) (next_number row)
        n h

  -- the counter after a number has been taken
  with_number-Counts : (n : ℕ) (s : Store) → All (Counts t n today) (with_number n s).tenants
  with_number-Counts n s =
      All-update_many_set
        (λ (r : Tenant). (r.daily_order_number ≡ n) × (r.daily_order_number_date ≡ some today))
        (of_tenant t) (numbered n today) s.tenants (λ r _. (refl, refl))

  -- The next number of a restaurant whose counter stands at `n`.
  next-Counts :
      (n : ℕ) (tenants : List Tenant) (row : Tenant)
      → All (Counts t n today) tenants
      → db.find_first (of_tenant t) tenants ≡ some row
      → next_number row ≡ suc n
  unfolding next_daily_order_number
  next-Counts n tenants row h found =
      counted row (db.find_first_matches (of_tenant t) tenants row found)
        (db.find_first_listed (Counts t n today) (of_tenant t) tenants row found h)
    where
      counted :
          (row : Tenant) → of_tenant t row ≡ true → Counts t n today row → next_number row ≡ suc n
      counted row own (inl other) = absurd (cc (own, other))
      counted row own (inr (number, date)) = ground arith

module _ (db : Prisma) (u : Supply) (t table : ℕ) (session : Option ℕ)
    (requested : List RequestedItem) where
  -- What a guest's order is, seen from its parts.
  pub record IsPlaced (s s' : Store) (row : Tenant) (items : List OrderItem) (o : Order)
      : Type 0 where
    pub tenant : db.find_first (of_tenant t) s.tenants ≡ some row
    pub number : o.daily_order_number ≡ next_number db t u.today row
    pub priced : price_items db t s.menu_items u.item_id 0 requested ≡ ok items
    pub held : o.items ≡ items
    pub status : o.status ≡ OrderStatus.new
    pub unpaid : o.is_paid ≡ false
    pub total : o.total_amount_byn ≡ total_amount items
    pub orders : s'.orders ≡ s.orders ++ o ∷ []
    pub counter : s'.tenants ≡ (with_number db t u.today (next_number db t u.today row) s).tenants

  guest_order_tx-failed :
      (s : Store) (row : Tenant) (o : Order) (e : Error)
      → db.find_first (of_tenant t) s.tenants ≡ some row
      → (take_number db t u.today row s).0 ≡ err e
      → (guest_order_tx db u t table session requested s).0 ≡ ok o
      → ⊥
  unfolding guest_order_tx
  guest_order_tx-failed s row o e found failed h = ground arith

  -- the order that the transaction makes of its parts
  placed : Tenant → List OrderItem → Order
  placed row items = new_order u t table (next_number db t u.today row) session none items

  guest_order_tx-parts :
      (s : Store) (row : Tenant) (n : ℕ) (o : Order)
      → db.find_first (of_tenant t) s.tenants ≡ some row
      → (take_number db t u.today row s).0 ≡ ok n
      → (take_number db t u.today row s).1
        ≡ with_number db t u.today (next_number db t u.today row) s
      → n ≡ next_number db t u.today row
      → (guest_order_tx db u t table session requested s).0 ≡ ok o
      → (items : List OrderItem) × (price_items db t s.menu_items u.item_id 0 requested ≡ ok items)
        × (o ≡ placed row items)
        × ((guest_order_tx db u t table session requested s).1
            ≡ record (with_number db t u.today (next_number db t u.today row) s) {
              orders = s.orders ++ placed row items ∷ [];
            })
  unfolding guest_order_tx price_all placed
  guest_order_tx-parts s row n o found taken store number h =
      elim (Result-cases (price_items db t s.menu_items u.item_id 0 requested)) [
        | inr (e, failed) ↦ absurd (ground arith)
        | inl (items, priced) ↦ (items, priced, ground arith, ground arith)
      ]

  guest_order_tx-IsPlaced :
      (s : Store) (row : Tenant) (o : Order)
      → db.find_first (of_tenant t) s.tenants ≡ some row
      → (guest_order_tx db u t table session requested s).0 ≡ ok o
      → (items : List OrderItem) × IsPlaced s
          (guest_order_tx db u t table session requested s).1
          row
          items
          o
  unfolding placed
  guest_order_tx-IsPlaced s row o found h = elim (Result-cases (take_number db t u.today row s).0) [
    | inr (e, failed) ↦ absurd (guest_order_tx-failed s row o e found failed h)
    | inl (n, taken) ↦
        let (number, store) = take_number-ok db t u.today row s n taken in
        let (items, priced, same, after) =
          guest_order_tx-parts s row n o found taken store number h in
        (
          items,
          record {
            tenant = found;
            number = ground arith;
            priced = priced;
            held = ground arith;
            status = ground arith;
            unpaid = ground arith;
            total = ground arith;
            orders = ground arith;
            counter = ground arith;
          },
        )
  ]

  guest_order_tx-missing :
      (s : Store) (o : Order)
      → db.find_first (of_tenant t) s.tenants ≡ none
      → (guest_order_tx db u t table session requested s).0 ≡ ok o
      → ⊥
  unfolding guest_order_tx
  guest_order_tx-missing s o missing h = ground arith

  pub tx-IsPlaced :
      (s : Store) (o : Order)
      → (guest_order_tx db u t table session requested s).0 ≡ ok o
      → (row : Tenant) × (items : List OrderItem) × IsPlaced s
          (guest_order_tx db u t table session requested s).1
          row
          items
          o
  tx-IsPlaced s o h = elim (Option-cases (db.find_first (of_tenant t) s.tenants)) [
    | inl missing ↦ absurd (guest_order_tx-missing s o missing h)
    | inr (row, found) ↦
        let (items, placed) = guest_order_tx-IsPlaced s row o found h in (row, items, placed)
  ]

  module _ (comment_length : ℕ) where
    abbrev pub after : Store → Store
    after s = (create_guest_order db u t table requested comment_length session s).1

    -- what the handler adds to the transaction
    pub create_guest_order-tx :
        (s : Store) (r : GuestReceipt)
        → (create_guest_order db u t table requested comment_length session s).0 ≡ ok r
        → (o : Order) × ((guest_order_tx db u t table session requested s).0 ≡ ok o)
          × (r ≡ receipt o)
          × (any bad_quantity requested ≡ false)
          × ((after s).tenants ≡ (guest_order_tx db u t table session requested s).1.tenants)
          × ((after s).orders ≡ (guest_order_tx db u t table session requested s).1.orders)
    unfolding create_guest_order
    create_guest_order-tx s r h =
        elim (Result-cases (guest_order_tx db u t table session requested s).0) [
          | inr (e, failed) ↦ absurd (ground arith)
          | inl (o, done) ↦ (o, done, ground arith, ground arith, ground arith, ground arith)
        ]

in_bounds :
    (rs : List RequestedItem)
    → any bad_quantity rs ≡ false
    → All (λ r. (1 ≤ r.quantity) × (r.quantity ≤ 20)) rs
in_bounds [] h = tt
in_bounds (r ∷ rs) h = ((ground arith, ground arith), in_bounds rs (ground arith))

-- A guest's order that is accepted has between 1 and 20 pieces of every position. It is added as a
-- new, unpaid order behind the others, with the items that the menu gives for the positions, and its
-- total, which the guest is told, is the sum of their prices times their quantities.
pub create_guest_order-total :
    (db : Prisma) (u : Supply) (t table : ℕ) (session : Option ℕ) (requested : List RequestedItem)
    (comment_length : ℕ) (s : Store) (r : GuestReceipt)
    → (create_guest_order db u t table requested comment_length session s).0 ≡ ok r
    → (o : Order) × All (λ p. (1 ≤ p.quantity) × (p.quantity ≤ 20)) requested
      × (price_items db t s.menu_items u.item_id 0 requested ≡ ok o.items)
      × ((create_guest_order db u t table requested comment_length session s).1.orders
          ≡ s.orders ++ o ∷ [])
      × (o.status ≡ OrderStatus.new)
      × (o.is_paid ≡ false)
      × (o.total_amount_byn ≡ total_amount o.items)
      × (r.total_amount_byn ≡ total_amount o.items)
create_guest_order-total db u t table session requested comment_length s r h =
    let (o, done, told, quantities, tenants, orders) =
      create_guest_order-tx db u t table session requested comment_length s r h in
    let (row, items, p) = tx-IsPlaced db u t table session requested s o done in
    (
      o,
      in_bounds requested quantities,
      rw p.held p.priced,
      orders ∙ p.orders,
      p.status,
      p.unpaid,
      rw p.held p.total,
      rw (told, p.held) p.total,
    )

-- Two orders of guests of one restaurant on one local day, one right after the other, have
-- consecutive numbers.
pub create_guest_order_consecutive :
    (db : Prisma) (u v : Supply) (t table table' : ℕ) (session session' : Option ℕ)
    (as' bs : List RequestedItem) (m n : ℕ) (s : Store) (r r' : GuestReceipt)
    → v.today ≡ u.today
    → (create_guest_order db u t table as' m session s).0 ≡ ok r
    → (create_guest_order db v t table' bs n session'
        (create_guest_order db u t table as' m session s).1).0
      ≡ ok r'
    → r'.daily_order_number ≡ suc r.daily_order_number
create_guest_order_consecutive db u v t table table' session session' as' bs m n s r r' day h k =
    let s' = (create_guest_order db u t table as' m session s).1 in
    let (o, done, told, _, tenants, _) = create_guest_order-tx db u t table session as' m s r h in
    let (o', done', told', _, _, _) = create_guest_order-tx db v t table' session' bs n s' r' k in
    let (row, items, p) = tx-IsPlaced db u t table session as' s o done in
    let (row', items', p') = tx-IsPlaced db v t table' session' bs s' o' done' in
    let number = next_number db t u.today row in
    let counts : All (Counts t number u.today) s'.tenants =
      rw (tenants ∙ p.counter) (with_number-Counts db t u.today number s) in
    let next : next_number db t u.today row' ≡ suc number =
      next-Counts db t u.today number s'.tenants row' counts p'.tenant in
    rw (told', told, p'.number, p.number, day) next
