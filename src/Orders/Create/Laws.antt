-- ===== src/Orders/Create/Laws.antt =====
-- Numbers, reservations and totals of new orders.
use bonapp.Base.{
  ℕ, ◌≡◌, refl, true, false, Bool, Option, none, some, List, [], ◌∷◌, arith, any, ok, err, Error,
  inl, inr, ◌⊎◌, if◌then◌else◌, is_ok, Result-cases, pure, ◌>>◌,
}
use bonapp.Database.{Prisma, Store, Tenant, DiningTable, Order, update_many, count}
use bonapp.Orders.Phone.{normalize_belarus_phone}
use bonapp.Orders.Pricing.{RequestedItem}
use bonapp.Orders.Create.{
  Supply, of_tenant, numbered, next_daily_order_number, take_number, is_free, occupy, create,
  create_tx, upsert_guest, price_all,
}

-- After the tables of a filter are occupied none of them is free.
count-occupied :
    (id tenant : ℕ) (tables : List DiningTable)
    → count (is_free id tenant) (update_many (is_free id tenant) occupy tables) ≡ 0
unfolding count update_many
count-occupied id tenant [] = refl
count-occupied id tenant (t ∷ tables) = ground (arith, count-occupied id tenant tables)

-- A write that may throw, followed by a result, keeps what the write keeps.
written-keeps :
    {A : Type 0} (f : Store → A) (b : Bool) (s s' : Store) (n : ℕ)
    → f s' ≡ f s
    → f (((λ (_ : Store). if b then (ok tt, s') else (err Error.failure, s)) >> pure n) s).1 ≡ f s
written-keeps f true s s' n h = h
written-keeps f false s s' n h = refl

pub written-ok :
    (b : Bool) (s s' : Store) (n m : ℕ)
    → (((λ (_ : Store). if b then (ok tt, s') else (err Error.failure, s)) >> pure n) s).0 ≡ ok m
    → (m ≡ n)
      × ((((λ (_ : Store). if b then (ok tt, s') else (err Error.failure, s)) >> pure n) s).1 ≡ s')
written-ok true s s' n m h = (cc, refl)
written-ok false s s' n m h = absurd (cc)

pub normalized :
    (p : List ℕ)
    → ((q : List ℕ) × (normalize_belarus_phone p ≡ ok q))
      ⊎ ((e : Error) × (normalize_belarus_phone p ≡ err e))
normalized p = Result-cases (normalize_belarus_phone p)

module _ (db : Prisma) (u : Supply) (t : ℕ) where
  pub take_number-keeps :
      (today : ℕ) (row : Tenant) (s : Store)
      → ((take_number db t today row s).1.tables ≡ s.tables)
        × ((take_number db t today row s).1.orders ≡ s.orders)
  unfolding take_number
  take_number-keeps today row s =
      let number =
        next_daily_order_number row.daily_order_number row.daily_order_number_date today in
      let s' = record s { tenants = update_many (of_tenant t) (numbered number today) s.tenants } in
      (
        written-keeps (λ s. s.tables) (any (of_tenant t) s.tenants) s s' number refl,
        written-keeps (λ s. s.orders) (any (of_tenant t) s.tenants) s s' number refl,
      )

  pub upsert_guest-keeps :
      (id : ℕ) (phone : Option (List ℕ)) (s : Store)
      → ((upsert_guest db id t phone s).1.tables ≡ s.tables)
        × ((upsert_guest db id t phone s).1.orders ≡ s.orders)
  unfolding upsert_guest
  upsert_guest-keeps id none s = (refl, refl)
  upsert_guest-keeps id (some p) s = ground arith

  pub price_all-keeps :
      (requested : List RequestedItem) (s : Store) → (price_all db u t requested s).1 ≡ s
  unfolding price_all
  price_all-keeps requested s = refl

  -- the steps of `create_tx` after the reservation
  module _ (table : ℕ) (requested : List RequestedItem) where
    create_tx-tables :
        (phone : Option (List ℕ)) (s : Store) (o : Order)
        → (create_tx db u t table phone requested s).0 ≡ ok o
        → (create_tx db u t table phone requested s).1.tables
          ≡ update_many (is_free table t) occupy s.tables
    unfolding create_tx
    create_tx-tables phone s o h =
        grind (arith, take_number-keeps, upsert_guest-keeps, price_all-keeps)

    create_tx-busy :
        (phone : Option (List ℕ)) (s : Store)
        → count (is_free table t) s.tables ≡ 0
        → is_ok (create_tx db u t table phone requested s).0 ≡ false
    unfolding create_tx
    create_tx-busy phone s h = ground arith

    create-tables :
        (guest_phone : Option (List ℕ)) (s : Store) (o : Order)
        → (create db u (some t) table guest_phone requested s).0 ≡ ok o
        → (create db u (some t) table guest_phone requested s).1.tables
          ≡ update_many (is_free table t) occupy s.tables
    unfolding create
    create-tables none s o h = ground (arith, create_tx-tables none s o)
    create-tables (some p) s o h = elim (normalized p) [
      | inl (q, e) ↦ ground (arith, create_tx-tables (some q) s o)
      | inr (x, e) ↦ absurd (ground arith)
    ]

    create-busy :
        (guest_phone : Option (List ℕ)) (s : Store)
        → count (is_free table t) s.tables ≡ 0
        → is_ok (create db u (some t) table guest_phone requested s).0 ≡ false
    unfolding create
    create-busy none s h = ground (arith, create_tx-busy none s)
    create-busy (some p) s h = elim (normalized p) [
      | inl (q, e) ↦ ground (arith, create_tx-busy (some q) s)
      | inr (x, e) ↦ ground arith
    ]

-- A table that an order of the staff has taken is not taken by a second one: right after a `create`
-- that succeeds, a `create` for the same table fails, whatever its phone and items.
pub create-create :
    (db : Prisma) (u v : Supply) (t table : ℕ) (p q : Option (List ℕ)) (as' bs : List RequestedItem)
    (s : Store) (o : Order)
    → (create db u (some t) table p as' s).0 ≡ ok o
    → is_ok (create db v (some t) table q bs (create db u (some t) table p as' s).1).0 ≡ false
create-create db u v t table p q as' bs s o h =
    create-busy db v t table bs q (create db u (some t) table p as' s).1
      (rw (create-tables db u t table as' p s o h) (count-occupied table t s.tables))
