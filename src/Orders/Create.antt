-- ===== src/Orders/Create.antt =====
-- New orders: `create` (apps/api/src/orders/orders.service.ts), `createGuestOrder` and
-- `addOrderItem` (apps/api/src/guest-session/guest-session.service.ts), and the daily number
-- (apps/api/src/orders/daily-order-number.ts). The local date is the date text that the time zone
-- service gives, and an id is what the database generates: both are arguments.
pub mod Laws
pub mod Guests
use bonapp.Base.{
  ℕ, ◌+◌, ◌*◌, Bool, true, false, Option, none, some, List, [], ◌∷◌, ◌++◌, if◌then◌else◌, ◌==◌,
  ◌&&◌, ◌||◌, not, any, ltb, is_empty, same_codes, option_is, or_else, Result, ok, err, Error,
  require, throw_if, gets, pure, modify, transaction, ◌>>=◌, ◌>>◌,
}
use bonapp.Database.{
  Prisma, Store, Order, OrderItem, OrderStatus, TableStatus, Tenant, Guest, DiningTable, MenuItem,
  is_available, is_view_only, ◌=ₒ◌, update_many, update_unique, count, emit, Event,
}
use bonapp.Orders.Status.{of_order, of_table, update_order}
use bonapp.Orders.Phone.{normalize_belarus_phone}
use bonapp.Orders.Pricing.{RequestedItem, price_items, total_amount, hot}

-- `counterDate === localDate ? currentNumber + 1 : 1`
unfoldable pub next_daily_order_number : ℕ → Option ℕ → ℕ → ℕ
next_daily_order_number current counter_date local_date =
    if option_is counter_date local_date then current + 1 else 1

abbrev pub of_tenant : ℕ → Tenant → Bool
of_tenant id t = t.id == id

abbrev pub numbered : ℕ → ℕ → Tenant → Tenant
numbered number today t = record t {
  daily_order_number = number;
  daily_order_number_date = some today;
}

-- `tx.tenant.update`
abbrev pub number_tenant : ℕ → ℕ → ℕ → Store → Result (Unit {0}) × Store
number_tenant tenant number today =
    update_unique (λ s. s.tenants) (λ rows s. record s { tenants = rows }) (of_tenant tenant)
      (numbered number today)

-- `tx.table.updateMany` with `status: AVAILABLE`, and its count
abbrev pub is_free : ℕ → ℕ → DiningTable → Bool
is_free id tenant t = of_table id tenant t && is_available t.status

abbrev pub occupy : DiningTable → DiningTable
occupy t = record t { status = TableStatus.occupied }

-- `guestPhone === undefined ? undefined : normalizeBelarusPhone(guestPhone)`
abbrev pub normalized_phone : Option (List ℕ) → Store → Result (Option (List ℕ)) × Store
normalized_phone none s = pure none s
normalized_phone (some phone) s =
    (elim (normalize_belarus_phone phone) [ ok p ↦ ok (some p) | err e ↦ err e ], s)

-- what the database and the clock supply to a new order
pub record Supply : Type 0 where
  pub today : ℕ
  pub now : ℕ
  pub order_id : ℕ
  pub guest_id : ℕ
  pub item_id : ℕ → ℕ

abbrev pub new_order : Supply → ℕ → ℕ → ℕ → Option ℕ → Option ℕ → List OrderItem → Order
new_order u tenant table number session guest items = record {
  id = u.order_id;
  tenant_id = tenant;
  table_id = table;
  daily_order_number = number;
  status = OrderStatus.new;
  guest_session_id = session;
  guest_id = guest;
  total_amount_byn = total_amount items;
  tips_amount_byn = 0;
  is_paid = false;
  paid_at = none;
  pos_order_id = none;
  pos_order_submitted_at = none;
  created_at = u.now;
  items = items;
}

abbrev pub add_order : Order → Store → Result (Unit {0}) × Store
add_order o = modify (λ s. record s { orders = s.orders ++ o ∷ [] })

module _ (db : Prisma) where
  -- `tx.guest.upsert`
  unfoldable pub upsert_guest : ℕ → ℕ → Option (List ℕ) → Store → Result (Option ℕ) × Store
  upsert_guest new_id tenant none s = pure none s
  upsert_guest new_id tenant (some phone) s =
      elim (db.find_first (λ (g : Guest). g.tenant_id == tenant && same_codes g.phone phone)
        s.guests) [
          | some g ↦ (ok (some g.id), s)
          | none ↦ (
            ok (some new_id),
            record s {
              guests = s.guests ++ (record { id = new_id; tenant_id = tenant; phone = phone }) ∷ [];
            },
          )
        ]

  -- `nextDailyOrderNumber` of the tenant's row, written back to it
  unfoldable pub take_number : ℕ → ℕ → Tenant → Store → Result ℕ × Store
  unfolding next_daily_order_number
  take_number tenant today row = do
    let number = next_daily_order_number row.daily_order_number row.daily_order_number_date today
    number_tenant tenant number today
    pure number

  unfoldable pub price_all :
      Supply → ℕ → List RequestedItem → Store → Result (List OrderItem) × Store
  price_all u tenant requested s = (price_items db tenant s.menu_items u.item_id 0 requested, s)

  -- the transaction of `create`
  unfoldable pub create_tx :
      Supply → ℕ → ℕ → Option (List ℕ) → List RequestedItem → Store → Result Order × Store
  create_tx u tenant table_id phone requested = do
    row ← require (← gets (λ s. db.find_first (of_tenant tenant) s.tenants)) Error.not_found
    throw_if (is_view_only row.service_mode) Error.conflict
    table ←
        require
          (← gets (λ s. db.find_first (λ (t : DiningTable). of_table table_id tenant t) s.tables))
          Error.not_found
    reserved ← gets (λ s. count (is_free table_id tenant) s.tables)
    modify (λ s. record s { tables = update_many (is_free table_id tenant) occupy s.tables })
    throw_if (not (reserved == 1)) Error.conflict
    number ← take_number tenant u.today row
    guest ← upsert_guest u.guest_id tenant phone
    items ← price_all u tenant requested
    let order = new_order u tenant table_id number none guest items
    add_order order
    pure order

  unfoldable pub create :
      Supply → Option ℕ → ℕ → Option (List ℕ) → List RequestedItem → Store → Result Order × Store
  create u tenant_id table_id guest_phone requested = do
    tenant ← require tenant_id Error.forbidden
    phone ← normalized_phone guest_phone
    transaction (create_tx u tenant table_id phone requested)

-- `item.quantity < 1 || item.quantity > 20`
abbrev pub bad_quantity : RequestedItem → Bool
bad_quantity r = ltb r.quantity 1 || ltb 20 r.quantity

pub record GuestReceipt : Type 0 where
  pub order_id : ℕ
  pub daily_order_number : ℕ
  pub status : OrderStatus
  pub total_amount_byn : ℕ
  pub estimated_ready_time : ℕ

abbrev pub receipt : Order → GuestReceipt
receipt o = record {
  order_id = o.id;
  daily_order_number = o.daily_order_number;
  status = o.status;
  total_amount_byn = o.total_amount_byn;
  estimated_ready_time = o.created_at + 12 * 60000;
}

module _ (db : Prisma) where
  -- the transaction of `createGuestOrder`; it reads the counter again under the lock
  unfoldable pub guest_order_tx :
      Supply → ℕ → ℕ → Option ℕ → List RequestedItem → Store → Result Order × Store
  guest_order_tx u tenant table_id session requested = do
    row ← require (← gets (λ s. db.find_first (of_tenant tenant) s.tenants)) Error.not_found
    throw_if (is_view_only row.service_mode) Error.conflict
    latest ← require (← gets (λ s. db.find_first (of_tenant tenant) s.tenants)) Error.not_found
    number ← take_number db tenant u.today latest
    items ← price_all db u tenant requested
    let order = new_order u tenant table_id number session none items
    add_order order
    pure order

  -- `comment_length` is the length of the comment, which is only stored.
  unfoldable pub create_guest_order :
      Supply → ℕ → ℕ → List RequestedItem → ℕ → Option ℕ → Store → Result GuestReceipt × Store
  create_guest_order u tenant table_id requested comment_length session = do
    throw_if (is_empty requested) Error.bad_request
    throw_if (ltb 255 comment_length) Error.bad_request
    throw_if (any bad_quantity requested) Error.bad_request
    order ← transaction (guest_order_tx u tenant table_id session requested)
    emit (Event.pos_order_enqueued order.id)
    emit (Event.kitchen_order_created order.id)
    pure (receipt order)

  -- the filter of the order that a guest may still add to
  abbrev pub is_extendable : ℕ → ℕ → ℕ → Order → Bool
  is_extendable id tenant table o =
      of_order id tenant o
      && (o.table_id == table
          && ((o.status =ₒ OrderStatus.new || o.status =ₒ OrderStatus.cooking) && not o.is_paid))

  abbrev pub on_menu : ℕ → ℕ → MenuItem → Bool
  on_menu id tenant m =
      m.id == id && (m.tenant_id == tenant && (m.is_active && not m.is_in_stop_list))

  abbrev pub added_item : ℕ → ℕ → OrderStatus → MenuItem → OrderItem
  added_item new_id quantity status m = record {
    id = new_id;
    item_id = m.id;
    quantity = quantity;
    unit_price_byn = m.price_byn;
    selected_modifiers = [];
    status = status;
    kitchen_department = or_else m.kitchen_department hot;
  }

  abbrev pub with_item : OrderItem → Order → Order
  with_item i o = record o {
    total_amount_byn = o.total_amount_byn + i.unit_price_byn * i.quantity;
    items = o.items ++ i ∷ [];
  }

  unfoldable pub add_item_tx : ℕ → ℕ → ℕ → ℕ → ℕ → ℕ → Store → Result OrderItem × Store
  add_item_tx new_id order_id item_id quantity tenant table_id = do
    order ←
        require (← gets (λ s. db.find_first (is_extendable order_id tenant table_id) s.orders))
          Error.forbidden
    m ← require (← gets (λ s. db.find_first (on_menu item_id tenant) s.menu_items)) Error.not_found
    throw_if m.is_stopped Error.not_found
    let item = added_item new_id quantity order.status m
    update_order (of_order order_id tenant) (with_item item)
    pure item

  unfoldable pub add_order_item : ℕ → ℕ → ℕ → ℕ → ℕ → ℕ → Store → Result OrderItem × Store
  unfolding add_item_tx
  add_order_item new_id order_id item_id quantity tenant table_id = do
    item ← transaction (add_item_tx new_id order_id item_id quantity tenant table_id)
    emit (Event.kitchen_order_updated order_id)
    pure item
