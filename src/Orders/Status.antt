-- ===== src/Orders/Status.antt =====
-- The order's life (apps/api/src/orders/orders.service.ts): `changeStatus`, `pay`, `updateStatus`.
pub mod Paid
pub mod Lifecycle
pub mod Progress
pub mod Overridden
use bonapp.Base.{
  ℕ, Bool, true, Option, some, List, [], ◌∷◌, if◌then◌else◌, any, ◌==◌, ◌&&◌, ◌||◌, not, Result,
  Error, require, throw_if, gets, pure, transaction, ◌>>=◌, ◌>>◌, is_some,
}
use bonapp.Database.{
  Prisma, Store, Order, DiningTable, OrderStatus, TableStatus, ◌=ₒ◌, is_settled, update_unique,
  emit, Event,
}

abbrev pub of_order : ℕ → ℕ → Order → Bool
of_order id tenant o = o.id == id && o.tenant_id == tenant

abbrev pub of_table : ℕ → ℕ → DiningTable → Bool
of_table id tenant t = t.id == id && t.tenant_id == tenant

abbrev pub update_order : (Order → Bool) → (Order → Order) → Store → Result (Unit {0}) × Store
update_order = update_unique (λ s. s.orders) (λ rows s. record s { orders = rows })

abbrev pub update_table : ℕ → ℕ → TableStatus → Store → Result (Unit {0}) × Store
update_table id tenant status =
    update_unique (λ s. s.tables) (λ rows s. record s { tables = rows }) (of_table id tenant)
      (λ t. record t { status = status })

-- `transitions` of `changeStatus`; a status with no entry allows nothing
unfoldable pub transitions : OrderStatus → List OrderStatus
transitions OrderStatus.new = OrderStatus.cooking ∷ OrderStatus.cancelled ∷ []
transitions OrderStatus.cooking = OrderStatus.ready ∷ OrderStatus.cancelled ∷ []
transitions OrderStatus.ready = OrderStatus.served ∷ OrderStatus.cancelled ∷ []
transitions OrderStatus.served = OrderStatus.cancelled ∷ []
transitions OrderStatus.paid = []
transitions OrderStatus.cancelled = []

unfoldable pub can_change : OrderStatus → OrderStatus → Bool
unfolding transitions
can_change from to = any (λ s. s =ₒ to) (transitions from)

abbrev pub with_status : OrderStatus → Order → Order
with_status status o = record o { status = status }

abbrev pub with_payment : ℕ → Order → Order
with_payment now o = record o { is_paid = true; status = OrderStatus.paid; paid_at = some now }

-- What a change of status does to the table of the order.
unfoldable pub settle_table : ℕ → ℕ → OrderStatus → Store → Result (Unit {0}) × Store
settle_table table tenant OrderStatus.served = update_table table tenant TableStatus.occupied
settle_table table tenant OrderStatus.cancelled = update_table table tenant TableStatus.available
settle_table table tenant _ = pure tt

module _ (db : Prisma) (tenant_id : Option ℕ) where
  -- the transaction of `pay`
  unfoldable pub pay_tx : ℕ → ℕ → ℕ → Store → Result Order × Store
  pay_tx tenant id now = do
    order ← require (← gets (λ s. db.find_first (of_order id tenant) s.orders)) Error.not_found
    throw_if (order.is_paid || order.status =ₒ OrderStatus.paid) Error.conflict
    throw_if (not (order.status =ₒ OrderStatus.served)) Error.conflict
    payment ← gets (λ s.
        db.find_first (λ p. p.order_id == id && (p.tenant_id == tenant && is_settled p.status))
          s.payments)
    throw_if (not (is_some payment)) Error.conflict
    update_order (of_order id tenant) (with_payment now)
    update_table order.table_id tenant TableStatus.available
    pure (with_payment now order)

  unfoldable pub pay : ℕ → ℕ → Store → Result Order × Store
  unfolding pay_tx
  pay id now = do
    tenant ← require tenant_id Error.forbidden
    order ← transaction (pay_tx tenant id now)
    emit (Event.order_status_changed id OrderStatus.paid)
    pure order

  -- the transaction of `changeStatus`
  unfoldable pub change_status_tx : ℕ → ℕ → OrderStatus → Store → Result Order × Store
  unfolding can_change settle_table
  change_status_tx tenant id status = do
    order ← require (← gets (λ s. db.find_first (of_order id tenant) s.orders)) Error.not_found
    throw_if (not (can_change order.status status)) Error.bad_request
    update_order (of_order id tenant) (with_status status)
    settle_table order.table_id tenant status
    pure (with_status status order)

  unfoldable pub change_status : ℕ → OrderStatus → ℕ → Store → Result Order × Store
  unfolding change_status_tx pay
  change_status id status now = do
    tenant ← require tenant_id Error.forbidden
    if status =ₒ OrderStatus.paid then pay id now else (do
      order ← transaction (change_status_tx tenant id status)
      emit (Event.order_status_changed id status)
      pure order)

  unfoldable pub update_status : ℕ → OrderStatus → Store → Result Order × Store
  update_status id status = do
    tenant ← require tenant_id Error.forbidden
    order ← require (← gets (λ s. db.find_first (of_order id tenant) s.orders)) Error.not_found
    update_order (of_order id tenant) (with_status status)
    pure (with_status status order)
