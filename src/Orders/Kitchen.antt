-- ===== src/Orders/Kitchen.antt =====
-- The kitchen display (apps/api/src/orders/orders.service.ts): `updateKitchenStatus`,
-- `getKitchenDepartments` and the list of `findKitchenOrders`.
pub mod Moved
pub mod Written
pub mod Laws
use bonapp.Base.{
  ℕ, ◌+◌, Bool, true, false, Option, none, some, List, [], if◌then◌else◌, ◌==◌, ◌&&◌, not, Result,
  Error, require, throw_if, gets, pure, transaction, modify, ◌>>=◌, ◌>>◌, all, select, is_empty,
  includes, map, leb,
}
use bonapp.Database.{
  Prisma, Store, Order, OrderItem, OrderStatus, User, UserRole, ◌=ₒ◌, is_manager, update_many, emit,
  Event,
}
use bonapp.Orders.Status.{of_order, with_status, update_order}

-- `progression.indexOf(status)`; none is -1
unfoldable pub progression_index : OrderStatus → Option ℕ
progression_index OrderStatus.new = some 0
progression_index OrderStatus.cooking = some 1
progression_index OrderStatus.served = some 2
progression_index _ = none

-- `currentIndex >= 0 && targetIndex === currentIndex + 1`
abbrev pub follows : Option ℕ → Option ℕ → Bool
follows (some current) (some target) = target == current + 1
follows _ _ = false

-- `!(targetIndex < 1)`
abbrev pub is_target : Option ℕ → Bool
is_target none = false
is_target (some i) = leb 1 i

-- `departments !== null && (!department || !departments.includes(department))`
abbrev pub lacks_access : Option (List ℕ) → Option ℕ → Bool
lacks_access none department = false
lacks_access (some departments) none = true
lacks_access (some departments) (some d) = not (includes d departments)

-- `!department || item.kitchenDepartment === department`
abbrev pub is_visible : Option ℕ → OrderItem → Bool
is_visible none item = true
is_visible (some d) item = item.kitchen_department == d

abbrev pub item_ids : List OrderItem → List ℕ
item_ids items = map (λ (i : OrderItem). i.id) items

abbrev pub move_item : List ℕ → OrderStatus → OrderItem → OrderItem
move_item ids status item = if includes item.id ids then record item { status = status } else item

abbrev pub move_items : List ℕ → OrderStatus → Order → Order
move_items ids status o = record o { items = map (move_item ids status) o.items }

-- the items of the department that are at the status of the order
unfoldable pub moving : Option ℕ → Order → List ℕ
moving department o =
    item_ids (select (λ i. i.status =ₒ o.status) (select (is_visible department) o.items))

-- `remainingItems.every((item) => item.status === status)`
unfoldable pub all_processed : List ℕ → OrderStatus → Order → Bool
all_processed ids status o =
    all (λ i. i.status =ₒ status) (select (λ i. not (includes i.id ids)) o.items)

-- What `updateKitchenStatus` answers: the row with its items as they were read and moved, or the row of
-- `tx.order.update`, which comes without them.
pub data KitchenAnswer : Type 0 where
  whole without_items : Order → KitchenAnswer

abbrev pub columns : Order → KitchenAnswer
columns o = KitchenAnswer.without_items (record o { items = [] })

abbrev pub answered_id : KitchenAnswer → ℕ
answered_id (KitchenAnswer.whole o) = o.id
answered_id (KitchenAnswer.without_items o) = o.id

module _ (db : Prisma) where
  unfoldable pub get_kitchen_departments :
      ℕ → UserRole → Option ℕ → Store → Result (Option (List ℕ)) × Store
  get_kitchen_departments user_id role tenant_id = if is_manager role then pure none else (do
    tenant ← require tenant_id Error.forbidden
    user ←
        require
          (← gets
            (λ s. db.find_first (λ (u : User). u.id == user_id && u.tenant_id == tenant) s.users))
          Error.forbidden
    throw_if (is_empty user.kitchen_departments) Error.forbidden
    pure (some user.kitchen_departments))

  unfoldable pub move_some :
      ℕ → ℕ → OrderStatus → List ℕ → Order → Store → Result KitchenAnswer × Store
  unfolding all_processed
  move_some tenant id status ids order = do
    throw_if (is_empty ids) Error.conflict
    modify
        (λ s. record s { orders = update_many (λ o. o.id == id) (move_items ids status) s.orders })
    let moved = move_items ids status order
    if all_processed ids status order
        then (do
          update_order (of_order id tenant) (with_status status)
          pure (columns (with_status status moved)))
        else pure (KitchenAnswer.whole moved)

  -- the transaction of `updateKitchenStatus`
  unfoldable pub kitchen_tx : ℕ → ℕ → OrderStatus → Option ℕ → Store → Result KitchenAnswer × Store
  unfolding progression_index moving
  kitchen_tx tenant id status department = do
    order ← require (← gets (λ s. db.find_first (of_order id tenant) s.orders)) Error.not_found
    throw_if (is_empty (select (is_visible department) order.items) && not (is_empty order.items))
        Error.forbidden
    throw_if (not (follows (progression_index order.status) (progression_index status)))
        Error.conflict
    if is_empty order.items
        then (do
          update_order (of_order id tenant) (with_status status)
          pure (columns (with_status status order)))
        else move_some tenant id status (moving department order) order

  -- `status` is none for a text that names no status of an order.
  unfoldable pub update_kitchen_status :
      Option ℕ
      → ℕ
      → Option OrderStatus
      → Option ℕ
      → ℕ
      → UserRole
      → Store
      → Result KitchenAnswer × Store
  unfolding get_kitchen_departments progression_index
  update_kitchen_status tenant_id id status department user_id role = do
    tenant ← require tenant_id Error.forbidden
    departments ← get_kitchen_departments user_id role (some tenant)
    throw_if (lacks_access departments department) Error.forbidden
    target ← require status Error.conflict
    throw_if (not (is_target (progression_index target))) Error.conflict
    updated ← transaction (kitchen_tx tenant id target department)
    emit (Event.kitchen_order_updated (answered_id updated))
    pure updated
