-- ===== src/Orders/Active.antt =====
-- `findActive` (apps/api/src/orders/orders.service.ts): the orders in work, each with its items
-- grouped by department and dish. The order of the rows by `createdAt` is a parameter; texts, such as
-- names and ids, are numbers.
pub mod Grouped
use bonapp.Base.{
  ℕ, ◌+◌, Bool, true, false, Option, none, some, List, [], ◌∷◌, ◌++◌, map, if◌then◌else◌, ◌==◌,
  ◌&&◌, select, includes, or_else,
}
use bonapp.Database.{Store, Order, OrderItem, OrderStatus, MenuItem}

pub record ActiveItem : Type 0 where
  pub item_id : ℕ
  pub name : ℕ
  pub quantity : ℕ
  pub kitchen_department : ℕ

pub record ActiveOrder : Type 0 where
  pub order : Order
  pub items : List ActiveItem

-- NEW, COOKING and READY
abbrev pub is_in_work : OrderStatus → Bool
is_in_work OrderStatus.new = true
is_in_work OrderStatus.cooking = true
is_in_work OrderStatus.ready = true
is_in_work _ = false

-- `names.get(id)`, where a later row replaces an earlier one
abbrev pub name_of : ℕ → List MenuItem → Option ℕ
name_of id [] = none
name_of id (m ∷ rows) = elim (name_of id rows) [
  | some n ↦ some n
  | none ↦ if m.id == id then some m.name else none
]

abbrev pub item_ids : List Order → List ℕ
item_ids [] = []
item_ids (o ∷ orders) = map (λ (i : OrderItem). i.item_id) o.items ++ item_ids orders

abbrev pub menu_rows : ℕ → List ℕ → List MenuItem → List MenuItem
menu_rows tenant ids = select (λ m. m.tenant_id == tenant && includes m.id ids)

-- `${kitchenDepartment}\u0000${itemId}` is the key of the group.
abbrev pub is_group : ℕ → ℕ → ActiveItem → Bool
is_group department item g = g.kitchen_department == department && g.item_id == item

abbrev pub new_group : List MenuItem → OrderItem → ActiveItem
new_group rows i = record {
  item_id = i.item_id;
  name = or_else (name_of i.item_id rows) i.item_id;
  quantity = i.quantity;
  kitchen_department = i.kitchen_department;
}

-- one turn of the loop over the items
unfoldable pub add_to_group : List MenuItem → OrderItem → List ActiveItem → List ActiveItem
add_to_group rows i [] = new_group rows i ∷ []
add_to_group rows i (g ∷ groups) =
    if is_group i.kitchen_department i.item_id g
    then record g { quantity = g.quantity + i.quantity } ∷ groups
    else g ∷ add_to_group rows i groups

unfoldable pub group_items : List MenuItem → List ActiveItem → List OrderItem → List ActiveItem
group_items rows groups [] = groups
group_items rows groups (i ∷ items) = group_items rows (add_to_group rows i groups) items

abbrev pub active_order : List MenuItem → Order → ActiveOrder
active_order rows o = record { order = o; items = group_items rows [] o.items }

unfoldable pub find_active : (List Order → List Order) → ℕ → Store → List ActiveOrder
find_active by_created tenant s =
    let orders =
      by_created (select (λ (o : Order). o.tenant_id == tenant && is_in_work o.status) s.orders) in
    map (active_order (menu_rows tenant (item_ids orders) s.menu_items)) orders
