-- ===== src/Orders/Active/Grouped.antt =====
-- The groups of `findActive` against the items of the order.
use bonapp.Base.{
  ℕ, ◌+◌, ◌≡◌, refl, ◌∙◌, Bool, false, List, [], ◌∷◌, map, if◌then◌else◌, ◌==◌, ◌&&◌, ◌||◌, select,
  any, sum_by, All, arith,
}
use bonapp.Database.{Store, Order, OrderItem, MenuItem}
use bonapp.Orders.Active.{
  ActiveItem, is_group, add_to_group, group_items, active_order, find_active, is_in_work,
}

abbrev pub is_item : ℕ → ℕ → OrderItem → Bool
is_item department item i = i.kitchen_department == department && i.item_id == item

-- The pieces of a dish that a department has to make, by the order and by what is shown.
abbrev pub ordered : ℕ → ℕ → List OrderItem → ℕ
ordered d k items = sum_by (λ i. if is_item d k i then i.quantity else 0) items

abbrev pub shown : ℕ → ℕ → List ActiveItem → ℕ
shown d k groups = sum_by (λ g. if is_group d k g then g.quantity else 0) groups

abbrev pub HasKeys : List ActiveItem → Type 0
HasKeys [] = Unit
HasKeys (g ∷ groups) =
    (any (is_group g.kitchen_department g.item_id) groups ≡ false) × HasKeys groups

shown-add_to_group :
    (rows : List MenuItem) (i : OrderItem) (d k : ℕ) (groups : List ActiveItem)
    → shown d k (add_to_group rows i groups)
      ≡ shown d k groups + (if is_item d k i then i.quantity else 0)
unfolding add_to_group
shown-add_to_group rows i d k [] = ground arith
shown-add_to_group rows i d k (g ∷ groups) = ground (arith, shown-add_to_group rows i d k groups)

any-add_to_group :
    (rows : List MenuItem) (i : OrderItem) (d k : ℕ) (groups : List ActiveItem)
    → any (is_group d k) (add_to_group rows i groups) ≡ (is_item d k i || any (is_group d k) groups)
unfolding add_to_group
any-add_to_group rows i d k [] = ground arith
any-add_to_group rows i d k (g ∷ groups) = ground (arith, any-add_to_group rows i d k groups)

HasKeys-add_to_group :
    (rows : List MenuItem) (i : OrderItem) (groups : List ActiveItem)
    → HasKeys groups
    → HasKeys (add_to_group rows i groups)
unfolding add_to_group
HasKeys-add_to_group rows i [] h = (refl, tt)
HasKeys-add_to_group rows i (g ∷ groups) h = ground (
  arith,
  any-add_to_group rows i g.kitchen_department g.item_id groups,
  HasKeys-add_to_group rows i groups,
)

-- The groups are those of the items: one for each department and dish of the order, with the sum of
-- the pieces.
pub record IsGrouped (items : List OrderItem) (groups : List ActiveItem) : Type 0 where
  pub keys : HasKeys groups
  pub sums : (d k : ℕ) → shown d k groups ≡ ordered d k items
  pub same : (d k : ℕ) → any (is_group d k) groups ≡ any (is_item d k) items

shown-group_items :
    (rows : List MenuItem) (d k : ℕ) (groups : List ActiveItem) (items : List OrderItem)
    → shown d k (group_items rows groups items) ≡ shown d k groups + ordered d k items
unfolding group_items
shown-group_items rows d k groups [] = omega arith
shown-group_items rows d k groups (i ∷ items) = omega (
  arith,
  shown-group_items rows d k (add_to_group rows i groups) items,
  shown-add_to_group rows i d k groups,
)

any-group_items :
    (rows : List MenuItem) (d k : ℕ) (groups : List ActiveItem) (items : List OrderItem)
    → any (is_group d k) (group_items rows groups items)
      ≡ (any (is_item d k) items || any (is_group d k) groups)
unfolding group_items
any-group_items rows d k groups [] = refl
any-group_items rows d k groups (i ∷ items) = ground (
  arith,
  any-group_items rows d k (add_to_group rows i groups) items,
  any-add_to_group rows i d k groups,
)

HasKeys-group_items :
    (rows : List MenuItem) (groups : List ActiveItem) (items : List OrderItem)
    → HasKeys groups
    → HasKeys (group_items rows groups items)
unfolding group_items
HasKeys-group_items rows groups [] h = h
HasKeys-group_items rows groups (i ∷ items) h =
    HasKeys-group_items rows (add_to_group rows i groups) items
      (HasKeys-add_to_group rows i groups h)

active_orders-IsGrouped :
    (rows : List MenuItem) (orders : List Order)
    → All (λ a. IsGrouped a.order.items a.items) (map (active_order rows) orders)
active_orders-IsGrouped rows [] = tt
active_orders-IsGrouped rows (o ∷ orders) = (
  record {
    keys = HasKeys-group_items rows [] o.items tt;
    sums = λ d k. shown-group_items rows d k [] o.items ∙ omega arith;
    same = λ d k. ground (arith, any-group_items rows d k [] o.items);
  },
  active_orders-IsGrouped rows orders,
)

active_orders :
    (rows : List MenuItem) (orders : List Order)
    → map (λ a. a.order) (map (active_order rows) orders) ≡ orders
active_orders rows [] = refl
active_orders rows (o ∷ orders) = cc (active_orders rows orders)

-- `findActive` shows the orders of the restaurant that are NEW, COOKING or READY, in the order that
-- the database gives. Each has one line for each department and dish among its items, and no other;
-- the line shows as many pieces as the items of that department and dish have together.
pub find_active-IsGrouped :
    (by_created : List Order → List Order) (tenant : ℕ) (s : Store)
    → (map (λ a. a.order) (find_active by_created tenant s)
        ≡ by_created (select (λ o. o.tenant_id == tenant && is_in_work o.status) s.orders))
      × All (λ a. IsGrouped a.order.items a.items) (find_active by_created tenant s)
unfolding find_active
find_active-IsGrouped by_created tenant s = (active_orders _ _, active_orders-IsGrouped _ _)
