-- ===== src/Tests/Orders.antt =====
-- Runs of the operations on orders.
use bonapp.Base.{ℕ, ◌≡◌, ◌≤◌, ◌⊎◌, refl, true, false, none, some, List, [], ◌∷◌, All, ok, is_ok}
use bonapp.Database.Instance.{first_row}
use bonapp.Database.{
  count, update_many, OrderStatus, Order, OrderItem, MenuItem, Provider, PaymentStatus, TableStatus,
  Store, UserRole,
}
use bonapp.Tests.Fixture.{order, with_order, with_payment_of, store, supply, wish, dish, soup}
use bonapp.Orders.Status.{of_order, with_status, with_payment, change_status, pay, of_table}
use bonapp.Orders.Status.Lifecycle.{Advance, change_status-Advance, pay-effect}
use bonapp.Orders.Kitchen.{KitchenAnswer, columns, kitchen_tx, move_some, update_kitchen_status}
use bonapp.Orders.Kitchen.Laws.{Stepped, update_kitchen_status-Stepped}
use bonapp.Orders.Pricing.{price_item, price_items, total_amount}
use bonapp.Orders.Pricing.Laws.{IsPriced, price_item-IsPriced}
use bonapp.Orders.Create.{
  create, create_tx, take_number, upsert_guest, price_all, guest_order_tx, create_guest_order,
  receipt,
}
use bonapp.Orders.Create.Laws.{create-create}
use bonapp.Orders.Create.Guests.{create_guest_order-total}

change_status-Advance_example :
    (old : Order) × (first_row.find_first (of_order 100 1) (with_order OrderStatus.new).orders
      ≡ some old)
    × Advance old.status OrderStatus.cooking
    × (order OrderStatus.cooking ≡ with_status OrderStatus.cooking old)
unfolding change_status
change_status-Advance_example =
    change_status-Advance first_row 1 100 500 (with_order OrderStatus.new) OrderStatus.cooking
      (order OrderStatus.cooking) refl refl

pay-effect_example :
    All
      (λ r.
        (of_order 100 1 r ≡ false)
        ⊎ ((r.status ≡ OrderStatus.paid) × (r.is_paid ≡ true) × (r.paid_at ≡ some 500)))
      (pay first_row
        (some 1)
        100
        500
        (with_payment_of Provider.bepaid PaymentStatus.succeeded)).1.orders
    × All
        (λ r. (of_table 5 1 r ≡ false) ⊎ (r.status ≡ TableStatus.available))
        (pay first_row
          (some 1)
          100
          500
          (with_payment_of Provider.bepaid PaymentStatus.succeeded)).1.tables
unfolding pay
pay-effect_example =
    pay-effect first_row 1 100 500 (with_payment_of Provider.bepaid PaymentStatus.succeeded)
      (with_payment 500 (order OrderStatus.served)) refl

-- The order starts to cook with its only item, and the answer has no items.
abbrev cooked : KitchenAnswer
cooked = columns (order OrderStatus.cooking)

update_kitchen_status-Stepped_example :
    (old : Order) × Stepped first_row 1 100 40 UserRole.manager OrderStatus.cooking
      (some 0)
      (with_order OrderStatus.new)
      old
      cooked
unfolding update_kitchen_status kitchen_tx move_some update_many
update_kitchen_status-Stepped_example =
    update_kitchen_status-Stepped first_row 1 100 40 UserRole.manager OrderStatus.cooking (some 0)
      (with_order OrderStatus.new) cooked (tt, tt) ((tt, tt), tt) refl

abbrev priced : ℕ → OrderItem
priced id = record soup {
  id = id;
  unit_price_byn = 550;
  selected_modifiers = 31 ∷ [];
  kitchen_department = 2;
}

price_item-IsPriced_example : (m : MenuItem) × IsPriced first_row 1 0 (dish ∷ []) wish (priced 0) m
unfolding price_item
price_item-IsPriced_example = price_item-IsPriced first_row 1 0 (dish ∷ []) wish (priced 0) refl

abbrev local_number : List ℕ
local_number = b'2' ∷ b'9' ∷ b'1' ∷ b'2' ∷ b'3' ∷ b'4' ∷ b'5' ∷ b'6' ∷ b'7' ∷ []

abbrev full_number : List ℕ
full_number = b'+' ∷ b'3' ∷ b'7' ∷ b'5' ∷ local_number

abbrev free_store : Store
free_store = store [] [] TableStatus.available []

abbrev made : ℕ → Order
made number = record (order OrderStatus.new) {
  id = 101;
  daily_order_number = number;
  created_at = 100;
  items = priced 0 ∷ [];
}

create-create_example :
    is_ok
      (create first_row supply
        (some 1)
        5
        none
        (wish ∷ [])
        (create first_row supply (some 1) 5 none (wish ∷ []) free_store).1).0
    ≡ false
unfolding create create_tx count take_number upsert_guest price_all price_items total_amount
create-create_example =
    create-create first_row supply supply 1 5 none none (wish ∷ []) (wish ∷ []) free_store (made 4)
      refl

create_guest_order-total_example :
    (o : Order) × All (λ p. (1 ≤ p.quantity) × (p.quantity ≤ 20)) (wish ∷ [])
    × (price_items first_row 1 (dish ∷ []) supply.item_id 0 (wish ∷ []) ≡ ok o.items)
    × ((create_guest_order first_row supply 1 5 (wish ∷ []) 0 none free_store).1.orders ≡ o ∷ [])
    × (o.status ≡ OrderStatus.new)
    × (o.is_paid ≡ false)
    × (o.total_amount_byn ≡ total_amount o.items)
    × (1100 ≡ total_amount o.items)
unfolding create_guest_order guest_order_tx take_number price_all price_items total_amount
create_guest_order-total_example =
    create_guest_order-total first_row supply 1 5 none (wish ∷ []) 0 free_store (receipt (made 4))
      refl
