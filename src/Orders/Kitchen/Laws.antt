-- ===== src/Orders/Kitchen/Laws.antt =====
-- What a kitchen step does to the order and its items.
use bonapp.Base.{
  ℕ, ◌≡◌, refl, sym, ap, ◌∙◌, true, false, none, some, List, Option, arith, select, ok, is_empty,
  inl, inr, All, Option-cases, Bool-cases, ◌==◌,
}
use bonapp.Database.{
  Prisma, Store, Order, OrderStatus, ◌=ₒ◌, UserRole, HasKeys, update_many-HasKeys,
}
use bonapp.Orders.Status.{of_order, with_status}
use bonapp.Orders.Status.Paid.{order_id}
use bonapp.Orders.Kitchen.{
  KitchenAnswer, columns, progression_index, follows, moving, move_items, all_processed, kitchen_tx,
  update_kitchen_status,
}
use bonapp.Orders.Kitchen.Moved.{item_id, stepped}
use bonapp.Orders.Kitchen.Written.{
  is_other, set_status, set_items, move_some-done, kitchen_tx-done, set_items-found,
  set_status-found, set_items-others, set_status-others, answer_for, stepped-empty, stepped-all,
  stepped-some, answer_for-reached, answer_for-open,
}

-- The kitchen takes an order from NEW to COOKING to SERVED.
pub data Next : OrderStatus → OrderStatus → Type 0 where
  cook : Next OrderStatus.new OrderStatus.cooking
  serve : Next OrderStatus.cooking OrderStatus.served

pub follows-Next :
    (a b : OrderStatus) → follows (progression_index a) (progression_index b) ≡ true → Next a b
unfolding progression_index
follows-Next OrderStatus.new OrderStatus.cooking h = cook
follows-Next OrderStatus.cooking OrderStatus.served h = serve
follows-Next _ _ h = absurd (ground arith)

Next-ne : {a b : OrderStatus} → Next a b → (a =ₒ b) ≡ false
Next-ne Next.cook = refl
Next-ne Next.serve = refl

module _ (db : Prisma) (t id user : ℕ) (role : UserRole) (status : OrderStatus)
    (department : Option ℕ) (s : Store) where
  -- The orders after the request.
  abbrev pub after : List Order
  after = (update_kitchen_status db (some t) id (some status) department user role s).1.orders

  update_kitchen_status-kitchen_tx :
      (answer : KitchenAnswer)
      → (update_kitchen_status db (some t) id (some status) department user role s).0 ≡ ok answer
      → ((kitchen_tx db t id status department s).0 ≡ ok answer)
        × (after ≡ (kitchen_tx db t id status department s).1.orders)
  unfolding update_kitchen_status
  update_kitchen_status-kitchen_tx answer h = (ground arith, ground arith)

  kitchen_tx-missing :
      (answer : KitchenAnswer)
      → db.find_first (of_order id t) s.orders ≡ none
      → (kitchen_tx db t id status department s).0 ≡ ok answer
      → ⊥
  unfolding kitchen_tx
  kitchen_tx-missing answer missing h = ground arith

  -- What a successful kitchen step has done.
  pub record Stepped (old : Order) (answer : KitchenAnswer) : Type 0 where
    pub found : db.find_first (of_order id t) s.orders ≡ some old
    pub next : Next old.status status
    pub stored : db.find_first (of_order id t) after ≡ some (stepped department status old)
    pub others : select (is_other id) after ≡ select (is_other id) s.orders
    pub answered : answer ≡ answer_for status (stepped department status old)

  emptied :
      (old : Order) (answer : KitchenAnswer)
      → HasKeys order_id s.orders
      → db.find_first (of_order id t) s.orders ≡ some old
      → Next old.status status
      → is_empty old.items ≡ true
      → answer ≡ columns (with_status status old)
      → after ≡ set_status db t id status s.orders
      → Stepped old answer
  emptied old answer keys found step none_left same orders =
      let e = stepped-empty department status old none_left in
      record {
        found = found;
        next = step;
        stored = rw orders (set_status-found db t id status s.orders old keys found ∙ ap some e);
        others = rw orders (set_status-others db t id status s.orders);
        answered =
            same
            ∙ ap columns e
            ∙ answer_for-reached department status old (ap (λ o. o.status) (sym e));
      }

  moved-all :
      (old : Order) (answer : KitchenAnswer)
      → HasKeys order_id s.orders
      → HasKeys item_id old.items
      → db.find_first (of_order id t) s.orders ≡ some old
      → Next old.status status
      → all_processed (moving department old) status old ≡ true
      → answer ≡ columns (with_status status (move_items (moving department old) status old))
      → after
        ≡ set_status db t id status (set_items db t id status (moving department old) s.orders)
      → Stepped old answer
  moved-all old answer keys item_keys found step done same orders =
      let ids = moving department old in
      let e = stepped-all department status old item_keys done in
      record {
        found = found;
        next = step;
        stored = rw orders (
            set_status-found db t id status (set_items db t id status ids s.orders)
              (move_items ids status old)
              (update_many-HasKeys order_id (λ o. o.id == id) (move_items ids status) (λ r. refl)
                s.orders keys)
              (set_items-found db t id status ids s.orders old keys found)
            ∙ ap some e);
        others = rw orders (
            set_status-others db t id status (set_items db t id status ids s.orders)
            ∙ set_items-others db t id status ids s.orders);
        answered =
            same
            ∙ ap columns e
            ∙ answer_for-reached department status old (ap (λ o. o.status) (sym e));
      }

  moved-some :
      (old : Order) (answer : KitchenAnswer)
      → HasKeys order_id s.orders
      → HasKeys item_id old.items
      → db.find_first (of_order id t) s.orders ≡ some old
      → Next old.status status
      → all_processed (moving department old) status old ≡ false
      → answer ≡ KitchenAnswer.whole (move_items (moving department old) status old)
      → after ≡ set_items db t id status (moving department old) s.orders
      → Stepped old answer
  moved-some old answer keys item_keys found step open_yet same orders =
      let ids = moving department old in
      let e = stepped-some department status old item_keys open_yet in
      record {
        found = found;
        next = step;
        stored = rw orders (set_items-found db t id status ids s.orders old keys found ∙ ap some e);
        others = rw orders (set_items-others db t id status ids s.orders);
        answered =
            same
            ∙ ap KitchenAnswer.whole e
            ∙ answer_for-open department status old
                (ap (λ o. o.status =ₒ status) (sym e) ∙ Next-ne step);
      }

  -- Where the ids of the orders, and those of the items of each order, are unique, a kitchen step that
  -- succeeds is for an order of the restaurant that is found, whose status is the one before the
  -- requested one in the kitchen's progression. Afterwards the order is found with each item of the
  -- department (or each item, where none is given) that was at the status of the order at the requested
  -- one, the other items unchanged, and the order itself at the requested status if all of its items
  -- are then, and at its old one otherwise; the other orders are as they were. The answer is this
  -- row, without the items exactly when the order has reached the status.
  pub update_kitchen_status-Stepped :
      (answer : KitchenAnswer)
      → HasKeys order_id s.orders
      → All (λ (o : Order). HasKeys item_id o.items) s.orders
      → (update_kitchen_status db (some t) id (some status) department user role s).0 ≡ ok answer
      → (old : Order) × Stepped old answer
  update_kitchen_status-Stepped answer keys items h =
      let (tx, orders) = update_kitchen_status-kitchen_tx answer h in
      elim (Option-cases (db.find_first (of_order id t) s.orders)) [
        | inl missing ↦ absurd (kitchen_tx-missing answer missing tx)
        | inr (old, found) ↦
            let (step, cases) = kitchen_tx-done db t id status department old answer s found tx in
            let next = follows-Next old.status status step in
            let item_keys =
              db.find_first_listed (λ (o : Order). HasKeys item_id o.items) (of_order id t) s.orders
                old found items in
            (
              old,
              elim cases [
                | inl (none_left, same, written) ↦
                    emptied old answer keys found next none_left same (orders ∙ written)
                | inr (some_left, same) ↦
                    let ids = moving department old in
                    let (chosen, written, answered) =
                      move_some-done db t id status ids old answer s (rw (sym same) tx) in
                    let rows = orders ∙ ap (λ r. r.1.orders) same ∙ written in
                    elim (Bool-cases (all_processed ids status old)) [
                      | inl done ↦
                          moved-all old answer keys item_keys found next done
                            (ground (arith, answered)) (ground (arith, rows))
                      | inr open_yet ↦
                          moved-some old answer keys item_keys found next open_yet
                            (ground (arith, answered)) (ground (arith, rows))
                    ]
              ],
            )
      ]
