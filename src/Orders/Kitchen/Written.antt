-- ===== src/Orders/Kitchen/Written.antt =====
-- What the writes of a kitchen step leave of the orders.
use bonapp.Base.{
  ℕ, ◌≡◌, refl, ap, true, false, Bool, some, List, [], ◌∷◌, Option, arith, select, not, ok,
  is_empty, inl, inr, Bool-cases, if◌then◌else◌, ◌==◌, ◌⊎◌,
}
use bonapp.Database.{
  Prisma, Store, Order, OrderItem, OrderStatus, ◌=ₒ◌, HasKeys, update_many, find_first-updated,
  find_first-update_many,
}
use bonapp.Orders.Status.{of_order, with_status}
use bonapp.Orders.Status.Paid.{order_id}
use bonapp.Orders.Kitchen.{
  KitchenAnswer, columns, progression_index, follows, moving, move_items, move_some, all_processed,
  kitchen_tx,
}
use bonapp.Orders.Kitchen.Moved.{item_id, stepped, move_items-moved, all_processed-moved}

abbrev pub is_other : ℕ → Order → Bool
is_other id o = not (o.id == id)

-- An update of the rows with an id leaves the others alone.
others-update_many :
    (id : ℕ) (filter : Order → Bool) (data' : Order → Order) (rows : List Order)
    → ((r : Order) → filter r ≡ true → (r.id == id) ≡ true)
    → ((r : Order) → (data' r).id ≡ r.id)
    → select (is_other id) (update_many filter data' rows) ≡ select (is_other id) rows
unfolding update_many
others-update_many id filter data' [] own same = refl
others-update_many id filter data' (r ∷ rows) own same =
    ground (arith, own r, same r, others-update_many id filter data' rows own same)

module _ (db : Prisma) (t id : ℕ) (status : OrderStatus) where
  -- The orders afterwards, as the updates in a row.
  abbrev pub set_status : List Order → List Order
  set_status = update_many (of_order id t) (with_status status)

  abbrev pub set_items : List ℕ → List Order → List Order
  set_items ids = update_many (λ o. o.id == id) (move_items ids status)

  pub move_some-done :
      (ids : List ℕ) (old : Order) (answer : KitchenAnswer) (s : Store)
      → (move_some db t id status ids old s).0 ≡ ok answer
      → (is_empty ids ≡ false)
        × ((move_some db t id status ids old s).1.orders ≡ (
            if all_processed ids status old
            then set_status (set_items ids s.orders)
            else set_items ids s.orders))
        × (answer ≡ (
            if all_processed ids status old
            then columns (with_status status (move_items ids status old))
            else KitchenAnswer.whole (move_items ids status old)))
  unfolding move_some
  move_some-done ids old answer s h = (ground arith, ground arith, ground arith)

  pub kitchen_tx-done :
      (department : Option ℕ) (old : Order) (answer : KitchenAnswer) (s : Store)
      → db.find_first (of_order id t) s.orders ≡ some old
      → (kitchen_tx db t id status department s).0 ≡ ok answer
      → (follows (progression_index old.status) (progression_index status) ≡ true)
        × (((is_empty old.items ≡ true)
              × (answer ≡ columns (with_status status old))
              × ((kitchen_tx db t id status department s).1.orders ≡ set_status s.orders))
            ⊎ ((is_empty old.items ≡ false)
                × (kitchen_tx db t id status department s
                    ≡ move_some db t id status (moving department old) old s)))
  unfolding kitchen_tx
  kitchen_tx-done department old answer s found h = (
    ground arith,
    elim (Bool-cases (is_empty old.items)) [
      | inl none_left ↦ inl (none_left, ground arith, ground arith)
      | inr some_left ↦ inr (some_left, ground arith)
    ],
  )

  by_id : (r x : Order) → of_order id t r ≡ true → of_order id t x ≡ true → x.id ≡ r.id
  by_id r x h k = ground arith

  own_id : (r : Order) → of_order id t r ≡ true → (r.id == id) ≡ true
  own_id r h = ground arith

  pub set_items-found :
      (ids : List ℕ) (rows : List Order) (o : Order)
      → HasKeys order_id rows
      → db.find_first (of_order id t) rows ≡ some o
      → db.find_first (of_order id t) (set_items ids rows) ≡ some (move_items ids status o)
  set_items-found ids =
      find_first-updated order_id db (of_order id t) (λ o. o.id == id) (move_items ids status)
        (λ r. refl) own_id by_id

  pub set_status-found :
      (rows : List Order) (o : Order)
      → HasKeys order_id rows
      → db.find_first (of_order id t) rows ≡ some o
      → db.find_first (of_order id t) (set_status rows) ≡ some (with_status status o)
  set_status-found =
      find_first-update_many order_id db (of_order id t) (with_status status) (λ r. refl) by_id

  pub set_items-others :
      (ids : List ℕ) (rows : List Order)
      → select (is_other id) (set_items ids rows) ≡ select (is_other id) rows
  set_items-others ids rows =
      others-update_many id (λ o. o.id == id) (move_items ids status) rows (λ r e. e) (λ r. refl)

  pub set_status-others :
      (rows : List Order) → select (is_other id) (set_status rows) ≡ select (is_other id) rows
  set_status-others rows =
      others-update_many id (of_order id t) (with_status status) rows own_id (λ r. refl)

-- The answer has the items exactly when the order has not reached the status.
abbrev pub answer_for : OrderStatus → Order → KitchenAnswer
answer_for status o = if o.status =ₒ status then columns o else KitchenAnswer.whole o

no_items : (items : List OrderItem) → is_empty items ≡ true → items ≡ []
no_items [] h = refl
no_items (i ∷ items) h = absurd (ground arith)

=ₒ_refl : (a : OrderStatus) → (a =ₒ a) ≡ true
=ₒ_refl a = ground arith

module _ (department : Option ℕ) (status : OrderStatus) (old : Order) where
  pub stepped-empty :
      is_empty old.items ≡ true → with_status status old ≡ stepped department status old
  stepped-empty h = let e = no_items old.items h in ground arith

  pub stepped-all :
      HasKeys item_id old.items
      → all_processed (moving department old) status old ≡ true
      → with_status status (move_items (moving department old) status old)
        ≡ stepped department status old
  stepped-all keys h =
      let e = move_items-moved department status old keys in
      let f = all_processed-moved department status old keys in ground arith

  pub stepped-some :
      HasKeys item_id old.items
      → all_processed (moving department old) status old ≡ false
      → move_items (moving department old) status old ≡ stepped department status old
  stepped-some keys h =
      let e = move_items-moved department status old keys in
      let f = all_processed-moved department status old keys in ground arith

  pub answer_for-reached :
      (stepped department status old).status ≡ status
      → columns (stepped department status old) ≡ answer_for status (stepped department status old)
  answer_for-reached h = ground (arith, =ₒ_refl status, ap (λ x. x =ₒ status) h)

  pub answer_for-open :
      ((stepped department status old).status =ₒ status) ≡ false
      → KitchenAnswer.whole (stepped department status old)
        ≡ answer_for status (stepped department status old)
  answer_for-open h = rw h refl
