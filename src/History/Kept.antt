-- ===== src/History/Kept.antt =====
-- What each operation keeps of the table of orders: unique ids, and the paid mark.
use bonapp.Base.{
  ℕ, ◌≡◌, ◌∙◌, inl, inr, refl, Bool, true, false, Option, none, some, List, [], ◌∷◌, arith, All,
  Option-cases, ◌==◌,
}
use bonapp.Database.{
  Prisma, Store, Order, OrderStatus, UserRole, ◌=ₒ◌, HasKeys, IsOnly, find_first-IsOnly,
  update_many, update_many-HasKeys, All-update_many, All-update_many_step,
}
use bonapp.Orders.Status.{of_order, with_payment, with_status, change_status, update_status}
use bonapp.Orders.Status.Paid.{IsMarked, order_id, pay-keeps, change_status-IsMarked}
use bonapp.Orders.Kitchen.{
  update_kitchen_status, kitchen_tx, move_some, move_items, moving, progression_index, follows,
}
use bonapp.Orders.Kitchen.Laws.{follows-Next, Next}

pub record IsSound (rows : List Order) : Type 0 where
  pub keys : HasKeys order_id rows
  pub marked : All IsMarked rows

-- A write to some rows that touches neither the id nor the mark.
pub update_many-IsSound :
    (filter : Order → Bool) (data' : Order → Order)
    → ((o : Order) → (data' o).id ≡ o.id)
    → ((o : Order) → IsMarked o → IsMarked (data' o))
    → (rows : List Order) → IsSound rows
    → IsSound (update_many filter data' rows)
update_many-IsSound filter data' same keep rows h = record {
  keys = update_many-HasKeys order_id filter data' same rows h.keys;
  marked = All-update_many IsMarked filter data' rows (λ o _. keep o) h.marked;
}

pub paid-IsSound :
    (t now id : ℕ) (rows : List Order)
    → IsSound rows
    → IsSound (update_many (of_order id t) (with_payment now) rows)
paid-IsSound t now id =
    update_many-IsSound (of_order id t) (with_payment now) (λ o. refl) (λ o _. refl)

module _ (db : Prisma) where
  change_status-keys :
      (tenant_id : Option ℕ) (id : ℕ) (status : OrderStatus) (now : ℕ) (s : Store)
      → HasKeys order_id s.orders
      → HasKeys order_id (change_status db tenant_id id status now s).1.orders
  unfolding change_status
  change_status-keys none id status now s h = h
  change_status-keys (some t) id status now s h = ground (
    arith,
    pay-keeps db (HasKeys order_id) (some t) id now s
        (λ u. update_many-HasKeys order_id (of_order id u) (with_payment now) (λ r. refl) s.orders)
        h,
    update_many-HasKeys order_id (of_order id t) (with_status status) (λ r. refl) s.orders h,
  )

  pub change_status-IsSound :
      (tenant_id : Option ℕ) (id : ℕ) (status : OrderStatus) (now : ℕ) (s : Store)
      → IsSound s.orders
      → IsSound (change_status db tenant_id id status now s).1.orders
  change_status-IsSound tenant_id id status now s h = record {
    keys = change_status-keys tenant_id id status now s h.keys;
    marked = change_status-IsMarked db tenant_id id status now s h.keys h.marked;
  }

  -- The rows of an order that is found and whose status is not PAID are not marked as paid.
  abbrev IsOpen : ℕ → ℕ → Order → Type 0
  IsOpen id t r = IsMarked r × (of_order id t r ≡ true → r.is_paid ≡ false)

  found-IsOpen :
      (id t : ℕ) (o r : Order)
      → of_order id t o ≡ true
      → o.is_paid ≡ false
      → IsMarked r
      → (r.id ≡ o.id → r ≡ o)
      → IsOpen id t r
  found-IsOpen id t o r fits unpaid marked only = (marked, λ e. rw (only (ground arith)) unpaid)

  IsOpen-rows :
      (id t : ℕ) (o : Order) (rows : List Order)
      → of_order id t o ≡ true
      → o.is_paid ≡ false
      → All IsMarked rows
      → IsOnly order_id rows o
      → All (IsOpen id t) rows
  IsOpen-rows id t o [] fits unpaid marked only = tt
  IsOpen-rows id t o (r ∷ rows) fits unpaid marked only = (
    found-IsOpen id t o r fits unpaid marked.0 only.0,
    IsOpen-rows id t o rows fits unpaid marked.1 only.1,
  )

  rows-IsOpen :
      (id t : ℕ) (o : Order) (rows : List Order)
      → IsSound rows
      → db.find_first (of_order id t) rows ≡ some o
      → (o.status =ₒ OrderStatus.paid) ≡ false
      → All (IsOpen id t) rows
  rows-IsOpen id t o rows h found ne =
      let marked : IsMarked o =
        db.find_first_listed IsMarked (of_order id t) rows o found h.marked in
      IsOpen-rows id t o rows (db.find_first_matches (of_order id t) rows o found) (ground arith)
        h.marked (find_first-IsOnly order_id db (of_order id t) rows o h.keys found)

  stepped-IsSound :
      (id t : ℕ) (status : OrderStatus) (rows : List Order)
      → HasKeys order_id rows
      → All (IsOpen id t) rows
      → (status =ₒ OrderStatus.paid) ≡ false
      → IsSound (update_many (of_order id t) (with_status status) rows)
  stepped-IsSound id t status rows keys open' ne = record {
    keys = update_many-HasKeys order_id (of_order id t) (with_status status) (λ r. refl) rows keys;
    marked =
        All-update_many_step (IsOpen id t) IsMarked (of_order id t) (with_status status) rows
          (λ r e h. ground (arith, h.1 e)) (λ r e h. h.0) open';
  }

  -- `updateStatus` of an order that is not paid, to another status than PAID.
  pub update_status-IsSound :
      (tenant id : ℕ) (status : OrderStatus) (s : Store)
      → (status =ₒ OrderStatus.paid) ≡ false
      → ((o : Order) → db.find_first (of_order id tenant) s.orders ≡ some o → o.is_paid ≡ false)
      → IsSound s.orders
      → IsSound (update_status db (some tenant) id status s).1.orders
  unfolding update_status
  update_status-IsSound tenant id status s ne unpaid h =
      elim (Option-cases (db.find_first (of_order id tenant) s.orders)) [
        | inl missing ↦ ground arith
        | inr (o, found) ↦
            let marked : IsMarked o =
              db.find_first_listed IsMarked (of_order id tenant) s.orders o found h.marked in
            let open' = rows-IsOpen id tenant o s.orders h found (marked ∙ unpaid o found) in
            let new = stepped-IsSound id tenant status s.orders h.keys open' ne in ground arith
      ]

  Next-ne-paid :
      {a b : OrderStatus}
      → Next a b
      → ((a =ₒ OrderStatus.paid) ≡ false) × ((b =ₒ OrderStatus.paid) ≡ false)
  Next-ne-paid Next.cook = (refl, refl)
  Next-ne-paid Next.serve = (refl, refl)

  module _ (Q : List Order → Type 0) (t id : ℕ) (status : OrderStatus) (s : Store) where
    kitchen_tx-keeps :
        (department : Option ℕ) (o : Order)
        → db.find_first (of_order id t) s.orders ≡ some o
        → (follows (progression_index o.status) (progression_index status) ≡ true
            → Q (update_many (of_order id t) (with_status status) s.orders)
              × Q (update_many (λ r. r.id == id) (move_items (moving department o) status) s.orders)
              × Q (
                  update_many (of_order id t) (with_status status) (
                    update_many
                      (λ r. r.id == id)
                      (move_items (moving department o) status)
                      s.orders)))
        → Q s.orders
        → Q (kitchen_tx db t id status department s).1.orders
    unfolding kitchen_tx move_some
    kitchen_tx-keeps department o found keep h = ground (arith, keep)

  moved-IsOpen :
      (id t : ℕ) (ids : List ℕ) (status : OrderStatus) (rows : List Order)
      → All (IsOpen id t) rows
      → All (IsOpen id t) (update_many (λ r. r.id == id) (move_items ids status) rows)
  moved-IsOpen id t ids status rows =
      All-update_many (IsOpen id t) (λ r. r.id == id) (move_items ids status) rows (λ r _ h. h)

  moved-keys :
      (id : ℕ) (ids : List ℕ) (status : OrderStatus) (rows : List Order)
      → HasKeys order_id rows
      → HasKeys order_id (update_many (λ r. r.id == id) (move_items ids status) rows)
  moved-keys id ids status =
      update_many-HasKeys order_id (λ r. r.id == id) (move_items ids status) (λ r. refl)

  kitchen_tx-IsSound :
      (t id : ℕ) (status : OrderStatus) (department : Option ℕ) (o : Order) (s : Store)
      → db.find_first (of_order id t) s.orders ≡ some o
      → IsSound s.orders
      → IsSound (kitchen_tx db t id status department s).1.orders
  kitchen_tx-IsSound t id status department o s found h =
      kitchen_tx-keeps IsSound t id status s department o found
        (λ follow.
          let (from, to) = Next-ne-paid (follows-Next o.status status follow) in
          let rows = rows-IsOpen id t o s.orders h found from in
          let ids = moving department o in
          (
            stepped-IsSound id t status s.orders h.keys rows to,
            update_many-IsSound (λ r. r.id == id) (move_items ids status) (λ r. refl) (λ r m. m)
                s.orders h,
            stepped-IsSound id t status
                (update_many (λ r. r.id == id) (move_items ids status) s.orders)
                (moved-keys id ids status s.orders h.keys)
                (moved-IsOpen id t ids status s.orders rows) to,
          ))
        h

  kitchen_tx-missing :
      (t id : ℕ) (status : OrderStatus) (department : Option ℕ) (s : Store)
      → db.find_first (of_order id t) s.orders ≡ none
      → (kitchen_tx db t id status department s).1 ≡ s
  unfolding kitchen_tx
  kitchen_tx-missing t id status department s missing = ground arith

  kitchen_any-IsSound :
      (t id : ℕ) (status : OrderStatus) (department : Option ℕ) (s : Store)
      → IsSound s.orders
      → IsSound (kitchen_tx db t id status department s).1.orders
  kitchen_any-IsSound t id status department s h =
      elim (Option-cases (db.find_first (of_order id t) s.orders)) [
        | inl missing ↦ rw (kitchen_tx-missing t id status department s missing) h
        | inr (o, found) ↦ kitchen_tx-IsSound t id status department o s found h
      ]

  kitchen-keeps :
      (Q : List Order → Type 0) (tenant_id : Option ℕ) (id : ℕ) (status : Option OrderStatus)
      (department : Option ℕ) (user : ℕ) (role : UserRole) (s : Store)
      → ((t : ℕ) (target : OrderStatus) → Q (kitchen_tx db t id target department s).1.orders)
      → Q s.orders
      → Q (update_kitchen_status db tenant_id id status department user role s).1.orders
  unfolding update_kitchen_status
  kitchen-keeps Q none id status department user role s keep h = h
  kitchen-keeps Q (some t) id none department user role s keep h = ground arith
  kitchen-keeps Q (some t) id (some target) department user role s keep h =
      ground (arith, keep t target)

  pub kitchen-IsSound :
      (tenant_id : Option ℕ) (id : ℕ) (status : Option OrderStatus) (department : Option ℕ)
      (user : ℕ) (role : UserRole) (s : Store)
      → IsSound s.orders
      → IsSound (update_kitchen_status db tenant_id id status department user role s).1.orders
  kitchen-IsSound tenant_id id status department user role s h =
      kitchen-keeps IsSound tenant_id id status department user role s
        (λ t target. kitchen_any-IsSound t id target department s h) h
