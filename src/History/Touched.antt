-- ===== src/History/Touched.antt =====
-- The operations that write orders and leave their ids and marks alone: `addOrderItem`, and the worker
-- that submits orders to the POS.
use bonapp.Base.{ℕ, ◌≡◌, inl, inr, refl, Option, List, arith, Option-cases}
use bonapp.Database.{Prisma, Store, Order, OrderItem, update_many}
use bonapp.Orders.Status.{of_order}
use bonapp.Orders.Create.{
  with_item, add_order_item, add_item_tx, added_item, is_extendable, on_menu,
}
use bonapp.Pos.Recovery
use bonapp.Pos.Recovery.{
  PosSetup, Answer, claimed, released, with_pos_id, is_claimable, is_releasable, submit,
}
use bonapp.History.Kept.{IsSound, update_many-IsSound}

module _ (Q : List Order → Type 0) (db : Prisma) where
  add_item_tx-keeps :
      (new_id id item quantity t table : ℕ) (s : Store)
      → ((i : OrderItem) → Q (update_many (of_order id t) (with_item db i) s.orders))
      → Q s.orders
      → Q (add_item_tx db new_id id item quantity t table s).1.orders
  unfolding add_item_tx
  add_item_tx-keeps new_id id item quantity t table s keep h =
      elim (Option-cases (db.find_first (is_extendable db id t table) s.orders)) [
        | inl missing ↦ ground arith
        | inr (o, found) ↦ elim (Option-cases (db.find_first (on_menu db item t) s.menu_items)) [
          | inl off ↦ ground arith
          | inr (m, on) ↦ ground (arith, keep (added_item db new_id quantity o.status m))
        ]
      ]

  add_order_item-keeps :
      (new_id id item quantity t table : ℕ) (s : Store)
      → ((i : OrderItem) → Q (update_many (of_order id t) (with_item db i) s.orders))
      → Q s.orders
      → Q (add_order_item db new_id id item quantity t table s).1.orders
  unfolding add_order_item
  add_order_item-keeps new_id id item quantity t table s keep h =
      ground (arith, add_item_tx-keeps new_id id item quantity t table s keep h)

  module _ (pos_item : ℕ → Option ℕ) (answer : Order → Answer) (now t : ℕ) where
    abbrev after_claim : ℕ → List Order → List Order
    after_claim id = update_many (is_claimable t id) (claimed now)

    answered-keeps :
        (o : Order) (a : Answer) (s : Store)
        → answer o ≡ a
        → Q (after_claim o.id s.orders)
        → Q (update_many (is_releasable t o.id) released (after_claim o.id s.orders))
        → ((p : ℕ) → Q (update_many (of_order o.id t) (with_pos_id p) (after_claim o.id s.orders)))
        → Q (submit db pos_item answer now t o s).1.orders
    unfolding submit
    answered-keeps o (Answer.accepted p) s e claim release mark = ground (arith, mark p)
    answered-keeps o Answer.rejected s e claim release mark = ground arith
    answered-keeps o Answer.lost s e claim release mark = ground arith

    process-keeps :
        (setup : PosSetup) (id : ℕ) (s : Store)
        → ((o : Order) → Q (submit db pos_item answer now t o s).1.orders)
        → Q s.orders
        → Q (Recovery.process db pos_item answer setup now t id s).1.orders
    unfolding Recovery.process
    process-keeps PosSetup.missing id s keep h = h
    process-keeps PosSetup.unsupported id s keep h =
        elim (Option-cases (db.find_first (of_order id t) s.orders)) [
          | inl missing ↦ ground arith
          | inr (o, found) ↦ ground (arith, keep o)
        ]
    process-keeps PosSetup.supported id s keep h =
        elim (Option-cases (db.find_first (of_order id t) s.orders)) [
          | inl missing ↦ ground arith
          | inr (o, found) ↦ ground (arith, keep o)
        ]

module _ (db : Prisma) where
  pub add_order_item-IsSound :
      (new_id id item quantity t table : ℕ) (s : Store)
      → IsSound s.orders
      → IsSound (add_order_item db new_id id item quantity t table s).1.orders
  add_order_item-IsSound new_id id item quantity t table s h =
      add_order_item-keeps IsSound db new_id id item quantity t table s
        (λ i.
          update_many-IsSound (of_order id t) (with_item db i) (λ o. refl) (λ o m. m) s.orders h)
        h

  module _ (pos_item : ℕ → Option ℕ) (answer : Order → Answer) (now t : ℕ) where
    claim-IsSound :
        (id : ℕ) (rows : List Order)
        → IsSound rows
        → IsSound (update_many (is_claimable t id) (claimed now) rows)
    claim-IsSound id = update_many-IsSound (is_claimable t id) (claimed now) (λ o. refl) (λ o m. m)

    submit-IsSound :
        (o : Order) (s : Store)
        → IsSound s.orders
        → IsSound (submit db pos_item answer now t o s).1.orders
    submit-IsSound o s h =
        let claim = claim-IsSound o.id s.orders h in
        answered-keeps IsSound db pos_item answer now t o (answer o) s refl claim
          (update_many-IsSound (is_releasable t o.id) released (λ o. refl) (λ o m. m) _ claim)
          (λ p.
            update_many-IsSound (of_order o.id t) (with_pos_id p) (λ o. refl) (λ o m. m) _ claim)

    pub process-IsSound :
        (setup : PosSetup) (id : ℕ) (s : Store)
        → IsSound s.orders
        → IsSound (Recovery.process db pos_item answer setup now t id s).1.orders
    process-IsSound setup id s h =
        process-keeps IsSound db pos_item answer now t setup id s (λ o. submit-IsSound o s h) h
