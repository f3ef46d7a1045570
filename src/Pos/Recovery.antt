-- ===== src/Pos/Recovery.antt =====
-- Orders sent to the restaurant's POS: claim, submission and recovery
-- (apps/api/src/onboarding/pos-order-recovery.ts), and the worker
-- (apps/api/src/onboarding/pos-order-queue.service.ts). The POS is a parameter.
pub mod Laws
use bonapp.Base.{
  ℕ, zero, suc, ◌+◌, Bool, true, false, Option, none, some, List, [], ◌∷◌, ◌++◌, if◌then◌else◌,
  ◌==◌, ◌&&◌, ◌||◌, not, is_some, Result, ok, err, Error, all, select, map, modify, gets, pure,
  throw_if, require, ◌>>=◌, ◌>>◌,
}
use bonapp.Database.{Prisma, Store, Order, OrderStatus, update_many, count, update_unique}
use bonapp.Orders.Status.{of_order, update_order}

-- `ACTIVE_ORDER_STATUSES.includes(status)`
abbrev pub is_active : OrderStatus → Bool
is_active OrderStatus.paid = false
is_active OrderStatus.cancelled = false
is_active _ = true

unfoldable pub is_pos_order_eligible : OrderStatus → Bool → Bool
is_pos_order_eligible status is_paid = not is_paid && is_active status

abbrev pub is_claimable : ℕ → ℕ → Order → Bool
is_claimable tenant id o =
    of_order id tenant o
    && (not (is_some o.pos_order_id)
        && (not (is_some o.pos_order_submitted_at) && (not o.is_paid && is_active o.status)))

abbrev pub claimed : ℕ → Order → Order
claimed now o = record o { pos_order_submitted_at = some now }

-- `claimPosOrderSubmission`: one UPDATE, and whether it changed one row
unfoldable pub claim_pos_order_submission : ℕ → ℕ → ℕ → Store → Result Bool × Store
claim_pos_order_submission now tenant id = do
  n ← gets (λ s. count (is_claimable tenant id) s.orders)
  modify (λ s. record s { orders = update_many (is_claimable tenant id) (claimed now) s.orders })
  pure (n == 1)

abbrev pub is_releasable : ℕ → ℕ → Order → Bool
is_releasable tenant id o =
    of_order id tenant o && (not (is_some o.pos_order_id) && is_some o.pos_order_submitted_at)

abbrev pub released : Order → Order
released o = record o { pos_order_submitted_at = none }

unfoldable pub release_rejected_pos_order_submission : ℕ → ℕ → Store → Result (Unit {0}) × Store
release_rejected_pos_order_submission tenant id =
    modify (λ s. record s { orders = update_many (is_releasable tenant id) released s.orders })

-- The answer of the POS: the id that it gave, a rejection (`PosOrderRejectedError`), or any other
-- failure, after which the order may have arrived.
pub data Answer : Type 0 where
  accepted : ℕ → Answer
  rejected lost : Answer

unfoldable pub submit_claimed_pos_order : Answer → ℕ → ℕ → Store → Result ℕ × Store
unfolding release_rejected_pos_order_submission
submit_claimed_pos_order (Answer.accepted pos_id) tenant id = pure pos_id
submit_claimed_pos_order Answer.rejected tenant id = do
  release_rejected_pos_order_submission tenant id
  (λ s. (err Error.failure, s))
submit_claimed_pos_order Answer.lost tenant id = λ s. (err Error.failure, s)

-- The tenant's POS settings, as far as the worker tells them apart.
pub data PosSetup : Type 0 where
  missing unsupported supported : PosSetup

-- The ids that the POS has for the dishes of an order, or none if one has no id.
abbrev pub all_mapped : (ℕ → Option ℕ) → Order → Bool
all_mapped pos_item o = all (λ i. is_some (pos_item i.item_id)) o.items

abbrev pub with_pos_id : ℕ → Order → Order
with_pos_id pos_id o = record o { pos_order_id = some pos_id }

module _ (db : Prisma) (pos_item : ℕ → Option ℕ) (answer : Order → Answer) where
  -- the part of the worker after the checks; `sent` says whether a request left for the POS
  unfoldable pub submit : ℕ → ℕ → Order → Store → Result Bool × Store
  unfolding claim_pos_order_submission submit_claimed_pos_order
  submit now tenant o = do
    won ← claim_pos_order_submission now tenant o.id
    if not won then pure false else (do
      pos_id ← submit_claimed_pos_order (answer o) tenant o.id
      update_order (of_order o.id tenant) (with_pos_id pos_id)
      pure true)

  -- `process`
  unfoldable pub process : PosSetup → ℕ → ℕ → ℕ → Store → Result Bool × Store
  unfolding submit is_pos_order_eligible
  process PosSetup.missing now tenant id s = pure false s
  process setup now tenant id s =
      (do
        o ← require (← gets (λ s. db.find_first (of_order id tenant) s.orders)) Error.failure
        if is_some o.pos_order_id
              || (is_some o.pos_order_submitted_at
                  || not (is_pos_order_eligible o.status o.is_paid))
            then pure false
            else (do
              throw_if (elim setup [ PosSetup.supported ↦ false | _ ↦ true ]) Error.failure
              throw_if (not (all_mapped pos_item o)) Error.failure
              submit now tenant o))
        s
