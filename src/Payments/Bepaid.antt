-- ===== src/Payments/Bepaid.antt =====
-- The worker of bePaid notifications (apps/api/src/guest-session/bepaid-webhook.ts), `process`.
pub mod Settled
pub mod Pays
pub mod Repeated
use bonapp.Base.{
  List, any, throw_if, Error, ℕ, Bool, true, false, Option, none, some, ◌==◌, ◌&&◌, ◌||◌, not,
  Result, ok, pure, gets, if◌then◌else◌, transaction, ◌>>=◌, ◌>>◌,
}
use bonapp.Database.{
  Prisma, Store, Order, Payment, OrderStatus, TableStatus, PaymentStatus, FiscalizationStatus, ◌=ₒ◌,
  is_bepaid, is_pending, is_succeeded, is_fiscal_pending, emit, Event,
}
use bonapp.Orders.Status.{of_order, with_payment, update_order, update_table}
use bonapp.Payments.Fiscalization.{of_payment, update_payment, enqueue}

-- The texts of `transaction.status` that the code tells apart.
pub data BepaidStatus : Type 0 where
  successful failed expired incomplete other : BepaidStatus

abbrev pub mapped_status : BepaidStatus → Option PaymentStatus
mapped_status BepaidStatus.successful = some PaymentStatus.succeeded
mapped_status BepaidStatus.failed = some PaymentStatus.failed
mapped_status BepaidStatus.expired = some PaymentStatus.cancelled
mapped_status BepaidStatus.incomplete = some PaymentStatus.pending
mapped_status BepaidStatus.other = none

pub record Notice : Type 0 where
  pub tracking_id : Option ℕ
  pub uid : Option ℕ
  pub status : BepaidStatus

-- What the transaction hands to the part after it.
pub record Completed : Type 0 where
  pub order_id : ℕ
  pub table_id : ℕ
  pub payment_id : ℕ
  pub notify : Bool

abbrev pub repeated : Payment → Option Completed
repeated p =
    if is_fiscal_pending p.fiscalization_status
    then some (record { order_id = 0; table_id = 0; payment_id = p.id; notify = false })
    else none

-- `uid ?? payment.providerTransactionId`
abbrev pub first_some : Option ℕ → Option ℕ → Option ℕ
first_some (some a) b = some a
first_some none b = b

-- `payload: body` replaces the payload, in which the token of the checkout stood.
abbrev pub with_notice : PaymentStatus → Option ℕ → Payment → Payment
with_notice status uid p = record p {
  status = status;
  fiscalization_status =
      if is_succeeded status then FiscalizationStatus.pending else p.fiscalization_status;
  provider_transaction_id = first_some uid p.provider_transaction_id;
  checkout_token = none;
}

abbrev pub of_bepaid : ℕ → ℕ → Payment → Bool
of_bepaid id tenant p = of_payment id tenant p && is_bepaid p.provider

-- `!order || order.isPaid || order.status !== OrderStatus.SERVED` is false
abbrev pub is_payable : Order → Bool
is_payable o = not (o.is_paid || not (o.status =ₒ OrderStatus.served))

abbrev pub payable : Option Order → Option Order
payable none = none
payable (some o) = if is_payable o then some o else none

abbrev pub completed_order : Order → Payment → Completed
completed_order o p = record {
  order_id = o.id;
  table_id = o.table_id;
  payment_id = p.id;
  notify = true;
}

-- the index `payments_one_pending_per_order`: another pending payment of the order
abbrev pub clashes : PaymentStatus → Payment → List Payment → Bool
clashes status p payments =
    is_pending status
    && any
        (λ (q : Payment). q.order_id == p.order_id && (is_pending q.status && not (q.id == p.id)))
        payments

module _ (db : Prisma) where
  -- the order of the payment becomes PAID, and its table free
  unfoldable pub pay_order :
      ℕ → ℕ → Payment → Option Order → Store → Result (Option Completed) × Store
  pay_order tenant now p none s = pure none s
  pay_order tenant now p (some o) s =
      (do
        update_order (of_order o.id tenant) (with_payment now)
        update_table o.table_id tenant TableStatus.available
        pure (some (completed_order o p)))
        s

  unfoldable pub notice_tx :
      ℕ → ℕ → PaymentStatus → Option ℕ → Option Payment → Store → Result (Option Completed) × Store
  unfolding pay_order
  notice_tx tenant now status uid none s = pure none s
  notice_tx tenant now status uid (some p) s =
      if is_succeeded p.status
      then pure (repeated p) s
      else (do
        throw_if (← gets (λ s. clashes status p s.payments)) Error.failure
        update_payment (λ q. q.id == p.id) (with_notice status uid)
        order ← gets (λ s. db.find_first (of_order p.order_id tenant) s.orders)
        if is_succeeded status then pay_order tenant now p (payable order) else pure none)
          s

  -- what follows the transaction
  unfoldable pub announce : ℕ → Option Completed → Store → Result (Unit {0}) × Store
  unfolding enqueue
  announce tenant none s = pure tt s
  announce tenant (some c) s =
      (do
        enqueue tenant c.payment_id
        if c.notify
            then (do
              emit (Event.order_status_changed c.order_id OrderStatus.paid)
              emit (Event.order_session_closed c.table_id c.order_id))
            else pure tt)
        s

  unfoldable pub apply_notice :
      ℕ → ℕ → ℕ → Option ℕ → PaymentStatus → Store → Result (Unit {0}) × Store
  apply_notice tenant now tracking_id uid status = do
    completed ← transaction (do
      payment ← gets (λ s. db.find_first (of_bepaid tracking_id tenant) s.payments)
      notice_tx tenant now status uid payment)
    announce tenant completed

  unfoldable pub process : ℕ → ℕ → Notice → Store → Result (Unit {0}) × Store
  process tenant now n s = elim n.tracking_id [
    | none ↦ (ok tt, s)
    | some tracking_id ↦ elim (mapped_status n.status) [
      | none ↦ (ok tt, s)
      | some status ↦ apply_notice tenant now tracking_id n.uid status s
    ]
  ]
