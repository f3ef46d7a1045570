-- ===== src/Payments/Erip.antt =====
-- The worker of ERIP notifications (apps/api/src/guest-session/erip-webhook.ts), `process`. The
-- status that the provider confirms is a parameter, as are the credentials.
pub mod Confirmed
use bonapp.Base.{
  ℕ, Bool, Option, none, some, ◌==◌, ◌&&◌, ◌||◌, not, Result, ok, err, pure, gets, option_is,
  if◌then◌else◌, transaction, ◌>>=◌, ◌>>◌, is_some,
}
use bonapp.Database.{
  Prisma, Store, Order, Payment, OrderStatus, PaymentStatus, FiscalizationStatus, is_erip,
  is_pending, is_succeeded, emit, Event, count,
}
use bonapp.Orders.Status.{of_order}
use bonapp.Payments.Fiscalization.{of_payment, update_payments, enqueue}
use bonapp.Payments.Bepaid.{Completed, repeated, payable, pay_order}

-- The texts of `transaction.status` that the code tells apart.
pub data EripStatus : Type 0 where
  successful failed expired deleted other : EripStatus

abbrev pub erip_code : EripStatus → ℕ
erip_code EripStatus.successful = 0
erip_code EripStatus.failed = 1
erip_code EripStatus.expired = 2
erip_code EripStatus.deleted = 3
erip_code EripStatus.other = 4

abbrev pub mapped_status : EripStatus → Option PaymentStatus
mapped_status EripStatus.successful = some PaymentStatus.succeeded
mapped_status EripStatus.failed = some PaymentStatus.pending
mapped_status EripStatus.expired = some PaymentStatus.cancelled
mapped_status EripStatus.deleted = some PaymentStatus.cancelled
mapped_status EripStatus.other = none

pub record Notice : Type 0 where
  pub tracking_id : ℕ
  pub uid : ℕ
  pub status : EripStatus

-- The answer of `erip.get`.
pub record Verified : Type 0 where
  pub uid : ℕ
  pub status : EripStatus

-- `verified.status !== status || verified.uid !== uid` is false
abbrev pub confirms : Notice → Verified → Bool
confirms n v = erip_code v.status == erip_code n.status && v.uid == n.uid

abbrev pub of_erip : ℕ → ℕ → Payment → Bool
of_erip id tenant p = of_payment id tenant p && is_erip p.provider

-- `!payment || payment.providerTransactionId !== uid` is false
abbrev pub with_uid : ℕ → Option Payment → Option Payment
with_uid uid none = none
with_uid uid (some p) = if option_is p.provider_transaction_id uid then some p else none

abbrev pub is_pending_row : ℕ → Payment → Bool
is_pending_row id p = p.id == id && is_pending p.status

abbrev pub with_notice : PaymentStatus → Payment → Payment
with_notice status p = record p {
  status = status;
  fiscalization_status =
      if is_succeeded status then FiscalizationStatus.pending else p.fiscalization_status;
}

module _ (db : Prisma) where
  -- `updateMany` of the pending row, and the order of a payment that succeeded
  unfoldable pub settle :
      ℕ → ℕ → PaymentStatus → Payment → Option Order → Store → Result (Option Completed) × Store
  unfolding pay_order
  settle tenant now status p order = do
    updated ← gets (λ s. count (is_pending_row p.id) s.payments)
    update_payments (is_pending_row p.id) (with_notice status)
    if updated == 0 || not (is_succeeded status) then pure none else pay_order db tenant now p order

  unfoldable pub notice_tx :
      ℕ → ℕ → PaymentStatus → Option Payment → Store → Result (Option Completed) × Store
  unfolding settle
  notice_tx tenant now status none s = pure none s
  notice_tx tenant now status (some p) s =
      if is_succeeded p.status
      then pure (repeated p) s
      else (do
        order ← gets (λ s. payable (db.find_first (of_order p.order_id tenant) s.orders))
        if is_succeeded status && not (is_some order)
            then pure none
            else settle tenant now status p order)
          s

  unfoldable pub announce : ℕ → Option Completed → Store → Result (Unit {0}) × Store
  unfolding enqueue
  announce tenant none s = pure tt s
  announce tenant (some c) s =
      (do
        enqueue tenant c.payment_id
        if c.notify
            then (do
              emit (Event.payment_succeeded c.order_id c.payment_id)
              emit (Event.order_status_changed c.order_id OrderStatus.paid)
              emit (Event.order_session_closed c.table_id c.order_id))
            else pure tt)
        s

  unfoldable pub apply_notice : ℕ → ℕ → Notice → PaymentStatus → Store → Result (Unit {0}) × Store
  apply_notice tenant now n status = do
    completed ← transaction (do
      payment ← gets (λ s. with_uid n.uid (db.find_first (of_erip n.tracking_id tenant) s.payments))
      notice_tx tenant now status payment)
    announce tenant completed

  -- `configured` says whether the credentials of the restaurant can be read.
  unfoldable pub process :
      Bool → (ℕ → Result Verified) → ℕ → ℕ → Notice → Store → Result (Unit {0}) × Store
  process configured get tenant now n s = if not configured then (ok tt, s) else elim (get n.uid) [
    | err e ↦ (err e, s)
    | ok v ↦ elim (mapped_status n.status) [
      | none ↦ (ok tt, s)
      | some status ↦ if confirms n v then apply_notice tenant now n status s else (ok tt, s)
    ]
  ]
