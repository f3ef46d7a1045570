-- ===== src/Payments/Card.antt =====
-- `createCardPayment` (apps/api/src/guest-session/guest-session.service.ts): a checkout of bePaid for
-- an order. The client of bePaid and the reading of its credentials are parameters.
pub mod Laws
use bonapp.Base.{
  ℕ, ◌+◌, Bool, true, false, Option, none, some, List, [], ◌∷◌, ◌++◌, if◌then◌else◌, ◌==◌, ◌&&◌,
  ◌||◌, not, leb, ltb, any, Result, ok, err, Error, require, throw_if, gets, pure, modify,
  catch_all, ◌>>=◌, ◌>>◌,
}
use bonapp.Database.{
  Prisma, Store, Order, Payment, PaymentStatus, FiscalizationStatus, Provider, is_bepaid,
  is_pending, update_many, count,
}
use bonapp.Orders.Status.{of_order}
use bonapp.Payments.Fiscalization.{update_payment, update_payments}
use bonapp.Payments.Bepaid.{is_payable}

-- The answer of `getCheckoutStatus`.
pub data CheckoutStatus : Type 0 where
  successful failed expired : CheckoutStatus
  -- any other status, with the flag `expired`
  open_yet : Bool → CheckoutStatus

-- What keeps an expired payment of bePaid open: it is paid, or bePaid still waits.
abbrev pub is_open_checkout : CheckoutStatus → Bool
is_open_checkout CheckoutStatus.successful = true
is_open_checkout (CheckoutStatus.open_yet is_over) = not is_over
is_open_checkout _ = false

pub record Checkout : Type 0 where
  pub token : ℕ
  pub redirect_url : ℕ

-- The client of bePaid, with the credentials that it is called with.
pub record BepaidClient : Type 0 where
  pub credentials : Result (Unit {0})
  pub get_checkout_status : ℕ → Option CheckoutStatus
  -- by the amount and the id of the payment
  pub create_checkout : ℕ → ℕ → Result Checkout

abbrev pub at_table : ℕ → ℕ → ℕ → Order → Bool
at_table id tenant table o = of_order id tenant o && o.table_id == table

abbrev pub pending_by_card : ℕ → ℕ → Payment → Bool
pending_by_card order tenant p =
    p.order_id == order && (p.tenant_id == tenant && (is_bepaid p.provider && is_pending p.status))

-- `pending.createdAt.getTime() <= Date.now() - 15 * 60_000`
abbrev pub is_over : ℕ → Payment → Bool
is_over now p = leb (p.created_at + 900000) now

abbrev pub with_payment_status : PaymentStatus → Payment → Payment
with_payment_status status p = record p { status = status }

abbrev pub is_pending_payment : ℕ → Payment → Bool
is_pending_payment id p = p.id == id && is_pending p.status

abbrev pub new_payment : ℕ → ℕ → ℕ → ℕ → Order → Payment
new_payment id tenant tips now o = record {
  id = id;
  tenant_id = tenant;
  order_id = o.id;
  amount_byn = o.total_amount_byn;
  tips_amount_byn = tips;
  provider = Provider.bepaid;
  status = PaymentStatus.pending;
  provider_transaction_id = none;
  checkout_token = none;
  fiscal_receipt_number = none;
  fiscalization_status = FiscalizationStatus.not_required;
  created_at = now;
}

-- `payment.create`, which the index `payments_one_pending_per_order` may refuse
abbrev pub add_payment : Payment → Store → Result Payment × Store
add_payment p s =
    if any (λ (q : Payment). q.order_id == p.order_id && is_pending q.status) s.payments
    then (err Error.conflict, s)
    else (ok p, record s { payments = s.payments ++ p ∷ [] })

module _ (db : Prisma) (client : BepaidClient) where
  -- An expired payment is cancelled once bePaid says that it is over.
  unfoldable pub close_expired : Payment → Store → Result (Option Payment) × Store
  close_expired p = do
    token ← require p.checkout_token Error.conflict
    status ← require (client.get_checkout_status token) Error.conflict
    throw_if (is_open_checkout status) Error.conflict
    closed ← gets (λ s. count (is_pending_payment p.id) s.payments)
    update_payments (is_pending_payment p.id) (with_payment_status PaymentStatus.cancelled)
    throw_if (not (closed == 1)) Error.conflict
    pure none

  -- The payment that may be used again: pending, not expired, with the same tips.
  unfoldable pub active_payment : ℕ → ℕ → Option Payment → Store → Result (Option Payment) × Store
  active_payment now tips none = pure none
  active_payment now tips (some p) =
      if is_over now p
      then close_expired p
      else (do throw_if (not (p.tips_amount_byn == tips)) Error.conflict; pure (some p))

  unfoldable pub payment_of :
      ℕ → ℕ → ℕ → ℕ → Order → Option Payment → Store → Result Payment × Store
  payment_of new_id tenant tips now o (some p) = pure p
  payment_of new_id tenant tips now o none = add_payment (new_payment new_id tenant tips now o)

  -- The checkout, and the payment marked as FAILED where it is refused.
  unfoldable pub check_out : Payment → Store → Result ℕ × Store
  check_out p =
      catch_all
        (do
          checkout ← (λ s. (client.create_checkout (p.amount_byn + p.tips_amount_byn) p.id, s))
          update_payment (λ q. q.id == p.id)
              (λ (q : Payment). record q { checkout_token = some checkout.token })
          pure checkout.redirect_url)
        (λ e. do
          update_payment (λ q. q.id == p.id) (with_payment_status PaymentStatus.failed)
          (λ s. (err e, s)))

  -- `tips` is none for an amount that is no whole number of kopecks from 0. That the amount in kopecks is a
  -- safe integer, which a column of twelve digits always is, is not checked here.
  unfoldable pub create_card_payment : ℕ → ℕ → ℕ → ℕ → ℕ → Option ℕ → Store → Result ℕ × Store
  create_card_payment new_id now order_id tenant table tips = do
    (λ s. (client.credentials, s))
    o ←
        require (← gets (λ s. db.find_first (at_table order_id tenant table) s.orders))
          Error.forbidden
    throw_if (not (is_payable o)) Error.conflict
    pending ← gets (λ s. db.find_first (pending_by_card order_id tenant) s.payments)
    amount ← require tips Error.bad_request
    active ← active_payment now amount pending
    payment ← payment_of new_id tenant amount now o active
    throw_if (ltb (payment.amount_byn + payment.tips_amount_byn) 1) Error.bad_request
    check_out payment
