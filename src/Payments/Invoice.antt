-- ===== src/Payments/Invoice.antt =====
-- `createEripPayment` (apps/api/src/guest-session/guest-session.service.ts): a request of ERIP for an
-- order. The client of ERIP and the reading of its credentials are parameters.
pub mod Laws
use bonapp.Base.{
  ℕ, ◌+◌, Bool, true, false, Option, none, some, List, [], ◌∷◌, ◌++◌, if◌then◌else◌, ◌==◌, ◌&&◌,
  ◌||◌, not, ltb, any, is_some, Result, ok, err, Error, require, throw_if, gets, pure, modify,
  catch_all, ◌>>=◌, ◌>>◌,
}
use bonapp.Database.{
  Prisma, Store, Order, Payment, PaymentStatus, FiscalizationStatus, Provider, is_erip, is_pending,
}
use bonapp.Payments.Fiscalization.{update_payment, update_payments}
use bonapp.Payments.Bepaid.{is_payable}
use bonapp.Payments.Erip.{EripStatus}
use bonapp.Payments.Card.{at_table, with_payment_status, is_pending_payment}

-- The client of ERIP, with the credentials that it is called with.
pub record EripClient : Type 0 where
  pub credentials : Result (Unit {0})
  -- by the id that the provider gave; none if the request fails
  pub status : ℕ → Option EripStatus
  pub cancel : ℕ → Bool
  -- by the amount and the id of the payment: the id that the provider gives
  pub create : ℕ → ℕ → Result ℕ

abbrev pub pending_by_erip : ℕ → ℕ → Payment → Bool
pending_by_erip order tenant p =
    p.order_id == order && (p.tenant_id == tenant && (is_erip p.provider && is_pending p.status))

-- `payment?.providerTransactionId && payment.createdAt.getTime() > Date.now() - 15 * 60_000`
abbrev pub is_current : ℕ → Payment → Bool
is_current now p = is_some p.provider_transaction_id && ltb now (p.created_at + 900000)

abbrev pub is_successful : EripStatus → Bool
is_successful EripStatus.successful = true
is_successful _ = false

-- `status !== 'expired' && status !== 'deleted'` is false
abbrev pub is_withdrawn : EripStatus → Bool
is_withdrawn EripStatus.expired = true
is_withdrawn EripStatus.deleted = true
is_withdrawn _ = false

abbrev pub new_invoice : ℕ → ℕ → ℕ → Order → Payment
new_invoice id tenant now o = record {
  id = id;
  tenant_id = tenant;
  order_id = o.id;
  amount_byn = o.total_amount_byn;
  tips_amount_byn = o.tips_amount_byn;
  provider = Provider.erip;
  status = PaymentStatus.pending;
  provider_transaction_id = none;
  checkout_token = none;
  fiscal_receipt_number = none;
  fiscalization_status = FiscalizationStatus.not_required;
  created_at = now;
}

-- `payment.create`; nothing catches what the index `payments_one_pending_per_order` throws
abbrev pub add_invoice : Payment → Store → Result Payment × Store
add_invoice p s =
    if any (λ (q : Payment). q.order_id == p.order_id && is_pending q.status) s.payments
    then (err Error.failure, s)
    else (ok p, record s { payments = s.payments ++ p ∷ [] })

module _ (db : Prisma) (client : EripClient) where
  -- The earlier request is withdrawn at the provider, unless it is already.
  unfoldable pub withdraw : Option ℕ → Store → Result (Unit {0}) × Store
  withdraw none = pure tt
  withdraw (some uid) = do
    status ← require (client.status uid) Error.conflict
    throw_if (is_successful status) Error.conflict
    throw_if (not (is_withdrawn status) && not (client.cancel uid)) Error.conflict

  unfoldable pub close_earlier : Option Payment → Store → Result (Unit {0}) × Store
  close_earlier none = pure tt
  close_earlier (some p) = do
    withdraw p.provider_transaction_id
    update_payments (is_pending_payment p.id) (with_payment_status PaymentStatus.cancelled)

  -- The request, and the payment marked as FAILED where it is refused.
  unfoldable pub request : Payment → Store → Result ℕ × Store
  request p =
      catch_all
        (do
          throw_if (ltb (p.amount_byn + p.tips_amount_byn) 1) Error.bad_request
          uid ← (λ s. (client.create (p.amount_byn + p.tips_amount_byn) p.id, s))
          update_payment (λ q. q.id == p.id)
              (λ (q : Payment). record q { provider_transaction_id = some uid })
          pure p.id)
        (λ e. do
          update_payment (λ q. q.id == p.id) (with_payment_status PaymentStatus.failed)
          (λ s. (err e, s)))

  unfoldable pub renew : ℕ → ℕ → ℕ → Order → Option Payment → Store → Result ℕ × Store
  renew new_id now tenant o earlier = do
    close_earlier earlier
    p ← add_invoice (new_invoice new_id tenant now o)
    request p

  -- The result is the id of the payment; the rest of the answer comes from the provider.
  unfoldable pub create_erip_payment : ℕ → ℕ → ℕ → ℕ → ℕ → Store → Result ℕ × Store
  create_erip_payment new_id now order_id tenant table = do
    (λ s. (client.credentials, s))
    o ←
        require (← gets (λ s. db.find_first (at_table order_id tenant table) s.orders))
          Error.forbidden
    throw_if (not (is_payable o)) Error.conflict
    earlier ← gets (λ s. db.find_first (pending_by_erip order_id tenant) s.payments)
    elim earlier [
      | none ↦ renew new_id now tenant o none
      | some p ↦ if is_current now p then pure p.id else renew new_id now tenant o (some p)
    ]
