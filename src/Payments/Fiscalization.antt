-- ===== src/Payments/Fiscalization.antt =====
-- `FiscalizationService` (apps/api/src/staff/fiscalization.service.ts): a job for each settled
-- payment, and what the worker does with it. The cash register is a parameter.
use bonapp.Base.{
  ℕ, Bool, Option, none, some, ◌==◌, ◌&&◌, not, Result, ok, err, is_some, modify, if◌then◌else◌,
  ◌>>◌,
}
use bonapp.Database.{
  Prisma, Store, Payment, FiscalizationStatus, is_settled, update_many, update_unique, emit, Event,
}

abbrev pub of_payment : ℕ → ℕ → Payment → Bool
of_payment id tenant p = p.id == id && p.tenant_id == tenant

abbrev pub is_settled_payment : ℕ → ℕ → Payment → Bool
is_settled_payment id tenant p = of_payment id tenant p && is_settled p.status

abbrev pub with_fiscal : FiscalizationStatus → Payment → Payment
with_fiscal status p = record p { fiscalization_status = status }

abbrev pub update_payments :
    (Payment → Bool) → (Payment → Payment) → Store → Result (Unit {0}) × Store
update_payments filter data' =
    modify (λ s. record s { payments = update_many filter data' s.payments })

-- `tx.payment.update` by the id of a row
abbrev pub update_payment :
    (Payment → Bool) → (Payment → Payment) → Store → Result (Unit {0}) × Store
update_payment = update_unique (λ s. s.payments) (λ rows s. record s { payments = rows })

-- The queue keeps one job for each payment; what it does with a job that exists already is Redis's.
unfoldable pub enqueue : ℕ → ℕ → Store → Result (Unit {0}) × Store
enqueue tenant payment_id = do
  update_payments (is_settled_payment payment_id tenant) (with_fiscal FiscalizationStatus.pending)
  emit (Event.fiscalization_enqueued payment_id)

abbrev pub with_receipt : ℕ → Payment → Payment
with_receipt number p = record p {
  fiscal_receipt_number = some number;
  fiscalization_status = FiscalizationStatus.fiscalized;
}

abbrev pub unreceipted : Option Payment → Option Payment
unreceipted none = none
unreceipted (some p) = if is_some p.fiscal_receipt_number then none else some p

-- `process`: `issue` is the call of the cash register with the credentials that it reads.
unfoldable pub process : Prisma → (Payment → Result ℕ) → ℕ → ℕ → Store → Result (Unit {0}) × Store
process db issue tenant payment_id s =
    elim (unreceipted (db.find_first (is_settled_payment payment_id tenant) s.payments)) [
      | none ↦ (ok tt, s)
      | some p ↦ elim (issue p) [
        | err e ↦ (err e, s)
        | ok number ↦ update_payment (of_payment payment_id tenant) (with_receipt number) s
      ]
    ]

-- `markFailed`, after the last attempt
unfoldable pub mark_failed : ℕ → ℕ → Store → Result (Unit {0}) × Store
mark_failed tenant payment_id =
    update_payments (λ p. of_payment payment_id tenant p && not (is_some p.fiscal_receipt_number))
      (with_fiscal FiscalizationStatus.fiscal_failed)
