-- ===== src/Payments/Bepaid/Pays.antt =====
-- Which order a notification of success of bePaid pays.
use bonapp.Base.{
  ℕ, ◌≡◌, ◌∙◌, refl, false, Option, some, arith, ok, inl, inr, Option-cases, Bool-cases,
  Result-cases, ◌⊎◌,
}
use bonapp.Database.{
  Prisma, Store, Order, OrderStatus, TableStatus, Payment, PaymentStatus, update_many, is_succeeded,
}
use bonapp.Orders.Status.{of_order, of_table, with_payment}
use bonapp.Payments.Bepaid.{Completed, is_payable, apply_notice, notice_tx, announce, of_bepaid}
use bonapp.Payments.Bepaid.Settled.{
  announce-keeps, found_payment, notice_tx-settled, tx, apply_notice-ok, apply_notice-err,
}

module _ (db : Prisma) (t now : ℕ) where
  -- It pays at most one order: one that is found for a payment that has not succeeded
  -- before, served and not yet paid.
  pub record Paid (k : ℕ) (s s' : Store) (p : Payment) (o : Order) : Type 0 where
    pub payment : db.find_first (of_bepaid k t) s.payments ≡ some p
    pub unsettled : is_succeeded p.status ≡ false
    pub order : db.find_first (of_order p.order_id t) s.orders ≡ some o
    pub unpaid : o.is_paid ≡ false
    pub served : o.status ≡ OrderStatus.served
    pub orders : s'.orders ≡ update_many (of_order o.id t) (with_payment now) s.orders
    pub tables :
        s'.tables
        ≡ update_many
            (of_table o.table_id t)
            (λ r. record r { status = TableStatus.available })
            s.tables

  abbrev pub PaysAtMost : ℕ → Store → Store → Type 0
  PaysAtMost k s s' =
      ((s'.orders ≡ s.orders) × (s'.tables ≡ s.tables))
      ⊎ ((p : Payment) × (o : Order) × Paid k s s' p o)

  notice_tx-Paid :
      (k : ℕ) (uid : Option ℕ) (s : Store) (p : Payment) (c : Option Completed)
      → found_payment db t now k s ≡ some p
      → is_succeeded p.status ≡ false
      → (notice_tx db t now PaymentStatus.succeeded uid (some p) s).0 ≡ ok c
      → PaysAtMost k s (notice_tx db t now PaymentStatus.succeeded uid (some p) s).1
  unfolding notice_tx
  notice_tx-Paid k uid s p c found unsettled done =
      elim (Option-cases (db.find_first (of_order p.order_id t) s.orders)) [
        | inl missing ↦ inl (ground arith, ground arith)
        | inr (o, order) ↦ elim (Bool-cases (is_payable o)) [
          | inr refused ↦ inl (ground arith, ground arith)
          | inl payable ↦ inr (
            p,
            o,
            record {
              payment = found;
              unsettled = unsettled;
              order = order;
              unpaid = ground arith;
              served = ground arith;
              orders = ground arith;
              tables = ground arith;
            },
          )
        ]
      ]

  tx-Paid :
      (k : ℕ) (uid : Option ℕ) (s : Store) (c : Option Completed)
      → (tx db t now k uid PaymentStatus.succeeded s).0 ≡ ok c
      → PaysAtMost k s (tx db t now k uid PaymentStatus.succeeded s).1
  tx-Paid k uid s c done = elim (Option-cases (found_payment db t now k s)) [
    | inl missing ↦ rw missing (unfold notice_tx in inl (refl, refl))
    | inr (p, found) ↦ elim (Bool-cases (is_succeeded p.status)) [
      | inl yet ↦
          rw (found, notice_tx-settled db t now uid PaymentStatus.succeeded p s yet)
            (inl (refl, refl))
      | inr not_yet ↦ rw found (notice_tx-Paid k uid s p c found not_yet (rw found at done))
    ]
  ]

  -- What follows the transaction touches no order and no table.
  pub apply_notice-Paid :
      (k : ℕ) (uid : Option ℕ) (s : Store)
      → PaysAtMost k s (apply_notice db t now k uid PaymentStatus.succeeded s).1
  apply_notice-Paid k uid s = elim (Result-cases (tx db t now k uid PaymentStatus.succeeded s).0) [
    | inr (e, failed) ↦
        rw (apply_notice-err db t now k uid PaymentStatus.succeeded s e failed) (inl (refl, refl))
    | inl (c, done) ↦
        rw (apply_notice-ok db t now k uid PaymentStatus.succeeded s c done)
          (announced c (tx db t now k uid PaymentStatus.succeeded s).1 (tx-Paid k uid s c done))
  ]
    where
      announced :
          (c : Option Completed) (s' : Store)
          → PaysAtMost k s s'
          → PaysAtMost k s (announce db t c s').1
      announced c s' (inl (orders, tables)) =
          let (o, u) = announce-keeps db t now c s' in inl (o ∙ orders, u ∙ tables)
      announced c s' (inr (p, o, h)) =
          let (same, same') = announce-keeps db t now c s' in
          inr (
            p,
            o,
            record {
              payment = h.payment;
              unsettled = h.unsettled;
              order = h.order;
              unpaid = h.unpaid;
              served = h.served;
              orders = same ∙ h.orders;
              tables = same' ∙ h.tables;
            },
          )
