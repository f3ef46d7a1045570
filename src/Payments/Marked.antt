-- ===== src/Payments/Marked.antt =====
-- The paid mark of the orders under the workers of bePaid and ERIP.
use bonapp.Base.{
  Keeps, then-Keeps, pure-Keeps, ℕ, ◌≡◌, refl, Bool, true, false, Option, none, some, List, arith,
  All, Result, inl, inr, Option-cases, Result-cases, ◌==◌,
}
use bonapp.Database.{
  Prisma, Store, Order, Payment, PaymentStatus, All-update_many, update_many, TableStatus,
}
use bonapp.Orders.Status.{of_order, with_payment}
use bonapp.Orders.Status.Paid.{IsMarked, update_order-Keeps, update_table-Keeps}
use bonapp.Payments.Bepaid
use bonapp.Payments.Bepaid.{Completed, pay_order}
use bonapp.Payments.Erip

-- What a payment keeps: a property of the orders that survives the marking of an order as paid.
module _ (db : Prisma) (t now : ℕ) (Q : List Order → Type 0)
    (keep : (id : ℕ) (rows : List Order)
      → Q rows
      → Q (update_many (of_order id t) (with_payment now) rows)) where
  abbrev P : Store → Type 0
  P s = Q s.orders

  pay_order-keeps :
      (p : Payment) (o : Option Order) (s : Store)
      → Q s.orders
      → Q (pay_order db t now p o s).1.orders
  unfolding pay_order
  pay_order-keeps p none s h = h
  pay_order-keeps p (some o) s h =
      let kept : Keeps P (pay_order db t now p (some o)) =
        then-Keeps (update_order-Keeps Q (of_order o.id t) (with_payment now) (keep o.id))
          (then-Keeps (update_table-Keeps Q o.table_id t TableStatus.available) (pure-Keeps _)) in
      kept.keep s h

  bepaid_tx-keeps :
      (status : PaymentStatus) (uid : Option ℕ) (p : Option Payment) (s : Store)
      → Q s.orders
      → Q (Bepaid.notice_tx db t now status uid p s).1.orders
  unfolding Bepaid.notice_tx
  bepaid_tx-keeps status uid none s h = h
  bepaid_tx-keeps status uid (some p) s h = ground (
    arith,
    pay_order-keeps p (Bepaid.payable (db.find_first (of_order p.order_id t) s.orders))
        (record s {
          payments = update_many (λ q. q.id == p.id) (Bepaid.with_notice status uid) s.payments;
        })
        h,
  )

  bepaid_announce-orders :
      (c : Option Completed) (s : Store) → (Bepaid.announce db t c s).1.orders ≡ s.orders
  unfolding Bepaid.announce
  bepaid_announce-orders none s = refl
  bepaid_announce-orders (some c) s = ground arith

  bepaid_apply-keeps :
      (k : ℕ) (uid : Option ℕ) (status : PaymentStatus) (s : Store)
      → Q s.orders
      → Q (Bepaid.apply_notice db t now k uid status s).1.orders
  unfolding Bepaid.apply_notice
  bepaid_apply-keeps k uid status s h =
      elim (Result-cases
        (Bepaid.notice_tx db t now status uid (db.find_first (Bepaid.of_bepaid k t) s.payments)
          s).0) [
            | inr (e, failed) ↦ ground arith
            | inl (c, done) ↦ ground (
              arith,
              bepaid_tx-keeps status uid (db.find_first (Bepaid.of_bepaid k t) s.payments) s h,
              bepaid_announce-orders c
                  (Bepaid.notice_tx db t now status uid
                    (db.find_first (Bepaid.of_bepaid k t) s.payments) s).1,
            )
          ]

  settle-keeps :
      (status : PaymentStatus) (p : Payment) (o : Option Order) (s : Store)
      → Q s.orders
      → Q (Erip.settle db t now status p o s).1.orders
  unfolding Erip.settle
  settle-keeps status p o s h = ground (
    arith,
    pay_order-keeps p o
        (record s {
          payments = update_many (Erip.is_pending_row p.id) (Erip.with_notice status) s.payments;
        })
        h,
  )

  erip_tx-keeps :
      (status : PaymentStatus) (p : Option Payment) (s : Store)
      → Q s.orders
      → Q (Erip.notice_tx db t now status p s).1.orders
  unfolding Erip.notice_tx
  erip_tx-keeps status none s h = h
  erip_tx-keeps status (some p) s h = ground (
    arith,
    settle-keeps status p (Bepaid.payable (db.find_first (of_order p.order_id t) s.orders)) s h,
  )

  erip_announce-orders :
      (c : Option Completed) (s : Store) → (Erip.announce db t c s).1.orders ≡ s.orders
  unfolding Erip.announce
  erip_announce-orders none s = refl
  erip_announce-orders (some c) s = ground arith

  erip_apply-keeps :
      (n : Erip.Notice) (status : PaymentStatus) (s : Store)
      → Q s.orders
      → Q (Erip.apply_notice db t now n status s).1.orders
  unfolding Erip.apply_notice
  erip_apply-keeps n status s h =
      let found : Option Payment =
        Erip.with_uid n.uid (db.find_first (Erip.of_erip n.tracking_id t) s.payments) in
      elim (Result-cases (Erip.notice_tx db t now status found s).0) [
        | inr (e, failed) ↦ ground arith
        | inl (c, done) ↦ ground (
          arith,
          erip_tx-keeps status found s h,
          erip_announce-orders c (Erip.notice_tx db t now status found s).1,
        )
      ]

  pub bepaid-keeps :
      (n : Bepaid.Notice) (s : Store) → Q s.orders → Q (Bepaid.process db t now n s).1.orders
  unfolding Bepaid.process
  bepaid-keeps n s h = elim (Option-cases n.tracking_id) [
    | inl unknown ↦ ground arith
    | inr (k, known) ↦ elim (Option-cases (Bepaid.mapped_status n.status)) [
      | inl ignored ↦ ground arith
      | inr (status, mapped) ↦ ground (arith, bepaid_apply-keeps k n.uid status s h)
    ]
  ]

  pub erip-keeps :
      (configured : Bool) (get : ℕ → Result Erip.Verified) (n : Erip.Notice) (s : Store)
      → Q s.orders
      → Q (Erip.process db configured get t now n s).1.orders
  unfolding Erip.process
  erip-keeps false get n s h = h
  erip-keeps true get n s h = elim (Result-cases (get n.uid)) [
    | inr (e, failed) ↦ ground arith
    | inl (v, got) ↦ elim (Option-cases (Erip.mapped_status n.status)) [
      | inl ignored ↦ ground arith
      | inr (status, mapped) ↦ ground (arith, erip_apply-keeps n status s h)
    ]
  ]

paid-IsMarked :
    (t now id : ℕ) (rows : List Order)
    → All IsMarked rows
    → All IsMarked (update_many (of_order id t) (with_payment now) rows)
paid-IsMarked t now id rows h =
    All-update_many IsMarked (of_order id t) (with_payment now) rows (λ r _ _. refl) h

-- No notification of bePaid breaks the mark: an order has status PAID exactly when it is marked as
-- paid, afterwards as before.
pub bepaid-IsMarked :
    (db : Prisma) (t now : ℕ) (n : Bepaid.Notice) (s : Store)
    → All IsMarked s.orders
    → All IsMarked (Bepaid.process db t now n s).1.orders
bepaid-IsMarked db t now n s = bepaid-keeps db t now (All IsMarked) (paid-IsMarked t now) n s

-- No notification of ERIP breaks the mark either, whatever the provider answers.
pub erip-IsMarked :
    (db : Prisma) (configured : Bool) (get : ℕ → Result Erip.Verified) (t now : ℕ) (n : Erip.Notice)
    (s : Store)
    → All IsMarked s.orders
    → All IsMarked (Erip.process db configured get t now n s).1.orders
erip-IsMarked db configured get t now n s =
    erip-keeps db t now (All IsMarked) (paid-IsMarked t now) configured get n s
