-- ===== src/Payments/Bepaid/Repeated.antt =====
-- A bePaid notification that arrives again.
use bonapp.Base.{
  Result, ◌&&◌, not, is_some, ℕ, ◌≡◌, refl, true, false, Option, some, arith, All, ok, err, Error,
  inl, inr, Option-cases, Bool-cases, Result-cases, All-weaken, ◌⊎◌, ◌==◌, is_ok,
}
use bonapp.Database.{
  Prisma, Store, Payment, PaymentStatus, FiscalizationStatus, update_many, All-update_many,
  All-update_many_set, HasKeys, find_first-IsOnly, is_succeeded,
}
use bonapp.Payments.Fiscalization
use bonapp.Payments.Fiscalization.{
  of_payment, is_settled_payment, with_fiscal, with_receipt, unreceipted, mark_failed,
}
use bonapp.Payments.Bepaid.{
  BepaidStatus, Notice, Completed, process, apply_notice, of_bepaid, with_notice,
}
use bonapp.Payments.Bepaid.Settled.{
  HasSucceeded, announce-HasSucceeded, found_payment, found-id, notice_tx-settled,
  notice_tx-payments, tx, apply_notice-ok, apply_notice-settled, process-HasSucceeded,
}
use bonapp.Payments.Bepaid.Pays.{PaysAtMost, apply_notice-Paid}

module _ (db : Prisma) (t now : ℕ) where
  -- After a notification of success that goes through, the payment has succeeded.
  tx-succeeds :
      (k : ℕ) (uid : Option ℕ) (s : Store) (p : Payment) (c : Option Completed)
      → HasKeys (λ (q : Payment). q.id) s.payments
      → found_payment db t now k s ≡ some p
      → (tx db t now k uid PaymentStatus.succeeded s).0 ≡ ok c
      → All (HasSucceeded k) (tx db t now k uid PaymentStatus.succeeded s).1.payments
  tx-succeeds k uid s p c keys found done = elim (Bool-cases (is_succeeded p.status)) [
    | inl yet ↦
        rw (found, notice_tx-settled db t now uid PaymentStatus.succeeded p s yet)
          (All-weaken (λ q. q.id ≡ p.id → q ≡ p) (HasSucceeded k) s.payments
            (λ q same. only q p yet (found-id db t now k s p found) same)
            (find_first-IsOnly (λ (q : Payment). q.id) db (of_bepaid k t) s.payments p keys found))
    | inr not_yet ↦
        rw
          (
            found,
            notice_tx-payments db t now uid PaymentStatus.succeeded p s c not_yet
                (rw found at done),
          )
          (rw (found-id db t now k s p found) (
            All-weaken (λ q. ((q.id == k) ≡ false) ⊎ (is_succeeded q.status ≡ true))
              (HasSucceeded k)
              (update_many (λ q. q.id == k) (with_notice PaymentStatus.succeeded uid) s.payments)
              (λ q g. g)
              (All-update_many_set (λ q. is_succeeded q.status ≡ true) (λ q. q.id == k)
                (with_notice PaymentStatus.succeeded uid) s.payments (λ q e. refl))))
  ]
    where
      only :
          (q p : Payment)
          → is_succeeded p.status ≡ true
          → p.id ≡ k
          → (q.id ≡ p.id → q ≡ p)
          → HasSucceeded k q
      only q p yet own same = elim (Bool-cases (q.id == k)) [
        | inl e ↦ let eq : q ≡ p = same (ground arith) in inr (rw eq yet)
        | inr e ↦ inl e
      ]

  apply_notice-fails :
      (k : ℕ) (uid : Option ℕ) (status : PaymentStatus) (s : Store) (e : Error)
      → (tx db t now k uid status s).0 ≡ err e
      → is_ok (apply_notice db t now k uid status s).0 ≡ false
  unfolding apply_notice
  apply_notice-fails k uid status s e failed = ground arith

-- After a success that goes through, every row with the id has succeeded.
apply_notice-HasSucceeded :
    (db : Prisma) (t now k : ℕ) (uid : Option ℕ) (s : Store) (p : Payment)
    → HasKeys (λ (q : Payment). q.id) s.payments
    → found_payment db t now k s ≡ some p
    → is_ok (apply_notice db t now k uid PaymentStatus.succeeded s).0 ≡ true
    → All (HasSucceeded k) (apply_notice db t now k uid PaymentStatus.succeeded s).1.payments
apply_notice-HasSucceeded db t now k uid s p keys found good =
    elim (Result-cases (tx db t now k uid PaymentStatus.succeeded s).0) [
      | inr (e, failed) ↦
          absurd
            (ground (arith, apply_notice-fails db t now k uid PaymentStatus.succeeded s e failed))
      | inl (c, done) ↦ rw (apply_notice-ok db t now k uid PaymentStatus.succeeded s c done) (
          announce-HasSucceeded db t now k c (tx db t now k uid PaymentStatus.succeeded s).1
            (tx-succeeds db t now k uid s p c keys found done))
    ]

-- What may happen between two deliveries: notifications of bePaid for any payment of any restaurant,
-- receipts and their failures, and anything that leaves the table of payments alone, such as changes of
-- orders and tables.
pub data Between (db : Prisma) (s : Store) : Store → Type 0 where
  here : Between db s s
  noticed :
      {s' : Store}
      → Between db s s'
      → (t now : ℕ) (n : Notice) → Between db s (process db t now n s').1
  receipted :
      {s' : Store}
      → Between db s s'
      → (issue : Payment → Result ℕ) (t id : ℕ)
      → Between db s (Fiscalization.process db issue t id s').1
  receipt_failed :
      {s' : Store} → Between db s s' → (t id : ℕ) → Between db s (mark_failed t id s').1
  elsewhere : {s' s'' : Store} → Between db s s' → s''.payments ≡ s'.payments → Between db s s''

receipt-HasSucceeded :
    (db : Prisma) (issue : Payment → Result ℕ) (t id k : ℕ) (s : Store)
    → All (HasSucceeded k) s.payments
    → All (HasSucceeded k) (Fiscalization.process db issue t id s).1.payments
unfolding Fiscalization.process
receipt-HasSucceeded db issue t id k s h =
    let new : (n : ℕ)
        → All (HasSucceeded k) (update_many (of_payment id t) (with_receipt n) s.payments) =
      λ n.
        All-update_many (HasSucceeded k) (of_payment id t) (with_receipt n) s.payments (λ r _ g. g)
          h in
    elim (Option-cases (unreceipted (db.find_first (is_settled_payment id t) s.payments))) [
      | inl missing ↦ ground arith
      | inr (p, found) ↦ elim (Result-cases (issue p)) [
        | inr (e, failed) ↦ ground arith
        | inl (n, issued) ↦ ground (arith, new n)
      ]
    ]

mark_failed-HasSucceeded :
    (t id k : ℕ) (s : Store)
    → All (HasSucceeded k) s.payments
    → All (HasSucceeded k) (mark_failed t id s).1.payments
unfolding mark_failed
mark_failed-HasSucceeded t id k s h =
    All-update_many (HasSucceeded k)
      (λ (p : Payment). of_payment id t p && not (is_some p.fiscal_receipt_number))
      (with_fiscal FiscalizationStatus.fiscal_failed) s.payments (λ r _ g. g) h

Between-HasSucceeded :
    (db : Prisma) (k : ℕ) {s s' : Store}
    → Between db s s'
    → All (HasSucceeded k) s.payments
    → All (HasSucceeded k) s'.payments
Between-HasSucceeded db k here h = h
Between-HasSucceeded db k (noticed {s'} b t now n) h =
    process-HasSucceeded db t now k n s' (Between-HasSucceeded db k b h)
Between-HasSucceeded db k (receipted {s'} b issue t id) h =
    receipt-HasSucceeded db issue t id k s' (Between-HasSucceeded db k b h)
Between-HasSucceeded db k (receipt_failed {s'} b t id) h =
    mark_failed-HasSucceeded t id k s' (Between-HasSucceeded db k b h)
Between-HasSucceeded db k (elsewhere b same) h = rw same (Between-HasSucceeded db k b h)

-- Where the ids of the payments are unique, a notification of success for a payment that is found and
-- that goes through changes no order and no table, or pays one order, which is found for a payment
-- that had not succeeded yet, and is served and unpaid, and frees its table. When it arrives again it
-- touches no order and no table, whatever came in between: notifications of bePaid for any payments,
-- receipts, and any changes that leave the payments alone, also if the order is served and unpaid again.
pub process-process :
    (db : Prisma) (t now later k : ℕ) (uid : Option ℕ) (s s'' : Store) (p : Payment)
    → HasKeys (λ (q : Payment). q.id) s.payments
    → db.find_first (of_bepaid k t) s.payments ≡ some p
    → let n : Notice = record {
      tracking_id = some k;
      uid = uid;
      status = BepaidStatus.successful;
    } in
      is_ok (process db t now n s).0 ≡ true
      → Between db (process db t now n s).1 s''
      → PaysAtMost db t now k s (process db t now n s).1
        × ((process db t later n s'').1.orders ≡ s''.orders)
        × ((process db t later n s'').1.tables ≡ s''.tables)
unfolding process
process-process db t now later k uid s s'' p keys found good between =
    let (orders, tables) = apply_notice-settled db t later k uid PaymentStatus.succeeded s'' (
      Between-HasSucceeded db k between
        (apply_notice-HasSucceeded db t now k uid s p keys found good)) in
    (apply_notice-Paid db t now k uid s, orders, tables)
