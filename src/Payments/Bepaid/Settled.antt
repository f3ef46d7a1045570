-- ===== src/Payments/Bepaid/Settled.antt =====
-- Payments that have succeeded, under the notifications of bePaid.
use bonapp.Base.{
  ℕ, ◌≡◌, refl, true, false, Option, none, some, arith, All, Result, ok, err, Error, inl, inr,
  Option-cases, Bool-cases, Result-cases, ◌⊎◌, ◌==◌,
}
use bonapp.Database.{
  Prisma, Store, Payment, PaymentStatus, FiscalizationStatus, update_many, All-update_many,
  is_succeeded,
}
use bonapp.Payments.Fiscalization.{enqueue, is_settled_payment, with_fiscal}
use bonapp.Payments.Bepaid.{
  Notice, Completed, process, apply_notice, notice_tx, announce, mapped_status, of_bepaid,
  with_notice,
}

-- Every row with the id has status SUCCEEDED.
abbrev pub HasSucceeded : ℕ → Payment → Type 0
HasSucceeded k p = ((p.id == k) ≡ false) ⊎ (is_succeeded p.status ≡ true)

enqueue-HasSucceeded :
    (t id k : ℕ) (s : Store)
    → All (HasSucceeded k) s.payments
    → All (HasSucceeded k) (enqueue t id s).1.payments
unfolding enqueue
enqueue-HasSucceeded t id k s h =
    All-update_many (HasSucceeded k) (is_settled_payment id t)
      (with_fiscal FiscalizationStatus.pending) s.payments (λ r _ g. g) h

module _ (db : Prisma) (t now : ℕ) where
  pub announce-keeps :
      (c : Option Completed) (s : Store)
      → ((announce db t c s).1.orders ≡ s.orders) × ((announce db t c s).1.tables ≡ s.tables)
  unfolding announce
  announce-keeps none s = (refl, refl)
  announce-keeps (some c) s = ground arith

  pub announce-HasSucceeded :
      (k : ℕ) (c : Option Completed) (s : Store)
      → All (HasSucceeded k) s.payments
      → All (HasSucceeded k) (announce db t c s).1.payments
  unfolding announce
  announce-HasSucceeded k none s h = h
  announce-HasSucceeded k (some c) s h = ground (arith, enqueue-HasSucceeded t c.payment_id k s h)

  -- The transaction of a notification, on the payment that it finds.
  abbrev pub found_payment : ℕ → Store → Option Payment
  found_payment k s = db.find_first (of_bepaid k t) s.payments

  -- A payment that is found has the id of the notification, and has succeeded if all with it have.
  found-is_succeeded :
      (k : ℕ) (s : Store) (p : Payment)
      → All (HasSucceeded k) s.payments
      → found_payment k s ≡ some p
      → is_succeeded p.status ≡ true
  found-is_succeeded k s p h found =
      has p (db.find_first_matches (of_bepaid k t) s.payments p found)
        (db.find_first_listed (HasSucceeded k) (of_bepaid k t) s.payments p found h)
    where
      has : (p : Payment) → of_bepaid k t p ≡ true → HasSucceeded k p → is_succeeded p.status ≡ true
      has p own g = ground arith

  pub found-id : (k : ℕ) (s : Store) (p : Payment) → found_payment k s ≡ some p → p.id ≡ k
  found-id k s p found = own p (db.find_first_matches (of_bepaid k t) s.payments p found)
    where
      own : (p : Payment) → of_bepaid k t p ≡ true → p.id ≡ k
      own p e = ground arith

  pub notice_tx-settled :
      (uid : Option ℕ) (status : PaymentStatus) (p : Payment) (s : Store)
      → is_succeeded p.status ≡ true
      → (notice_tx db t now status uid (some p) s).1 ≡ s
  unfolding notice_tx
  notice_tx-settled uid status p s h = rw h refl

  pub notice_tx-payments :
      (uid : Option ℕ) (status : PaymentStatus) (p : Payment) (s : Store) (c : Option Completed)
      → is_succeeded p.status ≡ false
      → (notice_tx db t now status uid (some p) s).0 ≡ ok c
      → (notice_tx db t now status uid (some p) s).1.payments
        ≡ update_many (λ q. q.id == p.id) (with_notice status uid) s.payments
  unfolding notice_tx
  notice_tx-payments uid status p s c h e = ground arith

  -- What the handler does after the transaction of a notification.
  module _ (k : ℕ) (uid : Option ℕ) (status : PaymentStatus) (s : Store) where
    abbrev pub tx : Result (Option Completed) × Store
    tx = notice_tx db t now status uid (found_payment k s) s

    pub apply_notice-ok :
        (c : Option Completed)
        → tx.0 ≡ ok c
        → (apply_notice db t now k uid status s).1 ≡ (announce db t c tx.1).1
    unfolding apply_notice
    apply_notice-ok c e = ground arith

    pub apply_notice-err : (e : Error) → tx.0 ≡ err e → (apply_notice db t now k uid status s).1 ≡ s
    unfolding apply_notice
    apply_notice-err x e = ground arith

  tx-settled :
      (k : ℕ) (uid : Option ℕ) (status : PaymentStatus) (s : Store)
      → All (HasSucceeded k) s.payments
      → (tx k uid status s).1 ≡ s
  tx-settled k uid status s h = elim (Option-cases (found_payment k s)) [
    | inl missing ↦ rw missing (unfold notice_tx in refl)
    | inr (p, found) ↦
        rw found (notice_tx-settled uid status p s (found-is_succeeded k s p h found))
  ]

  -- A notification about a payment that has succeeded touches no order and no table.
  pub apply_notice-settled :
      (k : ℕ) (uid : Option ℕ) (status : PaymentStatus) (s : Store)
      → All (HasSucceeded k) s.payments
      → ((apply_notice db t now k uid status s).1.orders ≡ s.orders)
        × ((apply_notice db t now k uid status s).1.tables ≡ s.tables)
  apply_notice-settled k uid status s h = elim (Result-cases (tx k uid status s).0) [
    | inr (e, failed) ↦ rw (apply_notice-err k uid status s e failed) (refl, refl)
    | inl (c, done) ↦
        rw (apply_notice-ok k uid status s c done, tx-settled k uid status s h) (announce-keeps c s)
  ]

  -- The update of a payment that has not succeeded reaches no row that has.
  update-HasSucceeded :
      (j k : ℕ) (uid : Option ℕ) (status : PaymentStatus) (s : Store) (p : Payment)
      → All (HasSucceeded j) s.payments
      → found_payment k s ≡ some p
      → is_succeeded p.status ≡ false
      → All (HasSucceeded j) (update_many (λ q. q.id == p.id) (with_notice status uid) s.payments)
  update-HasSucceeded j k uid status s p h found open_yet =
      All-update_many (HasSucceeded j) (λ q. q.id == p.id) (with_notice status uid) s.payments
        (λ r e g. inl (
          other p (db.find_first_listed (HasSucceeded j) (of_bepaid k t) s.payments p found h)
            open_yet r e))
        h
    where
      other :
          (p : Payment)
          → HasSucceeded j p
          → is_succeeded p.status ≡ false
          → (r : Payment) → (r.id == p.id) ≡ true
          → (r.id == j) ≡ false
      other p g open_yet r e = ground arith

  tx-HasSucceeded :
      (j k : ℕ) (uid : Option ℕ) (status : PaymentStatus) (s : Store) (c : Option Completed)
      → All (HasSucceeded j) s.payments
      → (tx k uid status s).0 ≡ ok c
      → All (HasSucceeded j) (tx k uid status s).1.payments
  tx-HasSucceeded j k uid status s c h done = elim (Option-cases (found_payment k s)) [
    | inl missing ↦ rw missing (unfold notice_tx in h)
    | inr (p, found) ↦ elim (Bool-cases (is_succeeded p.status)) [
      | inl yet ↦ rw (found, notice_tx-settled uid status p s yet) h
      | inr not_yet ↦
          rw (found, notice_tx-payments uid status p s c not_yet (rw found at done))
            (update-HasSucceeded j k uid status s p h found not_yet)
    ]
  ]

  apply_notice-HasSucceeded :
      (j k : ℕ) (uid : Option ℕ) (status : PaymentStatus) (s : Store)
      → All (HasSucceeded j) s.payments
      → All (HasSucceeded j) (apply_notice db t now k uid status s).1.payments
  apply_notice-HasSucceeded j k uid status s h = elim (Result-cases (tx k uid status s).0) [
    | inr (e, failed) ↦ rw (apply_notice-err k uid status s e failed) h
    | inl (c, done) ↦ rw (apply_notice-ok k uid status s c done) (
        announce-HasSucceeded j c (tx k uid status s).1 (tx-HasSucceeded j k uid status s c h done))
  ]

-- What a notification does, by what it names and the status it maps to.
module _ (db : Prisma) (t now : ℕ) where
  processed : Option ℕ → Option PaymentStatus → Option ℕ → Store → Store
  processed none m uid s = s
  processed (some k) none uid s = s
  processed (some k) (some status) uid s = (apply_notice db t now k uid status s).1

  process-processed :
      (n : Notice) (s : Store)
      → (process db t now n s).1 ≡ processed n.tracking_id (mapped_status n.status) n.uid s
  unfolding process processed
  process-processed n s = elim (Option-cases n.tracking_id) [
    | inl unknown ↦ ground arith
    | inr (k, known) ↦ elim (Option-cases (mapped_status n.status)) [
      | inl ignored ↦ ground arith
      | inr (status, mapped) ↦ ground arith
    ]
  ]

  processed-HasSucceeded :
      (j : ℕ) (k : Option ℕ) (m : Option PaymentStatus) (uid : Option ℕ) (s : Store)
      → All (HasSucceeded j) s.payments
      → All (HasSucceeded j) (processed k m uid s).payments
  unfolding processed
  processed-HasSucceeded j none m uid s h = h
  processed-HasSucceeded j (some k) none uid s h = h
  processed-HasSucceeded j (some k) (some status) uid s h =
      apply_notice-HasSucceeded db t now j k uid status s h

-- A payment that has succeeded stays so: whatever a notification of bePaid says, and about whatever
-- payment, each id whose rows all have status SUCCEEDED keeps that afterwards.
pub process-HasSucceeded :
    (db : Prisma) (t now j : ℕ) (n : Notice) (s : Store)
    → All (HasSucceeded j) s.payments
    → All (HasSucceeded j) (process db t now n s).1.payments
process-HasSucceeded db t now j n s h =
    rw (process-processed db t now n s)
      (processed-HasSucceeded db t now j n.tracking_id (mapped_status n.status) n.uid s h)
