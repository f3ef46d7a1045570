-- ===== src/Payments/Card/Laws.antt =====
-- What a guest is sent to pay by card.
use bonapp.Base.{
  ℕ, ◌+◌, ◌≡◌, ◌≤◌, refl, true, Option, none, some, arith, inl, inr, ◌⊎◌, Option-cases,
  Result-cases, Bool-cases, ok, Result,
}
use bonapp.Database.{Prisma, Store, Order, Payment, is_pending, is_bepaid}
use bonapp.Payments.Bepaid.{is_payable}
use bonapp.Payments.Card.{
  BepaidClient, Checkout, create_card_payment, check_out, active_payment, close_expired, payment_of,
  at_table, pending_by_card, new_payment, is_over,
}

module _ (db : Prisma) (client : BepaidClient) (t order_id now new_id : ℕ) where
  check_out-ok :
      (p : Payment) (s : Store) (url : ℕ)
      → (check_out db client p s).0 ≡ ok url
      → (c : Checkout) × (client.create_checkout (p.amount_byn + p.tips_amount_byn) p.id ≡ ok c)
        × (url ≡ c.redirect_url)
  unfolding check_out
  check_out-ok p s url h =
      elim (Result-cases (client.create_checkout (p.amount_byn + p.tips_amount_byn) p.id)) [
        | inr (e, refused) ↦ absurd (ground arith)
        | inl (c, made) ↦ (c, made, ground arith)
      ]

  close_expired-none :
      (p : Payment) (s : Store) (a : Option Payment)
      → (close_expired db client p s).0 ≡ ok a
      → a ≡ none
  unfolding close_expired
  close_expired-none p s a h = ground arith

  active_payment-cases :
      (tips : ℕ) (pending : Option Payment) (s : Store) (a : Option Payment)
      → (active_payment db client now tips pending s).0 ≡ ok a
      → (a ≡ none)
        ⊎ ((p : Payment) × (a ≡ some p) × (pending ≡ some p) × (p.tips_amount_byn ≡ tips))
  unfolding active_payment
  active_payment-cases tips none s a h = inl (ground arith)
  active_payment-cases tips (some p) s a h = elim (Bool-cases (is_over now p)) [
    | inl over ↦ inl (ground (arith, close_expired-none p s a))
    | inr yet ↦ inr (p, ground arith, refl, ground arith)
  ]

  -- The payment is a pending one of bePaid for the order, with the tips that are asked for; it is the
  -- one that was pending already, or a new one over the total of the order.
  pub record IsCharge (o : Order) (tips : ℕ) (s : Store) (p : Payment) : Type 0 where
    pub order : p.order_id ≡ order_id
    pub tips_kept : p.tips_amount_byn ≡ tips
    pub pending : is_pending p.status ≡ true
    pub card : is_bepaid p.provider ≡ true
    pub total :
        (p.amount_byn ≡ o.total_amount_byn)
        ⊎ (db.find_first (pending_by_card order_id t) s.payments ≡ some p)

  pending_by_card-checks :
      (p : Payment)
      → pending_by_card order_id t p ≡ true
      → (p.order_id ≡ order_id) × (is_pending p.status ≡ true) × (is_bepaid p.provider ≡ true)
  pending_by_card-checks p h = (ground arith, ground arith, ground arith)

  payment_of-IsCharge :
      (o : Order) (tips : ℕ) (a : Option Payment) (s s' : Store) (p : Payment)
      → o.id ≡ order_id
      → (a ≡ none)
        ⊎ ((p : Payment) × (a ≡ some p)
            × (db.find_first (pending_by_card order_id t) s.payments ≡ some p)
            × (p.tips_amount_byn ≡ tips))
      → (payment_of db client new_id t tips now o a s').0 ≡ ok p
      → IsCharge o tips s p
  unfolding payment_of
  payment_of-IsCharge o tips none s s' p own cases h = made (ground arith)
    where
      made : p ≡ new_payment new_id t tips now o → IsCharge o tips s p
      made e = record {
        order = ground arith;
        tips_kept = ground arith;
        pending = ground arith;
        card = ground arith;
        total = inl (ground arith);
      }
  payment_of-IsCharge o tips (some q) s s' p own (inl nothing) h = absurd (ground arith)
  payment_of-IsCharge o tips (some q) s s' p own (inr (r, same, found, kept)) h =
      let (order, pending, card) =
        pending_by_card-checks r
          (db.find_first_matches (pending_by_card order_id t) s.payments r found) in
      record {
        order = ground arith;
        tips_kept = ground arith;
        pending = ground arith;
        card = ground arith;
        total = inr (ground arith);
      }

  -- What a checkout is for.
  pub record Charged (table tips : ℕ) (s : Store) (url : ℕ) : Type 0 where
    pub order : Order
    pub found : db.find_first (at_table order_id t table) s.orders ≡ some order
    pub payable : is_payable order ≡ true
    pub payment : Payment
    pub charge : IsCharge order tips s payment
    pub amount : 1 ≤ payment.amount_byn + payment.tips_amount_byn
    pub checkout : Checkout
    pub made :
        client.create_checkout (payment.amount_byn + payment.tips_amount_byn) payment.id
        ≡ ok checkout
    pub sent : url ≡ checkout.redirect_url

  at_table-id : (table : ℕ) (o : Order) → at_table order_id t table o ≡ true → o.id ≡ order_id
  at_table-id table o h = ground arith

  -- A guest is sent to a checkout only for an order of the table that is found, served and unpaid;
  -- the checkout is for the amount and the tips of one pending payment of that order, at least one
  -- kopeck.
  pub create_card_payment-Charged :
      (table tips : ℕ) (s : Store) (url : ℕ)
      → (create_card_payment db client new_id now order_id t table (some tips) s).0 ≡ ok url
      → Charged table tips s url
  unfolding create_card_payment
  create_card_payment-Charged table tips s url h =
      elim (Option-cases (db.find_first (at_table order_id t table) s.orders)) [
        | inl missing ↦ absurd (ground arith)
        | inr (o, found) ↦
            let pending : Option Payment = db.find_first (pending_by_card order_id t) s.payments in
            let start : Result (Option Payment) × Store =
              active_payment db client now tips pending s in
            elim (Result-cases start.0) [
              | inr (e, failed) ↦ absurd (ground arith)
              | inl (a, active) ↦
                  elim (Result-cases (payment_of db client new_id t tips now o a start.1).0) [
                    | inr (e, refused) ↦ absurd (ground arith)
                    | inl (p, ready) ↦
                        let (c, made, sent) =
                          check_out-ok p (payment_of db client new_id t tips now o a start.1).1 url
                            (ground arith) in
                        record {
                          order = o;
                          found = found;
                          payable = ground arith;
                          payment = p;
                          charge =
                              payment_of-IsCharge o tips a s start.1 p
                                (at_table-id table o (
                                  db.find_first_matches (at_table order_id t table) s.orders o
                                    found))
                                (active_payment-cases tips pending s a active) ready;
                          amount = ground arith;
                          checkout = c;
                          made = made;
                          sent = sent;
                        }
                  ]
            ]
      ]
