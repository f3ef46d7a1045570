-- ===== src/Payments/Invoice/Laws.antt =====
-- What a guest is asked to pay by ERIP.
use bonapp.Base.{
  ℕ, ◌+◌, ◌≡◌, ◌≤◌, true, Option, none, some, arith, inl, inr, ◌⊎◌, Option-cases, Result-cases,
  Bool-cases, ok,
}
use bonapp.Database.{Prisma, Store, Order, Payment}
use bonapp.Payments.Bepaid.{is_payable}
use bonapp.Payments.Card.{at_table}
use bonapp.Payments.Invoice.{
  EripClient, create_erip_payment, renew, request, close_earlier, add_invoice, new_invoice,
  pending_by_erip, is_current,
}

module _ (db : Prisma) (client : EripClient) (t order_id now new_id : ℕ) where
  request-ok :
      (p : Payment) (s : Store) (id : ℕ)
      → (request db client p s).0 ≡ ok id
      → (uid : ℕ) × (client.create (p.amount_byn + p.tips_amount_byn) p.id ≡ ok uid)
        × (1 ≤ p.amount_byn + p.tips_amount_byn)
        × (id ≡ p.id)
  unfolding request
  request-ok p s id h =
      elim (Result-cases (client.create (p.amount_byn + p.tips_amount_byn) p.id)) [
        | inr (e, refused) ↦ absurd (ground arith)
        | inl (uid, made) ↦ (uid, made, ground arith, ground arith)
      ]

  -- A new request over the total and the tips of the order.
  pub record IsRequested (o : Order) (id : ℕ) : Type 0 where
    pub uid : ℕ
    pub made : client.create (o.total_amount_byn + o.tips_amount_byn) id ≡ ok uid
    pub amount : 1 ≤ o.total_amount_byn + o.tips_amount_byn

  renew-IsRequested :
      (o : Order) (earlier : Option Payment) (s : Store) (id : ℕ)
      → (renew db client new_id now t o earlier s).0 ≡ ok id
      → (id ≡ new_id) × IsRequested o id
  unfolding renew
  renew-IsRequested o earlier s id h = elim (Result-cases (close_earlier db client earlier s).0) [
    | inr (e, failed) ↦ absurd (ground arith)
    | inl (done, closed) ↦
        let s' : Store = (close_earlier db client earlier s).1 in
        elim (Result-cases (add_invoice (new_invoice new_id t now o) s').0) [
          | inr (e, failed) ↦ absurd (ground arith)
          | inl (p, added) ↦
              let (uid, made, amount, same) =
                request-ok (new_invoice new_id t now o)
                  (add_invoice (new_invoice new_id t now o) s').1 id (ground arith) in
              (same, record { uid = uid; made = rw same made; amount = amount })
        ]
  ]

  -- The answer to a guest who pays by ERIP is for an order of the table that is found, served and
  -- unpaid: it names the pending payment of the order whose request is still current, or a new one
  -- whose request is over the total and the tips of the order, at least one kopeck.
  pub create_erip_payment-IsRequested :
      (table : ℕ) (s : Store) (id : ℕ)
      → (create_erip_payment db client new_id now order_id t table s).0 ≡ ok id
      → (o : Order) × (db.find_first (at_table order_id t table) s.orders ≡ some o)
        × (is_payable o ≡ true)
        × (((p : Payment) × (db.find_first (pending_by_erip order_id t) s.payments ≡ some p)
              × (is_current now p ≡ true)
              × (id ≡ p.id))
            ⊎ ((id ≡ new_id) × IsRequested o id))
  unfolding create_erip_payment
  create_erip_payment-IsRequested table s id h =
      elim (Option-cases (db.find_first (at_table order_id t table) s.orders)) [
        | inl missing ↦ absurd (ground arith)
        | inr (o, found) ↦ (
          o,
          found,
          ground arith,
          elim (Option-cases (db.find_first (pending_by_erip order_id t) s.payments)) [
            | inl nothing ↦ inr (renew-IsRequested o none s id (ground arith))
            | inr (p, pending) ↦ elim (Bool-cases (is_current now p)) [
              | inl current ↦ inl (p, pending, current, ground arith)
              | inr old ↦ inr (renew-IsRequested o (some p) s id (ground arith))
            ]
          ],
        )
      ]
