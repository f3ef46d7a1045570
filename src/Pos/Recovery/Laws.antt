-- ===== src/Pos/Recovery/Laws.antt =====
-- An order reaches the POS at most once, unless the POS rejected it.
use bonapp.Base.{
  ℕ, ◌≡◌, refl, Bool, true, false, Option, some, List, arith, All, All-weaken, not, Result, ok, err,
  inl, inr, ◌⊎◌, Option-cases, Bool-cases, pure, ◌>>=◌, ◌>>◌, if◌then◌else◌, ◌||◌, ◌==◌, is_some,
}
use bonapp.Database.{Prisma, Store, Order, count, update_many, All-update_many, All-update_many_set}
use bonapp.Orders.Status.{of_order, update_order}
use mathlib.Core.Path.{subst}
use bonapp.Pos.Recovery.{
  all_mapped, Answer, PosSetup, process, submit, is_claimable, claimed, claim_pos_order_submission,
  submit_claimed_pos_order, with_pos_id, is_pos_order_eligible,
}

-- No row of the order can be claimed.
abbrev pub IsClosed : ℕ → ℕ → Order → Type 0
IsClosed t id o = is_claimable t id o ≡ false

abbrev pub is_rejected : Answer → Bool
is_rejected Answer.rejected = true
is_rejected _ = false

-- Whether a run of the worker had its order accepted.
abbrev pub sent : Result Bool → Bool
sent (ok b) = b
sent (err e) = false

claim-IsClosed :
    (now t id : ℕ) (s : Store)
    → All (IsClosed t id) (claim_pos_order_submission now t id s).1.orders
unfolding claim_pos_order_submission
claim-IsClosed now t id s =
    All-weaken (λ o. (is_claimable t id o ≡ false) ⊎ IsClosed t id o) (IsClosed t id)
      (update_many (is_claimable t id) (claimed now) s.orders)
      (λ o g. elim g [ inl h ↦ h | inr h ↦ h ])
      (All-update_many_set (IsClosed t id) (is_claimable t id) (claimed now) s.orders
        (λ o e. ground arith))

module _ (db : Prisma) (pos_item : ℕ → Option ℕ) (answer : Order → Answer) (t : ℕ) where
  with_pos_id-IsClosed :
      (id pos_id : ℕ) (rows : List Order)
      → All (IsClosed t id) rows
      → All (IsClosed t id) (update_many (of_order id t) (with_pos_id pos_id) rows)
  with_pos_id-IsClosed id pos_id rows h =
      All-update_many (IsClosed t id) (of_order id t) (with_pos_id pos_id) rows
        (λ o e g. ground arith) h

  answered :
      (a : Answer) (id : ℕ) (s : Store)
      → is_rejected a ≡ false
      → All (IsClosed t id) s.orders
      → All
          (IsClosed t id)
          ((submit_claimed_pos_order a t id >>= λ pos_id.
              update_order (of_order id t) (with_pos_id pos_id) >> pure true)
            s).1.orders
  unfolding submit_claimed_pos_order
  answered (Answer.accepted pos_id) id s h c =
      ground (arith, with_pos_id-IsClosed id pos_id s.orders c)
  answered Answer.rejected id s h c = cc
  answered Answer.lost id s h c = c

  chosen :
      (won : Bool) (a : Answer) (id : ℕ) (s : Store)
      → is_rejected a ≡ false
      → All (IsClosed t id) s.orders
      → All
          (IsClosed t id)
          ((if not won
              then pure false
              else (submit_claimed_pos_order a t id >>= λ pos_id.
                  update_order (of_order id t) (with_pos_id pos_id) >> pure true))
            s).1.orders
  chosen true a id s h c = answered a id s h c
  chosen false a id s h c = c

  submit-IsClosed :
      (now : ℕ) (o : Order) (s : Store)
      → is_rejected (answer o) ≡ false
      → All (IsClosed t o.id) (submit db pos_item answer now t o s).1.orders
  unfolding submit claim_pos_order_submission
  submit-IsClosed now o s h =
      chosen (count (is_claimable t o.id) s.orders == 1) (answer o) o.id
        (claim_pos_order_submission now t o.id s).1 h (claim-IsClosed now t o.id s)

  closed_order :
      (id : ℕ) (o : Order)
      → of_order id t o ≡ true
      → IsClosed t id o
      → (is_some o.pos_order_id
          || (is_some o.pos_order_submitted_at || not (is_pos_order_eligible o.status o.is_paid)))
        ≡ true
  unfolding is_pos_order_eligible
  closed_order id o own g = ground arith

  process-closed :
      (setup : PosSetup) (now id : ℕ) (s : Store)
      → All (IsClosed t id) s.orders
      → ((process db pos_item answer setup now t id s).1 ≡ s)
        × (sent (process db pos_item answer setup now t id s).0 ≡ false)
  unfolding process
  process-closed setup now id s h = elim (Option-cases (db.find_first (of_order id t) s.orders)) [
    | inl missing ↦ ground arith
    | inr (o, found) ↦ ground (
      arith,
      closed_order id o (db.find_first_matches (of_order id t) s.orders o found)
          (db.find_first_listed (IsClosed t id) (of_order id t) s.orders o found h),
    )
  ]

  owned : (id : ℕ) (o : Order) → of_order id t o ≡ true → o.id ≡ id
  owned id o e = ground arith

  -- A run changes nothing and has nothing accepted, or it is `submit` on the order.
  process-cases :
      (setup : PosSetup) (now id : ℕ) (s : Store)
      → ((o : Order) × ((o.id ≡ id)
            × (process db pos_item answer setup now t id s ≡ submit db pos_item answer now t o s)))
        ⊎ (((process db pos_item answer setup now t id s).1 ≡ s)
            × (sent (process db pos_item answer setup now t id s).0 ≡ false))
  unfolding process
  process-cases PosSetup.missing now id s = inr (refl, refl)
  process-cases PosSetup.unsupported now id s =
      inr (elim (Option-cases (db.find_first (of_order id t) s.orders)) [
        | inl missing ↦ ground arith
        | inr (o, found) ↦ ground arith
      ])
  process-cases PosSetup.supported now id s =
      elim (Option-cases (db.find_first (of_order id t) s.orders)) [
        | inl missing ↦ inr (ground arith)
        | inr (o, found) ↦
            checked o found (owned id o (db.find_first_matches (of_order id t) s.orders o found))
      ]
    where
      checked :
          (o : Order)
          → db.find_first (of_order id t) s.orders ≡ some o
          → o.id ≡ id
          → ((o : Order) × ((o.id ≡ id)
                × (process db pos_item answer PosSetup.supported now t id s
                    ≡ submit db pos_item answer now t o s)))
            ⊎ (((process db pos_item answer PosSetup.supported now t id s).1 ≡ s)
                × (sent (process db pos_item answer PosSetup.supported now t id s).0 ≡ false))
      checked o found own =
          elim (Bool-cases (
            is_some o.pos_order_id
            || (is_some o.pos_order_submitted_at
                || not (is_pos_order_eligible o.status o.is_paid)))) [
                  | inl closed ↦ inr (ground arith)
                  | inr is_open ↦ elim (Bool-cases (all_mapped pos_item o)) [
                    | inl mapped ↦ inl (o, (own, ground arith))
                    | inr unmapped ↦ inr (ground arith)
                  ]
                ]

  process-IsClosed :
      (setup : PosSetup) (now id : ℕ) (s : Store)
      → ((o : Order) → is_rejected (answer o) ≡ false)
      → All (IsClosed t id) (process db pos_item answer setup now t id s).1.orders
        ⊎ (((process db pos_item answer setup now t id s).1 ≡ s)
            × (sent (process db pos_item answer setup now t id s).0 ≡ false))
  process-IsClosed setup now id s h = elim (process-cases setup now id s) [
    | inl (o, (own, e)) ↦ inl (
        rw e (
          subst (λ k. All (IsClosed t k) (submit db pos_item answer now t o s).1.orders) own
            (submit-IsClosed now o s (h o))))
    | inr g ↦ inr g
  ]

-- Where the POS rejects no order, of two runs of the worker on one order, the second right after the
-- first, one changes nothing and has nothing accepted, whatever the settings and the POS are by the
-- second: an answer of the POS that is lost counts as sent.
pub process-once :
    (db : Prisma) (pos_item pos_item' : ℕ → Option ℕ) (answer answer' : Order → Answer)
    (t id now later : ℕ) (setup setup' : PosSetup) (s : Store)
    → ((o : Order) → is_rejected (answer o) ≡ false)
    → let (r, s') = process db pos_item answer setup now t id s in
      let (again, s'') = process db pos_item' answer' setup' later t id s' in
      ((s' ≡ s) × (sent r ≡ false)) ⊎ ((s'' ≡ s') × (sent again ≡ false))
process-once db pos_item pos_item' answer answer' t id now later setup setup' s h =
    elim (process-IsClosed db pos_item answer t setup now id s h) [
      | inl closed ↦ inr (
          process-closed db pos_item' answer' t setup' later id
            (process db pos_item answer setup now t id s).1 closed)
      | inr g ↦ inl g
    ]
