-- ===== src/Payments/Erip/Confirmed.antt =====
-- A notification of ERIP has an effect only where the provider confirms it.
use bonapp.Base.{
  ℕ, ◌≡◌, refl, Bool, true, false, Option, none, some, arith, Result, ok, inl, inr, ◌⊎◌,
  Option-cases, Bool-cases, Result-cases, option_is,
}
use bonapp.Database.{Prisma, Store, Payment, PaymentStatus}
use bonapp.Payments.Erip.{
  Notice, Verified, process, apply_notice, notice_tx, announce, confirms, with_uid, of_erip,
  mapped_status,
}

-- The payment that a notification names: its tracking id, of this restaurant, by ERIP, with this uid.
abbrev pub Names : Prisma → ℕ → Notice → Store → Payment → Type 0
Names db t n s p =
    (db.find_first (of_erip n.tracking_id t) s.payments ≡ some p)
    × (option_is p.provider_transaction_id n.uid ≡ true)

module _ (db : Prisma) (t now : ℕ) (n : Notice) where
  unnamed :
      (status : PaymentStatus) (s : Store)
      → with_uid n.uid (db.find_first (of_erip n.tracking_id t) s.payments) ≡ none
      → (apply_notice db t now n status s).1 ≡ s
  unfolding apply_notice notice_tx announce
  unnamed status s missing = ground arith

  with_uid-some :
      (o : Option Payment)
      → (with_uid n.uid o ≡ none)
        ⊎ ((p : Payment) × ((o ≡ some p) × (option_is p.provider_transaction_id n.uid ≡ true)))
  with_uid-some none = inl refl
  with_uid-some (some p) = elim (Bool-cases (option_is p.provider_transaction_id n.uid)) [
    | inl e ↦ inr (p, (refl, e))
    | inr e ↦ inl (ground arith)
  ]

  apply_notice-named :
      (status : PaymentStatus) (s : Store)
      → ((apply_notice db t now n status s).1 ≡ s) ⊎ ((p : Payment) × Names db t n s p)
  apply_notice-named status s =
      elim (with_uid-some (db.find_first (of_erip n.tracking_id t) s.payments)) [
        | inl missing ↦ inl (unnamed status s missing)
        | inr named ↦ inr named
      ]

-- A notification of ERIP leaves the store as it was, or the provider, asked for the payment's uid,
-- has confirmed its status and uid, and it names a payment of the restaurant with that uid.
pub process-confirmed :
    (db : Prisma) (configured : Bool) (get : ℕ → Result Verified) (t now : ℕ) (n : Notice)
    (s : Store)
    → ((process db configured get t now n s).1 ≡ s)
      ⊎ (((v : Verified) × ((get n.uid ≡ ok v) × (confirms n v ≡ true)))
          × ((p : Payment) × Names db t n s p))
unfolding process
process-confirmed db false get t now n s = inl refl
process-confirmed db true get t now n s = elim (Result-cases (get n.uid)) [
  | inr (e, failed) ↦ inl (ground arith)
  | inl (v, got) ↦ elim (Option-cases (mapped_status n.status)) [
    | inl ignored ↦ inl (ground arith)
    | inr (status, mapped) ↦ elim (Bool-cases (confirms n v)) [
      | inr differs ↦ inl (ground arith)
      | inl confirmed ↦ elim (apply_notice-named db t now n status s) [
        | inl same ↦ inl (ground arith)
        | inr named ↦ inr ((v, (got, confirmed)), named)
      ]
    ]
  ]
]
