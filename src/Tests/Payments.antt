-- ===== src/Tests/Payments.antt =====
-- Runs of the payments and of the worker of the POS queue.
use bonapp.Base.{none, [], ◌∷◌, ℕ, ◌≡◌, ◌⊎◌, refl, true, false, some, All, inr, ok}
use bonapp.Database.Instance.{first_row}
use bonapp.Database.{
  update_many, TableStatus, PaymentStatus, Provider, OrderStatus, Order, Payment, Store,
}
use bonapp.Tests.Fixture.{payment, store, order, with_payment_of, with_order}
use bonapp.Payments.Bepaid
use bonapp.Payments.Bepaid.{BepaidStatus, is_payable}
use bonapp.Payments.Bepaid.Settled.{HasSucceeded, process-HasSucceeded}
use bonapp.Payments.Bepaid.Repeated.{Between, process-process}
use bonapp.Payments.Bepaid.Pays.{PaysAtMost}
use bonapp.Payments.Erip.{EripStatus}
use bonapp.Pos.Recovery.{Answer, PosSetup}
use bonapp.Pos.Recovery
use bonapp.Payments.Invoice.{
  EripClient, create_erip_payment, renew, close_earlier, withdraw, request, pending_by_erip,
  is_current,
}
use bonapp.Payments.Invoice.Laws.{IsRequested, create_erip_payment-IsRequested}
use bonapp.Payments.Card.{at_table}
use bonapp.Payments.Card.{BepaidClient, create_card_payment, active_payment, payment_of, check_out}
use bonapp.Payments.Card.Laws.{Charged, create_card_payment-Charged}
use bonapp.Pos.Recovery.Laws.{process-once, sent}

abbrev success : Bepaid.Notice
success = record { tracking_id = some 900; uid = some 77; status = BepaidStatus.successful }

abbrev failure : Bepaid.Notice
failure = record { tracking_id = some 900; uid = some 77; status = BepaidStatus.failed }

abbrev unpaid : Store
unpaid = with_payment_of Provider.bepaid PaymentStatus.pending

abbrev paid : Store
paid = (Bepaid.process first_row 1 500 success unpaid).1

-- In between the payment is said to have failed, and the order is served and unpaid again.
abbrev reopened : Store
reopened = record (Bepaid.process first_row 1 600 failure paid).1 { orders = unpaid.orders }

process-process_example :
    PaysAtMost first_row 1 500 900 unpaid paid
    × ((Bepaid.process first_row 1 900 success reopened).1.orders ≡ reopened.orders)
    × ((Bepaid.process first_row 1 900 success reopened).1.tables ≡ reopened.tables)
unfolding Bepaid.process Bepaid.apply_notice Bepaid.notice_tx Bepaid.announce
process-process_example =
    process-process first_row 1 500 900 900 (some 77) unpaid reopened
      (payment Provider.bepaid PaymentStatus.pending) (tt, tt) refl refl
      (Between.elsewhere (Between.noticed Between.here 1 600 failure) refl)

process-HasSucceeded_example :
    All
      (HasSucceeded 900)
      (Bepaid.process first_row 1 500 failure
        (with_payment_of Provider.bepaid PaymentStatus.succeeded)).1.payments
process-HasSucceeded_example =
    process-HasSucceeded first_row 1 500 900 failure
      (with_payment_of Provider.bepaid PaymentStatus.succeeded) (inr refl, tt)

abbrev arrives : Order → Answer
arrives o = Answer.accepted 8

process-once_example :
    (((Recovery.process first_row some arrives PosSetup.supported 300 1 100
          (with_order OrderStatus.new)).1
        ≡ with_order OrderStatus.new)
      × (sent
            (Recovery.process first_row some arrives PosSetup.supported 300 1 100
              (with_order OrderStatus.new)).0
          ≡ false))
    ⊎ (((Recovery.process first_row some arrives PosSetup.supported 400 1 100
            (Recovery.process first_row some arrives PosSetup.supported 300 1 100
              (with_order OrderStatus.new)).1).1
          ≡ (Recovery.process first_row some arrives PosSetup.supported 300 1 100
              (with_order OrderStatus.new)).1)
        × (sent
              (Recovery.process first_row some arrives PosSetup.supported 400 1 100
                (Recovery.process first_row some arrives PosSetup.supported 300 1 100
                  (with_order OrderStatus.new)).1).0
            ≡ false))
process-once_example =
    process-once first_row some some arrives arrives 1 100 300 400 PosSetup.supported
      PosSetup.supported (with_order OrderStatus.new) (λ o. refl)

abbrev client : BepaidClient
client = record {
  credentials = ok tt;
  get_checkout_status = λ token. none;
  create_checkout = λ amount id. ok (record { token = id; redirect_url = amount });
}

create_card_payment-Charged_example :
    Charged first_row client 1 100 300 901 5 250
      (store (order OrderStatus.served ∷ []) [] TableStatus.occupied [])
      1350
unfolding create_card_payment active_payment payment_of check_out
create_card_payment-Charged_example =
    create_card_payment-Charged first_row client 1 100 300 901 5 250
      (store (order OrderStatus.served ∷ []) [] TableStatus.occupied []) 1350 refl

abbrev erip_client : EripClient
erip_client = record {
  credentials = ok tt;
  status = λ uid. some EripStatus.expired;
  cancel = λ uid. false;
  create = λ amount id. ok 88;
}

abbrev old_request : Store
old_request = with_payment_of Provider.erip PaymentStatus.pending

abbrev new_id : ℕ
new_id = 901

create_erip_payment-IsRequested_example :
    (o : Order) × (first_row.find_first (at_table 100 1 5) old_request.orders ≡ some o)
    × (is_payable o ≡ true)
    × (((p : Payment) × (first_row.find_first (pending_by_erip 100 1) old_request.payments ≡ some p)
          × (is_current 1000000 p ≡ true)
          × (new_id ≡ p.id))
        ⊎ ((new_id ≡ new_id) × IsRequested first_row erip_client 1 100 1000000 new_id o new_id))
unfolding create_erip_payment renew close_earlier withdraw update_many request
create_erip_payment-IsRequested_example =
    create_erip_payment-IsRequested first_row erip_client 1 100 1000000 new_id 5 old_request new_id
      refl
