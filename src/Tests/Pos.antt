-- ===== src/Tests/Pos.antt =====
-- A run of the recovery of orders for the POS.
use bonapp.Base.{◌≡◌, refl, some, none, List, [], ◌∷◌}
use bonapp.Database.{Store, Order, OrderStatus, TableStatus}
use bonapp.Tests.Fixture.{store, order}
use bonapp.Pos.Pending.{PosTenant, PosType, enqueue_all, recover_pending_pos_orders}
use bonapp.Pos.Pending.Pages.{recover_pending_pos_orders-all}

abbrev connected : PosTenant
connected = record {
  id = 1;
  pos_type = PosType.iiko;
  pos_url = some 1;
  pos_api_key = some 2;
  pos_credentials = none;
}

-- two orders of guests that the POS does not have yet
abbrev waiting : Store
waiting =
    store
      (record (order OrderStatus.new) { guest_session_id = some 40 }
        ∷ record (order OrderStatus.cooking) { id = 101; guest_session_id = some 41 }
        ∷ [])
      [] TableStatus.occupied []

recover_pending_pos_orders-all_example :
    recover_pending_pos_orders (λ (l : List Order). l) (connected ∷ []) waiting
    ≡ some (enqueue_all (100 ∷ 101 ∷ []) waiting)
recover_pending_pos_orders-all_example =
    recover_pending_pos_orders-all (λ (l : List Order). l) (connected ∷ []) waiting
      ((refl, (refl, tt)), tt)
