-- ===== src/Pos/Pending.antt =====
-- `recoverPendingPosOrders` (apps/api/src/onboarding/pos-order-recovery.ts): the orders that still
-- wait for the POS are put into the queue again, page by page. `order_by` is the order of the rows by
-- their moment of creation, with the database's choice among equal ones; the queue only grows.
pub mod Pages
use bonapp.Base.{
  ℕ, zero, suc, Bool, true, false, Option, none, some, List, [], ◌∷◌, ◌++◌, map, if◌then◌else◌,
  ◌==◌, ◌&&◌, ◌||◌, not, is_some, select, length,
}
use bonapp.Database.{Store, Order, Event}
use bonapp.Pos.Recovery.{is_active}

-- the columns of a restaurant that say whether it has a POS
pub data PosType : Type 0 where
  iiko r_keeper other_pos : PosType

pub record PosTenant : Type 0 where
  pub id : ℕ
  pub pos_type : PosType
  pub pos_url : Option ℕ
  pub pos_api_key : Option ℕ
  pub pos_credentials : Option ℕ

abbrev pub is_supported : PosType → Bool
is_supported PosType.other_pos = false
is_supported _ = true

abbrev pub is_connected : PosTenant → Bool
is_connected t =
    is_supported t.pos_type
    && (is_some t.pos_url && (is_some t.pos_api_key || is_some t.pos_credentials))

abbrev pub is_pending_order : ℕ → Order → Bool
is_pending_order tenant o =
    o.tenant_id == tenant
    && (is_some o.guest_session_id
        && (not (is_some o.pos_order_id)
            && (not (is_some o.pos_order_submitted_at) && (not o.is_paid && is_active o.status))))

abbrev pub take : ℕ → List ℕ → List ℕ
take zero ids = []
take (suc n) [] = []
take (suc n) (k ∷ ids) = k ∷ take n ids

-- `cursor` and `skip: 1`: the rows behind the one with the id
abbrev pub after : ℕ → List ℕ → List ℕ
after k [] = []
after k (j ∷ ids) = if j == k then ids else after k ids

abbrev pub rows_after : Option ℕ → List ℕ → List ℕ
rows_after none ids = ids
rows_after (some k) ids = after k ids

-- `pending.at(-1)`
abbrev pub last : List ℕ → Option ℕ
last [] = none
last (k ∷ []) = some k
last (k ∷ j ∷ ids) = last (j ∷ ids)

abbrev pub enqueue_all : List ℕ → Store → Store
enqueue_all ids s = record s { events = s.events ++ map Event.pos_order_enqueued ids }

module _ (order_by : List Order → List Order) where
  abbrev pub pending_ids : ℕ → Store → List ℕ
  pending_ids tenant s =
      map (λ (o : Order). o.id) (order_by (select (is_pending_order tenant) s.orders))

  -- the loop for one restaurant, or none if the fuel runs out
  unfoldable pub recover_pages : ℕ → ℕ → Option ℕ → Store → Option Store
  recover_pages zero tenant cursor s = none
  recover_pages (suc fuel) tenant cursor s =
      let page = take 100 (rows_after cursor (pending_ids tenant s)) in
      let rest = recover_pages fuel tenant (last page) (enqueue_all page s) in
      if length page == 100 then rest else some (enqueue_all page s)

  unfoldable pub recover_tenants : List PosTenant → Store → Option Store
  unfolding recover_pages
  recover_tenants [] s = some s
  recover_tenants (t ∷ tenants) s =
      elim (recover_pages (suc (length (pending_ids t.id s))) t.id none s) [
        | none ↦ none
        | some s' ↦ recover_tenants tenants s'
      ]

  unfoldable pub recover_pending_pos_orders : List PosTenant → Store → Option Store
  unfolding recover_tenants
  recover_pending_pos_orders tenants s = recover_tenants (select is_connected tenants) s
