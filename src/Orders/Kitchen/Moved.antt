-- ===== src/Orders/Kitchen/Moved.antt =====
-- The items that a kitchen step moves.
use bonapp.Base.{
  ℕ, ◌≡◌, ◌≢◌, refl, Bool, false, Option, List, [], ◌∷◌, arith, All, select, includes, map, ◌&&◌,
  all, if◌then◌else◌, not,
}
use bonapp.Database.{Order, OrderItem, OrderStatus, ◌=ₒ◌, HasKeys}
use bonapp.Orders.Kitchen.{is_visible, item_ids, move_item, move_items, moving, all_processed}

abbrev pub item_id : OrderItem → ℕ
item_id i = i.id

-- The item is of the department, where one is given, and at the status of the order.
abbrev pub moves : Option ℕ → OrderStatus → OrderItem → Bool
moves department from i = is_visible department i && (i.status =ₒ from)

abbrev pub moved : Option ℕ → OrderStatus → OrderStatus → OrderItem → OrderItem
moved department from to i = if moves department from i then record i { status = to } else i

module _ (department : Option ℕ) (from : OrderStatus) where
  abbrev ids : List OrderItem → List ℕ
  ids items = item_ids (select (λ i. i.status =ₒ from) (select (is_visible department) items))

  ids-lacking :
      (k : ℕ) (items : List OrderItem)
      → All (λ x. item_id x ≢ k) items
      → includes k (ids items) ≡ false
  ids-lacking k [] h = refl
  ids-lacking k (i ∷ items) h = ground (arith, ids-lacking k items h.1, h.0)

  IsChosen : List OrderItem → OrderItem → Type 0
  IsChosen items i = includes i.id (ids items) ≡ moves department from i

  IsChosen-later :
      (j : OrderItem) (items later : List OrderItem)
      → All (λ x. item_id x ≢ item_id j) later
      → All (IsChosen items) later
      → All (IsChosen (j ∷ items)) later
  unfolding IsChosen
  IsChosen-later j items [] ne h = tt
  IsChosen-later j items (i ∷ later) ne h =
      (ground (arith, ne.0, h.0), IsChosen-later j items later ne.1 h.1)

  items-IsChosen : (items : List OrderItem) → HasKeys item_id items → All (IsChosen items) items
  unfolding IsChosen
  items-IsChosen [] keys = tt
  items-IsChosen (i ∷ items) keys = (
    ground (arith, ids-lacking i.id items keys.0),
    IsChosen-later i items items keys.0 (items-IsChosen items keys.1),
  )

  map-moved :
      (to : OrderStatus) (all_items items : List OrderItem)
      → All (IsChosen all_items) items
      → map (move_item (ids all_items) to) items ≡ map (moved department from to) items
  unfolding IsChosen
  map-moved to all_items [] h = refl
  map-moved to all_items (i ∷ items) h = ground (arith, h.0, map-moved to all_items items h.1)

-- Whether all items are at the status, seen from the items that stay and those that move.
all-move_items :
    (ids : List ℕ) (status : OrderStatus) (items : List OrderItem)
    → all (λ i. i.status =ₒ status) (map (move_item ids status) items)
      ≡ all (λ i. i.status =ₒ status) (select (λ i. not (includes i.id ids)) items)
all-move_items ids status [] = refl
all-move_items ids status (i ∷ items) = ground (arith, all-move_items ids status items)

-- The order with these items moved, at the new status if all of its items then are.
abbrev pub stepped : Option ℕ → OrderStatus → Order → Order
stepped department status old =
    let items = map (moved department old.status status) old.items in
    record old {
      items = items;
      status = if all (λ i. i.status =ₒ status) items then status else old.status;
    }

pub move_items-moved :
    (department : Option ℕ) (status : OrderStatus) (o : Order)
    → HasKeys item_id o.items
    → (move_items (moving department o) status o).items
      ≡ map (moved department o.status status) o.items
unfolding moving
move_items-moved department status o keys =
    map-moved department o.status status o.items o.items
      (items-IsChosen department o.status o.items keys)

pub all_processed-moved :
    (department : Option ℕ) (status : OrderStatus) (o : Order)
    → HasKeys item_id o.items
    → all_processed (moving department o) status o
      ≡ all (λ i. i.status =ₒ status) (map (moved department o.status status) o.items)
unfolding all_processed
all_processed-moved department status o keys =
    let e = move_items-moved department status o keys in
    ground (arith, all-move_items (moving department o) status o.items)
