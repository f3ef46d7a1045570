-- ===== src/Orders/Pricing.antt =====
-- The price of an ordered item with its modifiers, in the loop over `requestedItems` of `create`
-- (apps/api/src/orders/orders.service.ts) and of `createGuestOrder`
-- (apps/api/src/guest-session/guest-session.service.ts), which is the same.
pub mod Laws
use Prim.Native.Nat.{max}
use bonapp.Base.{
  ℕ, ◌+◌, ◌*◌, Bool, true, false, Option, none, some, List, [], ◌∷◌, ◌++◌, if◌then◌else◌, ◌==◌,
  ◌&&◌, ◌||◌, not, any, all, select, includes, length, map, ltb, Result, ok, err, Error, sum_by,
  or_else,
}
use bonapp.Database.{Prisma, MenuItem, ModifierGroup, Modifier, OrderItem, OrderStatus}

pub record RequestedItem : Type 0 where
  pub menu_item_id : ℕ
  pub quantity : ℕ
  pub selected_modifiers : List ℕ

pub record AllowedOption : Type 0 where
  pub id : ℕ
  pub group_id : ℕ
  pub price : ℕ

-- `all.findIndex((entry) => entry.id === group.id) === index` and `group.isActive`: of the groups
-- with one id the first counts, if it is active
unfoldable pub active_groups : List ℕ → List ModifierGroup → List ModifierGroup
active_groups seen [] = []
active_groups seen (g ∷ gs) =
    let rest = active_groups (g.id ∷ seen) gs in
    if g.is_active && not (includes g.id seen) then g ∷ rest else rest

abbrev pub groups : MenuItem → List ModifierGroup
groups item = active_groups [] (item.legacy_groups ++ item.modifier_groups)

abbrev option_of : ℕ → Modifier → AllowedOption
option_of group m = record { id = m.id; group_id = group; price = m.price }

-- The older modifiers of the active groups.
unfoldable pub legacy_options : List ModifierGroup → List AllowedOption
legacy_options [] = []
legacy_options (g ∷ gs) =
    (if g.is_active then map (option_of g.id) g.modifiers else []) ++ legacy_options gs

-- The active options of the groups.
unfoldable pub group_options : List ModifierGroup → List AllowedOption
group_options [] = []
group_options (g ∷ gs) =
    map (option_of g.id) (select (λ (m : Modifier). m.is_active) g.modifier_options)
    ++ group_options gs

unfoldable pub allowed : MenuItem → List AllowedOption
unfolding legacy_options group_options active_groups
allowed item = legacy_options item.legacy_groups ++ group_options (groups item)

-- `allowed.some((option) => option.id === id)`
abbrev pub is_allowed : List AllowedOption → ℕ → Bool
is_allowed options id = any (λ (o : AllowedOption). o.id == id) options

-- `new Set(ids).size !== ids.length`
unfoldable pub has_duplicates : List ℕ → Bool
has_duplicates [] = false
has_duplicates (id ∷ ids) = includes id ids || has_duplicates ids

-- how many of the selected modifiers an option of the group offers
unfoldable pub selected_in : List AllowedOption → ℕ → List ℕ → ℕ
selected_in options group ids =
    length
      (select (λ id. any (λ (o : AllowedOption). o.id == id && o.group_id == group) options) ids)

-- `group.maxSelection !== null && count > group.maxSelection`
abbrev pub exceeds : Option ℕ → ℕ → Bool
exceeds none n = false
exceeds (some most) n = ltb most n

abbrev pub least : ModifierGroup → ℕ
least g = max (if g.is_required then 1 else 0) g.min_selection

unfoldable pub group_ok : List AllowedOption → List ℕ → ModifierGroup → Bool
unfolding selected_in
group_ok options ids g =
    let n = selected_in options g.id ids in not (ltb n (least g)) && not (exceeds g.max_selection n)

-- `allowed.find((option) => option.id === id)?.price ?? 0`
unfoldable pub option_price : List AllowedOption → ℕ → ℕ
option_price [] id = 0
option_price (o ∷ options) id = if o.id == id then o.price else option_price options id

pub modifiers_price : List AllowedOption → List ℕ → ℕ
unfolding option_price
modifiers_price options ids = sum_by (option_price options) ids

-- the code of the department 'HOT'
abbrev pub hot : ℕ
hot = 0

abbrev pub on_sale : ℕ → ℕ → MenuItem → Bool
on_sale tenant id m =
    m.id == id && (m.tenant_id == tenant && (m.is_active && not m.is_in_stop_list))

-- `!item || item.stopListItem?.isStopped`
abbrev pub is_unavailable : Option MenuItem → Bool
is_unavailable none = true
is_unavailable (some m) = m.is_stopped

-- One round of the loop, for the menu item that was found; `new_id` is the id of the new row.
unfoldable pub price_found : ℕ → RequestedItem → MenuItem → Result OrderItem
unfolding allowed active_groups has_duplicates group_ok modifiers_price
price_found new_id requested m =
    let ids = requested.selected_modifiers in
    if has_duplicates ids || not (all (is_allowed (allowed m)) ids)
    then err Error.bad_request
    else if all (group_ok (allowed m) ids) (groups m)
    then ok (record {
      id = new_id;
      item_id = m.id;
      quantity = requested.quantity;
      unit_price_byn = m.price_byn + modifiers_price (allowed m) ids;
      selected_modifiers = ids;
      status = OrderStatus.new;
      kitchen_department = or_else m.kitchen_department hot;
    })
    else err Error.bad_request

unfoldable pub price_item : Prisma → ℕ → List MenuItem → ℕ → RequestedItem → Result OrderItem
unfolding price_found
price_item db tenant menu new_id requested =
    elim (db.find_first (on_sale tenant requested.menu_item_id) menu) [
      | none ↦ err Error.bad_request
      | some m ↦ if m.is_stopped then err Error.bad_request else price_found new_id requested m
    ]

abbrev pub cons_priced : Result OrderItem → Result (List OrderItem) → Result (List OrderItem)
cons_priced (err e) rest = err e
cons_priced (ok i) (err e) = err e
cons_priced (ok i) (ok is) = ok (i ∷ is)

-- The whole loop; the new rows have the ids that the database generates.
unfoldable pub price_items :
    Prisma → ℕ → List MenuItem → (ℕ → ℕ) → ℕ → List RequestedItem → Result (List OrderItem)
unfolding price_item
price_items db tenant menu fresh n [] = ok []
price_items db tenant menu fresh n (r ∷ rs) =
    cons_priced (price_item db tenant menu (fresh n) r)
      (price_items db tenant menu fresh (n + 1) rs)

-- `pricedItems.reduce((sum, item) => sum + item.unitPriceByn * item.quantity, 0)`
unfoldable pub total_amount : List OrderItem → ℕ
total_amount items = sum_by (λ (i : OrderItem). i.unit_price_byn * i.quantity) items
