-- ===== src/Menu/Admin.antt =====
-- `MenuAdminService` (apps/api/src/menu/menu-admin.service.ts): modifier groups, their options, and
-- the stop list. An option belongs to the restaurant of its group. The updates that pass the caller's
-- data to Prisma as they are (`updateItem`, `updateCategory`, `updateModifierGroup`,
-- `updateModifier`) are left out.
pub mod Inactive
use bonapp.Base.{
  ℕ, Bool, true, false, Option, none, some, List, [], ◌∷◌, ◌++◌, if◌then◌else◌, ◌==◌, ◌&&◌, not,
  any, select, map, or_else, Result, ok, err, Error, require, throw_if, gets, modify, pure,
  transaction, ◌>>=◌, ◌>>◌,
}
use bonapp.Database.{Prisma, update_many}
use bonapp.Menu.Rows.{
  Item, Group, Choice, StopListItem, MenuStore, Handler, of_item, of_group, invalidate_menu,
}

pub record CreateModifierGroupData : Type 0 where
  pub id : Option ℕ
  pub name : List ℕ
  pub min_selected : Option ℕ
  pub max_selected : Option ℕ
  pub is_required : Option Bool

pub record CreateModifierOptionData : Type 0 where
  pub id : Option ℕ
  pub name : List ℕ
  pub extra_price_byn : Option ℕ
  pub is_default : Option Bool

pub record UpdateModifierOptionData : Type 0 where
  pub name : Option (List ℕ)
  pub extra_price_byn : Option ℕ
  pub is_default : Option Bool

-- `group: { is: { tenantId } }`
abbrev pub is_owned : ℕ → List Group → Choice → Bool
is_owned tenant groups o = any (of_group tenant o.group_id) groups

abbrev pub of_option : ℕ → ℕ → List Group → Choice → Bool
of_option tenant id groups o = o.id == id && is_owned tenant groups o

abbrev pub of_stop : ℕ → ℕ → StopListItem → Bool
of_stop tenant item t = t.tenant_id == tenant && t.menu_item_id == item

abbrev pub new_group : ℕ → ℕ → ℕ → CreateModifierGroupData → Group
new_group new_id tenant item dto = record {
  id = or_else dto.id new_id;
  tenant_id = tenant;
  item_id = item;
  name = dto.name;
  is_required = or_else dto.is_required false;
  min_selection = or_else dto.min_selected 0;
  max_selection = dto.max_selected;
  is_active = true;
}

abbrev pub new_option : ℕ → ℕ → CreateModifierOptionData → Choice
new_option new_id group dto = record {
  id = or_else dto.id new_id;
  group_id = group;
  name = dto.name;
  extra_price_byn = or_else dto.extra_price_byn 0;
  is_default = or_else dto.is_default false;
  is_active = true;
}

abbrev pub updated_option : UpdateModifierOptionData → Choice → Choice
updated_option dto o = record o {
  name = or_else dto.name o.name;
  extra_price_byn = or_else dto.extra_price_byn o.extra_price_byn;
  is_default = or_else dto.is_default o.is_default;
}

abbrev pub deactivated_group : Group → Group
deactivated_group g = record g { is_active = false }

abbrev pub deactivated_option : Choice → Choice
deactivated_option o = record o { is_active = false }

-- A group with the options that `include` picks.
pub record ListedGroup : Type 0 where
  pub group : Group
  pub modifier_options : List Choice

module _ (db : Prisma) where
  -- the item must be one of the restaurant
  abbrev pub require_item : ℕ → ℕ → Handler Item
  require_item tenant item s =
      require (db.find_first (of_item tenant item) s.items) Error.not_found s

  unfoldable pub update_stop_list : ℕ → ℕ → Bool → Handler (Unit {0})
  update_stop_list tenant item is_stopped = do
    require_item tenant item
    modify (λ s. record s {
      stop_list =
          if any (of_stop tenant item) s.stop_list
          then update_many (of_stop tenant item)
              (λ (t : StopListItem). record t { is_stopped = is_stopped }) s.stop_list
          else s.stop_list
            ++ record { tenant_id = tenant; menu_item_id = item; is_stopped = is_stopped } ∷ [];
    })
    invalidate_menu tenant

  unfoldable pub list_modifier_groups : ℕ → ℕ → Handler (List ListedGroup)
  list_modifier_groups tenant item = do
    require_item tenant item
    gets (λ s.
        map
          (λ (g : Group). record {
            group = g;
            modifier_options = select (λ (o : Choice). o.group_id == g.id && o.is_active) s.options;
          })
          (select (λ (g : Group). g.tenant_id == tenant && (g.item_id == item && g.is_active))
            s.groups))

  -- the group with the id that the request names, if it names one
  unfoldable pub find_group : ℕ → Option ℕ → MenuStore → Option Group
  find_group tenant none s = none
  find_group tenant (some id) s = db.find_first (of_group tenant id) s.groups

  -- The id of a group is unique over all restaurants.
  abbrev pub insert_group : Group → Handler Group
  insert_group g s =
      if any (λ (h : Group). h.id == g.id) s.groups
      then (err Error.failure, s)
      else (ok g, record s { groups = s.groups ++ g ∷ [] })

  unfoldable pub create_modifier_group : ℕ → ℕ → ℕ → CreateModifierGroupData → Handler Group
  unfolding find_group
  create_modifier_group new_id tenant item dto = do
    require_item tenant item
    existing ← gets (find_group tenant dto.id)
    elim existing [
      | some g ↦ throw_if (not (g.item_id == item)) Error.not_found >> pure g
      | none ↦
          insert_group (new_group new_id tenant item dto) >>= λ g. invalidate_menu tenant >> pure g
    ]

  -- the two updates of the transaction
  unfoldable pub deactivate_tx : ℕ → ℕ → Handler (Unit {0})
  deactivate_tx tenant group = do
    modify (λ s. record s {
      options =
          update_many (λ (o : Choice). o.group_id == group && is_owned tenant s.groups o)
            deactivated_option s.options;
    })
    known ← gets (λ s. any (of_group tenant group) s.groups)
    throw_if (not known) Error.failure
    modify
        (λ s. record s { groups = update_many (of_group tenant group) deactivated_group s.groups })

  unfoldable pub deactivate_modifier_group : ℕ → ℕ → Handler (Unit {0})
  unfolding deactivate_tx
  deactivate_modifier_group tenant group = do
    require (← gets (λ s. db.find_first (of_group tenant group) s.groups)) Error.not_found
    transaction (deactivate_tx tenant group)
    invalidate_menu tenant

  unfoldable pub find_option : ℕ → ℕ → Option ℕ → MenuStore → Option Choice
  find_option tenant group none s = none
  find_option tenant group (some id) s =
      db.find_first (λ (o : Choice). of_option tenant id s.groups o && o.group_id == group)
        s.options

  abbrev pub insert_option : Choice → Handler Choice
  insert_option o s =
      if any (λ (p : Choice). p.id == o.id) s.options
      then (err Error.failure, s)
      else (ok o, record s { options = s.options ++ o ∷ [] })

  unfoldable pub create_modifier_option : ℕ → ℕ → ℕ → CreateModifierOptionData → Handler Choice
  unfolding find_option
  create_modifier_option new_id tenant group dto = do
    parent ←
        gets (λ s. db.find_first (λ (g : Group). of_group tenant group g && g.is_active) s.groups)
    require parent Error.not_found
    existing ← gets (find_option tenant group dto.id)
    option ← elim existing [ some o ↦ pure o | none ↦ insert_option (new_option new_id group dto) ]
    invalidate_menu tenant
    pure option

  -- the transaction; its last query is not restricted to the restaurant
  unfoldable pub update_option_tx : ℕ → ℕ → UpdateModifierOptionData → Handler Choice
  update_option_tx tenant id dto = do
    known ←
        gets (λ s. any (λ (o : Choice). of_option tenant id s.groups o && o.is_active) s.options)
    modify (λ s. record s {
      options =
          update_many (λ (o : Choice). of_option tenant id s.groups o && o.is_active)
            (updated_option dto) s.options;
    })
    throw_if (not known) Error.not_found
    option ← gets (λ s. db.find_first (λ (o : Choice). o.id == id && o.is_active) s.options)
    require option Error.not_found

  unfoldable pub update_modifier_option : ℕ → ℕ → UpdateModifierOptionData → Handler Choice
  unfolding update_option_tx
  update_modifier_option tenant id dto = do
    option ← transaction (update_option_tx tenant id dto)
    invalidate_menu tenant
    pure option

  abbrev pub deactivate_option : ℕ → ℕ → Handler (Unit {0})
  deactivate_option tenant id s = (
    ok tt,
    record s { options = update_many (of_option tenant id s.groups) deactivated_option s.options },
  )

  unfoldable pub deactivate_modifier_option : ℕ → ℕ → Handler Choice
  deactivate_modifier_option tenant id = do
    existing ← gets (λ s. db.find_first (of_option tenant id s.groups) s.options)
    o ← require existing Error.not_found
    (if o.is_active then deactivate_option tenant id >> invalidate_menu tenant else pure tt)
    option ← gets (λ s. db.find_first (of_option tenant id s.groups) s.options)
    require option Error.not_found

  unfoldable pub update_item_stop_list : ℕ → ℕ → Bool → Handler (Unit {0})
  update_item_stop_list tenant item is_in_stop_list = do
    require_item tenant item
    modify (λ s. record s {
      items =
          update_many (of_item tenant item)
            (λ (i : Item). record i { is_in_stop_list = is_in_stop_list }) s.items;
    })
    invalidate_menu tenant
