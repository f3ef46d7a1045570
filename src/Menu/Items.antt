-- ===== src/Menu/Items.antt =====
-- `createItem`, `updateItem` and `deleteItem` of `MenuCatalogService`
-- (apps/api/src/menu/menu-catalog.service.ts). An update answers with the row, which is left out.
pub mod Repeated
use bonapp.Base.{
  ℕ, suc, ◌+◌, Bool, true, false, Option, none, some, List, [], ◌∷◌, ◌++◌, map, if◌then◌else◌, ◌==◌,
  ◌&&◌, ◌||◌, not, leb, ltb, length, any, all, select, includes, is_some, is_empty, or_else,
  option_is, Result, ok, err, Error, require, throw_if, gets, pure, transaction, ◌>>=◌, ◌>>◌,
}
use bonapp.Database.{Prisma, update_many}
use bonapp.Menu.Rows.{
  Category, Item, MenuStore, PrismaError, Written, Handler, attempt, as_failure, missing_row,
  of_category, of_item, in_category, invalidate_menu, drop_items,
}
use bonapp.Menu.Names.{trim, validate_name, validate_price, check_name}

pub record CreateItemDto : Type 0 where
  pub id : Option ℕ
  pub name : List ℕ
  pub category_id : ℕ
  pub price : Option ℕ
  pub description : Option ℕ
  pub image_url : Option ℕ

-- A field that is left out is none; so is `null` one level below.
pub record UpdateItemDto : Type 0 where
  pub name : Option (List ℕ)
  pub category_id : Option ℕ
  pub price : Option (Option ℕ)
  pub description : Option (Option ℕ)
  pub image_url : Option (Option ℕ)
  pub is_active : Option Bool
  pub is_hit : Option Bool
  pub cost_price_byn : Option (Option ℕ)
  pub weight_grams : Option (Option ℕ)
  pub kitchen_department : Option (Option ℕ)
  pub cooking_time_minutes : Option (Option ℕ)
  pub calories : Option (Option ℕ)
  pub proteins : Option (Option ℕ)
  pub fats : Option (Option ℕ)
  pub carbs : Option (Option ℕ)
  pub allergens : Option (List ℕ)
  pub pos_item_id : Option (Option ℕ)

-- `items.reduce((next, item) => Math.max(next, item.sortOrder + 1), next)`
unfoldable pub next_sort_order : ℕ → List Item → ℕ
next_sort_order next [] = next
next_sort_order next (i ∷ items) =
    next_sort_order (if ltb next (i.sort_order + 1) then i.sort_order + 1 else next) items

abbrev pub last_in : ℕ → ℕ → MenuStore → ℕ
last_in tenant category s = next_sort_order 0 (select (in_category tenant category) s.items)

-- The columns that the request does not name have their defaults.
abbrev pub new_item : ℕ → ℕ → CreateItemDto → ℕ → ℕ → Item
new_item new_id tenant dto price sort_order = record {
  id = or_else dto.id new_id;
  tenant_id = tenant;
  category_id = dto.category_id;
  name = trim dto.name;
  description = dto.description;
  price_byn = price;
  cost_price_byn = none;
  image_url = dto.image_url;
  weight_grams = none;
  calories = none;
  proteins = none;
  fats = none;
  carbs = none;
  allergens = [];
  kitchen_department = none;
  sort_order = sort_order;
  cooking_time_minutes = none;
  is_in_stop_list = false;
  pos_item_id = none;
  is_hit = false;
  is_active = true;
}

-- An id is unique over all restaurants, and the category must be one of the restaurant.
unfoldable pub insert_item : Item → MenuStore → Written Item
insert_item i s =
    if any (λ (j : Item). j.id == i.id) s.items
    then Written.refused PrismaError.p2002
    else if not (any (of_category i.tenant_id i.category_id) s.categories)
    then Written.refused PrismaError.p2003
    else Written.written i (record s { items = s.items ++ i ∷ [] })

abbrev pub is_taken : PrismaError → Bool
is_taken PrismaError.p2002 = true
is_taken _ = false

abbrev pub missing_category : PrismaError → Error
missing_category PrismaError.p2003 = Error.not_found
missing_category _ = Error.failure

module _ (db : Prisma) where
  -- the item with the id that the request names, if it names one
  unfoldable pub find_item : ℕ → Option ℕ → MenuStore → Option Item
  find_item tenant none s = none
  find_item tenant (some id) s = db.find_first (of_item tenant id) s.items

  -- the transaction, and what its errors become
  unfoldable pub add_item : ℕ → ℕ → CreateItemDto → ℕ → Handler Item
  unfolding insert_item find_item next_sort_order
  add_item new_id tenant dto price s =
      elim (insert_item (new_item new_id tenant dto price (last_in tenant dto.category_id s)) s) [
        | Written.written i s' ↦ (invalidate_menu tenant >> pure i) s'
        | Written.refused e ↦ elim (if is_taken e then find_item tenant dto.id s else none) [
          | some i ↦ (ok i, s)
          | none ↦ (err (missing_category e), s)
        ]
      ]

  unfoldable pub create_item : ℕ → ℕ → CreateItemDto → Handler Item
  unfolding validate_name validate_price add_item find_item
  create_item new_id tenant dto = do
    validate_name dto.name
    price ← validate_price dto.price
    existing ← gets (find_item tenant dto.id)
    elim existing [ some i ↦ pure i | none ↦ add_item new_id tenant dto price ]

  abbrev pub has_field : UpdateItemDto → Bool
  has_field dto =
      is_some dto.name
      || (is_some dto.category_id
          || (is_some dto.price
              || (is_some dto.description
                  || (is_some dto.image_url
                      || (is_some dto.is_active
                          || (is_some dto.is_hit
                              || (is_some dto.cost_price_byn
                                  || (is_some dto.weight_grams
                                      || (is_some dto.kitchen_department
                                          || (is_some dto.cooking_time_minutes
                                              || (is_some dto.calories
                                                  || (is_some dto.proteins
                                                      || (is_some dto.fats
                                                          || (is_some dto.carbs
                                                            || (is_some dto.allergens
                                                            || is_some
                                                            dto.pos_item_id)))))))))))))))

  abbrev pub check_price : Option (Option ℕ) → Handler (Unit {0})
  check_price none = pure tt
  check_price (some price) = validate_price price >> pure tt

  -- `data`, and the sort order if the item moves to another category
  abbrev pub updated_item : UpdateItemDto → Option ℕ → Item → Item
  updated_item dto sort_order i = record i {
    name = elim dto.name [ none ↦ i.name | some n ↦ trim n ];
    category_id = or_else dto.category_id i.category_id;
    price_byn = or_else (or_else dto.price none) i.price_byn;
    description = or_else dto.description i.description;
    image_url = or_else dto.image_url i.image_url;
    is_active = or_else dto.is_active i.is_active;
    is_hit = or_else dto.is_hit i.is_hit;
    cost_price_byn = or_else dto.cost_price_byn i.cost_price_byn;
    weight_grams = or_else dto.weight_grams i.weight_grams;
    kitchen_department = or_else dto.kitchen_department i.kitchen_department;
    cooking_time_minutes = or_else dto.cooking_time_minutes i.cooking_time_minutes;
    calories = or_else dto.calories i.calories;
    proteins = or_else dto.proteins i.proteins;
    fats = or_else dto.fats i.fats;
    carbs = or_else dto.carbs i.carbs;
    allergens = or_else dto.allergens i.allergens;
    pos_item_id = or_else dto.pos_item_id i.pos_item_id;
    sort_order = or_else sort_order i.sort_order;
  }

  abbrev pub is_known_category : ℕ → Option ℕ → MenuStore → Bool
  is_known_category tenant none s = true
  is_known_category tenant (some c) s = any (of_category tenant c) s.categories

  unfoldable pub change_item : ℕ → ℕ → UpdateItemDto → Option ℕ → MenuStore → Written (Unit {0})
  change_item tenant id dto sort_order s =
      if not (any (of_item tenant id) s.items)
      then Written.refused PrismaError.p2025
      else if not (is_known_category tenant dto.category_id s)
      then Written.refused PrismaError.p2003
      else Written.written tt (record s {
        items = update_many (of_item tenant id) (updated_item dto sort_order) s.items;
      })

  -- the sort order behind the items of the new category, if the item moves there
  unfoldable pub moved_order : ℕ → ℕ → Option ℕ → MenuStore → Option ℕ
  unfolding next_sort_order
  moved_order tenant id none s = none
  moved_order tenant id (some c) s = elim (db.find_first (of_item tenant id) s.items) [
    | none ↦ none
    | some current ↦ if current.category_id == c then none else some (last_in tenant c s)
  ]

  -- `isForeignKeyError` counts only if a category is given, which is the only key that is checked.
  abbrev pub item_error : PrismaError → Error
  item_error PrismaError.p2025 = Error.not_found
  item_error PrismaError.p2003 = Error.not_found
  item_error _ = Error.failure

  unfoldable pub update_item : ℕ → ℕ → UpdateItemDto → Handler (Unit {0})
  unfolding change_item moved_order
  update_item tenant id dto = do
    throw_if (not (has_field dto)) Error.bad_request
    check_name dto.name
    check_price dto.price
    sort_order ← gets (moved_order tenant id dto.category_id)
    attempt (change_item tenant id dto sort_order) item_error
    invalidate_menu tenant

unfoldable pub remove_item : ℕ → ℕ → MenuStore → Written (Unit {0})
unfolding drop_items
remove_item tenant id s =
    if any (of_item tenant id) s.items
    then Written.written tt (drop_items (of_item tenant id) s)
    else Written.refused PrismaError.p2025

unfoldable pub delete_item : ℕ → ℕ → Handler (Unit {0})
unfolding remove_item
delete_item tenant id = do attempt (remove_item tenant id) missing_row; invalidate_menu tenant
