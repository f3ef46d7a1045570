-- ===== src/Tests/Menu.antt =====
-- Runs of the operations on the menu.
use bonapp.Base.{◌≡◌, refl, true, false, none, some, [], ◌∷◌, ok, All}
use bonapp.Database.{update_many}
use bonapp.Database.Instance.{first_row}
use bonapp.Menu.Rows.{Item, Category, MenuStore}
use bonapp.Menu.Names.{trim}
use bonapp.Menu.Items.{CreateItemDto, create_item}
use bonapp.Menu.Items.Repeated.{create_item-create_item}
use bonapp.Menu.Ordering.{reorder_items}
use bonapp.Menu.Ordering.Laws.{IsPlaced, reorder_items-IsPlaced}

abbrev soup : Item
soup = record {
  id = 10;
  tenant_id = 1;
  category_id = 5;
  name = b's' ∷ [];
  description = none;
  price_byn = 500;
  cost_price_byn = none;
  image_url = none;
  weight_grams = none;
  calories = none;
  proteins = none;
  fats = none;
  carbs = none;
  allergens = [];
  kitchen_department = none;
  sort_order = 0;
  cooking_time_minutes = none;
  is_in_stop_list = false;
  pos_item_id = none;
  is_hit = false;
  is_active = true;
}

abbrev starters : Category
starters = record {
  id = 5;
  tenant_id = 1;
  name = b'a' ∷ [];
  sort_order = 0;
  is_active = true;
  pos_category_id = none;
}

abbrev menu : MenuStore
menu = record {
  categories = starters ∷ [];
  items =
      soup
      ∷ record soup { id = 11; sort_order = 1 }
      ∷ record soup { id = 12; category_id = 6 }
      ∷ [];
  groups = [];
  options = [];
  stop_list = [];
  invalidated = [];
}

reorder_items-IsPlaced_example :
    All (IsPlaced 1 5 (11 ∷ 10 ∷ [])) (reorder_items 1 5 (11 ∷ 10 ∷ []) menu).1.items
unfolding reorder_items update_many
reorder_items-IsPlaced_example = reorder_items-IsPlaced 1 5 (11 ∷ 10 ∷ []) menu refl

abbrev salad : CreateItemDto
salad = record {
  id = some 13;
  name = b' ' ∷ b's' ∷ [];
  category_id = 5;
  price = some 700;
  description = none;
  image_url = none;
}

create_item-create_item_example :
    create_item first_row 91 1 salad (create_item first_row 90 1 salad menu).1 ≡ (
      ok (record soup { id = 13; sort_order = 2; price_byn = 700 }),
      (create_item first_row 90 1 salad menu).1,
    )
unfolding create_item trim
create_item-create_item_example =
    create_item-create_item first_row 1 13 90 91 salad menu
      (record soup { id = 13; sort_order = 2; price_byn = 700 }) refl refl
