-- ===== src/Menu/Rows.antt =====
-- The tables of the menu, the errors of Prisma that apps/api/src/menu tells apart, and the calls that
-- drop the cached menu. Prices are whole kopecks; sort orders are numbers from 0; texts that are only
-- stored are numbers.
use bonapp.Base.{ℕ, Bool, Option, List, ◌∷◌, ◌==◌, ◌&&◌, not, any, select, Result, ok, err, Error}

pub record Category : Type 0 where
  pub id : ℕ
  pub tenant_id : ℕ
  pub name : List ℕ
  pub sort_order : ℕ
  pub is_active : Bool
  pub pos_category_id : Option ℕ

pub record Item : Type 0 where
  pub id : ℕ
  pub tenant_id : ℕ
  pub category_id : ℕ
  pub name : List ℕ
  pub description : Option ℕ
  pub price_byn : ℕ
  pub cost_price_byn : Option ℕ
  pub image_url : Option ℕ
  pub weight_grams : Option ℕ
  pub calories : Option ℕ
  pub proteins : Option ℕ
  pub fats : Option ℕ
  pub carbs : Option ℕ
  pub allergens : List ℕ
  pub kitchen_department : Option ℕ
  pub sort_order : ℕ
  pub cooking_time_minutes : Option ℕ
  pub is_in_stop_list : Bool
  pub pos_item_id : Option ℕ
  pub is_hit : Bool
  pub is_active : Bool

pub record Group : Type 0 where
  pub id : ℕ
  pub tenant_id : ℕ
  pub item_id : ℕ
  pub name : List ℕ
  pub is_required : Bool
  pub min_selection : ℕ
  pub max_selection : Option ℕ
  pub is_active : Bool

pub record Choice : Type 0 where
  pub id : ℕ
  pub group_id : ℕ
  pub name : List ℕ
  pub extra_price_byn : ℕ
  pub is_default : Bool
  pub is_active : Bool

pub record StopListItem : Type 0 where
  pub tenant_id : ℕ
  pub menu_item_id : ℕ
  pub is_stopped : Bool

-- `invalidated` holds the restaurants whose cached menu was dropped, the last one first.
pub record MenuStore : Type 0 where
  pub categories : List Category
  pub items : List Item
  pub groups : List Group
  pub options : List Choice
  pub stop_list : List StopListItem
  pub invalidated : List ℕ

-- a unique key is taken, a referenced row is missing, the row itself is missing
pub data PrismaError : Type 0 where
  p2002 p2003 p2025 : PrismaError

-- A write of one row: the row, or the error, which leaves the store as it was.
pub data Written (A : Type 0) : Type 0 where
  written : A → MenuStore → Written A
  refused : PrismaError → Written A

abbrev pub Handler : Type 0 → Type 0
Handler A = MenuStore → Result A × MenuStore

-- `try { … } catch (e) { … }` around one write
abbrev pub attempt :
    {A : Type 0}
    → (MenuStore → Written A)
    → (PrismaError → Error)
    → MenuStore
    → Result A × MenuStore
attempt write thrown s = elim (write s) [
  | written a s' ↦ (ok a, s')
  | refused e ↦ (err (thrown e), s)
]

-- an error that is thrown on
abbrev pub as_failure : PrismaError → Error
as_failure e = Error.failure

abbrev pub missing_row : PrismaError → Error
missing_row PrismaError.p2025 = Error.not_found
missing_row _ = Error.failure

abbrev pub of_category : ℕ → ℕ → Category → Bool
of_category tenant id c = c.tenant_id == tenant && c.id == id

abbrev pub of_item : ℕ → ℕ → Item → Bool
of_item tenant id i = i.tenant_id == tenant && i.id == id

abbrev pub of_group : ℕ → ℕ → Group → Bool
of_group tenant id g = g.tenant_id == tenant && g.id == id

abbrev pub in_category : ℕ → ℕ → Item → Bool
in_category tenant category i = i.tenant_id == tenant && i.category_id == category

-- `invalidateMenu`
abbrev pub invalidate_menu : ℕ → MenuStore → Result (Unit {0}) × MenuStore
invalidate_menu tenant s = (ok tt, record s { invalidated = tenant ∷ s.invalidated })

-- The foreign keys of groups and of the stop list cascade.
unfoldable pub drop_items : (Item → Bool) → MenuStore → MenuStore
drop_items doomed s =
    let gone : ℕ → ℕ → Bool = λ tenant id. any (λ i. doomed i && of_item tenant id i) s.items in
    let lost : ℕ → Bool =
      λ id. any (λ (g : Group). g.id == id && gone g.tenant_id g.item_id) s.groups in
    record s {
      items = select (λ i. not (doomed i)) s.items;
      groups = select (λ (g : Group). not (gone g.tenant_id g.item_id)) s.groups;
      options = select (λ (o : Choice). not (lost o.group_id)) s.options;
      stop_list = select (λ (t : StopListItem). not (gone t.tenant_id t.menu_item_id)) s.stop_list;
    }
