-- ===== src/Menu/Catalog.antt =====
-- The categories of `MenuCatalogService` (apps/api/src/menu/menu-catalog.service.ts). The row that
-- an update answers with is left out.
use bonapp.Base.{
  ℕ, Bool, false, Option, none, some, List, [], ◌∷◌, ◌++◌, if◌then◌else◌, ◌==◌, ◌&&◌, ◌||◌, not,
  any, select, is_some, or_else, option_is, Error, throw_if, pure, ◌>>=◌, ◌>>◌,
}
use bonapp.Database.{update_many}
use bonapp.Menu.Rows.{
  Category, MenuStore, PrismaError, Written, Handler, attempt, missing_row, of_category,
  in_category, invalidate_menu, drop_items,
}
use bonapp.Menu.Names.{trim, validate_name, check_name}

pub record CreateCategoryDto : Type 0 where
  pub name : List ℕ
  pub sort_order : ℕ
  pub is_visible : Bool
  pub pos_category_id : Option ℕ

-- A field that is left out is none; so is `null` one level below.
pub record UpdateCategoryDto : Type 0 where
  pub name : Option (List ℕ)
  pub sort_order : Option ℕ
  pub is_visible : Option Bool
  pub pos_category_id : Option (Option ℕ)

-- another category of the restaurant has the id of the POS
abbrev pub pos_taken : ℕ → ℕ → Option ℕ → List Category → Bool
pos_taken tenant id none categories = false
pos_taken tenant id (some p) categories =
    any
      (λ (c : Category).
        c.tenant_id == tenant && (not (c.id == id) && option_is c.pos_category_id p))
      categories

-- `isUniqueConstraintError` and `isNotFoundError`
abbrev pub category_error : PrismaError → Error
category_error PrismaError.p2002 = Error.conflict
category_error PrismaError.p2025 = Error.not_found
category_error _ = Error.failure

abbrev pub insert_category : Category → MenuStore → Written Category
insert_category c s =
    if pos_taken c.tenant_id c.id c.pos_category_id s.categories
    then Written.refused PrismaError.p2002
    else Written.written c (record s { categories = s.categories ++ c ∷ [] })

unfoldable pub create_category : ℕ → ℕ → CreateCategoryDto → Handler Category
unfolding validate_name
create_category new_id tenant dto = do
  validate_name dto.name
  category ←
      attempt
        (insert_category (record {
          id = new_id;
          tenant_id = tenant;
          name = trim dto.name;
          sort_order = dto.sort_order;
          is_active = dto.is_visible;
          pos_category_id = dto.pos_category_id;
        }))
        category_error
  invalidate_menu tenant
  pure category

abbrev pub updated_category : UpdateCategoryDto → Category → Category
updated_category dto c = record c {
  name = elim dto.name [ none ↦ c.name | some n ↦ trim n ];
  sort_order = or_else dto.sort_order c.sort_order;
  is_active = or_else dto.is_visible c.is_active;
  pos_category_id = or_else dto.pos_category_id c.pos_category_id;
}

unfoldable pub change_category : ℕ → ℕ → UpdateCategoryDto → MenuStore → Written (Unit {0})
change_category tenant id dto s =
    if not (any (of_category tenant id) s.categories)
    then Written.refused PrismaError.p2025
    else if pos_taken tenant id (or_else dto.pos_category_id none) s.categories
    then Written.refused PrismaError.p2002
    else Written.written tt (record s {
      categories = update_many (of_category tenant id) (updated_category dto) s.categories;
    })

unfoldable pub update_category : ℕ → ℕ → UpdateCategoryDto → Handler (Unit {0})
unfolding change_category
update_category tenant id dto = do
  throw_if
      (not (
        is_some dto.name
        || (is_some dto.sort_order || (is_some dto.is_visible || is_some dto.pos_category_id))))
      Error.bad_request
  check_name dto.name
  attempt (change_category tenant id dto) category_error
  invalidate_menu tenant

-- the rows below a category cascade
unfoldable pub remove_category : ℕ → ℕ → MenuStore → Written (Unit {0})
unfolding drop_items
remove_category tenant id s =
    if any (of_category tenant id) s.categories
    then Written.written tt (
        let rest = drop_items (in_category tenant id) s in
        record rest { categories = select (λ c. not (of_category tenant id c)) s.categories })
    else Written.refused PrismaError.p2025

unfoldable pub delete_category : ℕ → ℕ → Handler (Unit {0})
unfolding remove_category
delete_category tenant id = do
  attempt (remove_category tenant id) missing_row
  invalidate_menu tenant
