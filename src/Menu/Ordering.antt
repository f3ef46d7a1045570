-- ===== src/Menu/Ordering.antt =====
-- `reorderItems` of `MenuCatalogService` (apps/api/src/menu/menu-catalog.service.ts).
pub mod Sets
pub mod Placing
pub mod Laws
use bonapp.Base.{
  ℕ, suc, ◌+◌, Bool, true, false, Option, none, some, List, [], ◌∷◌, ◌++◌, map, if◌then◌else◌, ◌==◌,
  ◌&&◌, ◌||◌, not, leb, ltb, length, any, all, select, includes, is_some, is_empty, or_else,
  option_is, Result, ok, err, Error, require, throw_if, gets, pure, transaction, ◌>>=◌, ◌>>◌,
}
use bonapp.Database.{Prisma, update_many}
use bonapp.Menu.Rows.{
  Category, Item, MenuStore, PrismaError, Written, Handler, attempt, as_failure, missing_row,
  of_category, of_item, in_category, invalidate_menu, drop_items,
}

-- `new Set(ids).size`
unfoldable pub set_size : List ℕ → ℕ
set_size [] = 0
set_size (k ∷ ids) = let rest = set_size ids in if includes k ids then rest else suc rest

-- the test of `reorderItems` on the ids of the category and the ids that are given
unfoldable pub is_wrong_order : List ℕ → List ℕ → Bool
unfolding set_size
is_wrong_order existing ids =
    not (length ids == set_size existing)
    || (not (set_size ids == length ids) || any (λ k. not (includes k existing)) ids)

abbrev pub place : ℕ → ℕ → ℕ → Handler (Unit {0})
place tenant n id s =
    if any (of_item tenant id) s.items
    then (
      ok tt,
      record s {
        items = update_many (of_item tenant id) (λ (i : Item). record i { sort_order = n }) s.items;
      },
    )
    else (err Error.failure, s)

unfoldable pub place_all : ℕ → ℕ → List ℕ → Handler (Unit {0})
place_all tenant n [] = pure tt
place_all tenant n (id ∷ ids) = place tenant n id >> place_all tenant (suc n) ids

abbrev pub category_ids : ℕ → ℕ → List Item → List ℕ
category_ids tenant category items =
    map (λ (i : Item). i.id) (select (in_category tenant category) items)

unfoldable pub reorder_items : ℕ → ℕ → List ℕ → Handler (Unit {0})
unfolding is_wrong_order place_all
reorder_items tenant category ids = do
  existing ← gets (λ s. category_ids tenant category s.items)
  throw_if (is_wrong_order existing ids) Error.bad_request
  transaction (place_all tenant 0 ids)
  invalidate_menu tenant
