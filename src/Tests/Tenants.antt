-- ===== src/Tests/Tenants.antt =====
-- Runs of the separation of restaurants.
use bonapp.Base.{ℕ, ◌≡◌, refl, Bool, true, some, arith, ◌==◌, ◌&&◌, Bool-cases, inl, inr}
use bonapp.Tenants.Arguments.{Field, Json, Members, Items, get, set, same_field, as_record}
use bonapp.Tenants.Scope.{Model, Operation, for_tenant}
use bonapp.Tenants.Scope.Laws.{Filters, TakesWhere, tenant_of, for_tenant-tenant_of}
use bonapp.Tenants.Scope.Writes.{AreStamped, created, for_tenant-AreStamped}

-- Every column of every row is 1, and every row is related to itself.
mutual
  fits : Json → Bool
  fits Json.null = true
  fits (Json.text v) = v == 1
  fits (Json.literal v) = true
  fits (Json.object o) = all_fit o
  fits (Json.array items) = each_fits items

  all_fit : Members → Bool
  all_fit Members.no_members = true
  all_fit (Members.member f v o) = fits v && all_fit o

  each_fits : Items → Bool
  each_fits Items.no_items = true
  each_fits (Items.item v items) = fits v && each_fits items

get-fits :
    (f : Field) (v : Json) (w : Members) → get f w ≡ some v → all_fit w ≡ true → fits v ≡ true
unfolding get all_fit fits
get-fits f v Members.no_members e h = absurd (ground arith)
get-fits f v (Members.member g u w) e h = elim (Bool-cases (same_field f g)) [
  | inl same ↦ ground (arith, same)
  | inr other ↦ get-fits f v w (ground (arith, other)) (ground arith)
]

fits-text : (v : ℕ) → fits (Json.text v) ≡ true → 1 ≡ v
unfolding fits
fits-text v h = ground arith

fits-second :
    (c w : Members)
    → fits (Json.array (Items.item (Json.object c) (Items.item (Json.object w) Items.no_items)))
      ≡ true
    → all_fit w ≡ true
unfolding fits all_fit each_fits
fits-second c w h = ground arith

fits-is :
    (w : Members)
    → fits (Json.object (Members.member Field.is_field (Json.object w) Members.no_members)) ≡ true
    → all_fit w ≡ true
unfolding fits all_fit
fits-is w h = ground arith

fits-object : (w : Members) → fits (Json.object w) ≡ true → all_fit w ≡ true
unfolding fits all_fit
fits-object w h = h

abbrev ones : Filters
ones = record {
  Row = ℕ;
  matches = λ w r. all_fit w;
  column = λ f r. 1;
  related = λ f r. r;
  matches_text = λ f v w r e h. fits-text v (get-fits f (Json.text v) w e h);
  matches_and = λ w w' c r e h. fits-second c w' (
      get-fits Field.and_field
        (Json.array (Items.item (Json.object c) (Items.item (Json.object w') Items.no_items))) w e
        h);
  matches_is = λ f w w' r e h. fits-is w' (
      get-fits f (Json.object (Members.member Field.is_field (Json.object w') Members.no_members)) w
        e h);
  matches_key =
      λ w w' r e h. fits-object w' (get-fits Field.tenant_id_email_field (Json.object w') w e h);
}

-- `{ where: { id: 1 } }`
abbrev by_id : Members
by_id =
    Members.member Field.where_field
      (Json.object (Members.member Field.id_field (Json.text 1) Members.no_members))
      Members.no_members

abbrev scoped_by_id : Members
scoped_by_id =
    Members.member Field.where_field
      (Json.object (
        Members.member Field.id_field (Json.text 1)
          (Members.member Field.tenant_id_field (Json.text 1) Members.no_members)))
      Members.no_members

for_tenant-tenant_of_example : tenant_of ones 1 Model.order 7 ≡ 1
unfolding for_tenant all_fit set as_record get
for_tenant-tenant_of_example =
    for_tenant-tenant_of ones 1 Model.order Operation.update_one Operation.update_one by_id
      scoped_by_id 7 (TakesWhere.filters refl) refl refl

-- two new tables, one of which names another restaurant
abbrev new_tables : Json → Json → Members
new_tables a b =
    Members.member Field.data_field (Json.array (Items.item a (Items.item b Items.no_items)))
      Members.no_members

abbrev of_restaurant : ℕ → Json
of_restaurant n =
    Json.object (Members.member Field.tenant_id_field (Json.text n) Members.no_members)

for_tenant-AreStamped_example :
    AreStamped Model.table 1
      (created Operation.create_many (new_tables (of_restaurant 1) (of_restaurant 1)))
unfolding for_tenant set get as_record
for_tenant-AreStamped_example =
    for_tenant-AreStamped 1 Model.table Operation.create_many Operation.create_many
      (new_tables (Json.object Members.no_members) (of_restaurant 2))
      (new_tables (of_restaurant 1) (of_restaurant 1)) refl refl
