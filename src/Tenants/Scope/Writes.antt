-- ===== src/Tenants/Scope/Writes.antt =====
-- What rows a scoped operation creates.
use mathlib.Core.Path.{subst}
use bonapp.Base.{sym, ℕ, ◌≡◌, refl, true, Option, none, some, arith, ok, if◌then◌else◌}
use bonapp.Tenants.Arguments.{
  Field, Json, Members, Items, get, set, as_record, get-set, get-set_other,
}
use bonapp.Tenants.Scope.{
  Model, Operation, is_filtered, is_unique_find, owning_relation, tenant_field, scoped_where,
  scope_writes, stamped, stamped_items, as_items, scope_tenant_query_args, for_tenant,
}

-- The rows that create, createMany and upsert create, by their arguments; other operations are not
-- counted here, also those that newer versions of Prisma have (createManyAndReturn).
abbrev pub one_item : Option Json → Items
one_item none = Items.no_items
one_item (some v) = Items.item v Items.no_items

abbrev pub created : Operation → Members → Items
created Operation.create_one args = one_item (get Field.data_field args)
created Operation.create_many args = as_items (get Field.data_field args)
created Operation.upsert args = one_item (get Field.create_field args)
created _ args = Items.no_items

abbrev pub AreStamped : Model → ℕ → Items → Type 0
AreStamped model owner Items.no_items = Unit
AreStamped model owner (Items.item v items) =
    (get (tenant_field model) (as_record (some v)) ≡ some (Json.text owner))
    × AreStamped model owner items

module _ (owner : ℕ) (model : Model) where
  stamped_items-AreStamped :
      (items : Items) → AreStamped model owner (stamped_items model owner items)
  unfolding as_record
  stamped_items-AreStamped Items.no_items = tt
  stamped_items-AreStamped (Items.item v items) = (
    get-set (tenant_field model) (Json.text owner) (as_record (some v)),
    stamped_items-AreStamped items,
  )

  scope_writes-AreStamped :
      (op : Operation) (args : Members)
      → AreStamped model owner (created op (scope_writes model op args owner))
  unfolding scope_writes as_record
  scope_writes-AreStamped Operation.create_one args =
      rw (get-set Field.data_field (stamped model owner (get Field.data_field args)) args)
        (get-set (tenant_field model) (Json.text owner) (as_record (get Field.data_field args)), tt)
  scope_writes-AreStamped Operation.create_many args =
      rw
        (get-set Field.data_field
          (Json.array (stamped_items model owner (as_items (get Field.data_field args)))) args)
        (stamped_items-AreStamped (as_items (get Field.data_field args)))
  scope_writes-AreStamped Operation.upsert args =
      let w =
        set Field.where_field
          (scoped_where model true (as_record (get Field.where_field args)) owner) args in
      let c = stamped model owner (get Field.create_field args) in
      rw
        (
          get-set_other Field.create_field Field.update_field
              (stamped model owner (get Field.update_field args)) (set Field.create_field c w) refl,
          get-set Field.create_field c w,
        )
        (
          get-set (tenant_field model) (Json.text owner) (as_record (get Field.create_field args)),
          tt,
        )
  scope_writes-AreStamped op args = tt

  abbrev filtered_args : Operation → Members → Members
  filtered_args op args =
      if is_filtered op
      then set Field.where_field
          (scoped_where model (is_unique_find op) (as_record (get Field.where_field args)) owner)
          args
      else args

  for_tenant-scope_writes :
      (op op' : Operation) (args args' : Members)
      → owning_relation model ≡ none
      → for_tenant owner model op args ≡ ok (op', args')
      → args' ≡ scope_writes model op (filtered_args op args) owner
  unfolding for_tenant scope_tenant_query_args
  for_tenant-scope_writes op op' args args' own e = ground arith

  -- Every row that `forTenant` lets `create`, `createMany` or `upsert` create carries the restaurant,
  -- whatever the caller passes: for a model that is not reached through its owner, the data of `create`, of each row of
  -- `createMany` and of the new row of `upsert` have its id in the column of the restaurant.
  pub for_tenant-AreStamped :
      (op op' : Operation) (args args' : Members)
      → owning_relation model ≡ none
      → for_tenant owner model op args ≡ ok (op', args')
      → AreStamped model owner (created op args')
  for_tenant-AreStamped op op' args args' own e =
      subst (λ a. AreStamped model owner (created op a))
        (sym (for_tenant-scope_writes op op' args args' own e))
        (scope_writes-AreStamped op (filtered_args op args))
