-- ===== src/Tenants/Scope/Laws.antt =====
-- What a scoped query can reach, for what Prisma documents of a `where`.
use mathlib.Core.Path.{subst}
use bonapp.Base.{
  ap, ◌∙◌, ℕ, ◌≡◌, refl, Bool, true, false, none, some, arith, ok, Bool-cases, Option-cases, inl,
  inr,
}
use bonapp.Tenants.Arguments.{
  Field, Json, Members, Items, get, set, as_record, get-single, get-set, get-set_other,
}
use bonapp.Tenants.Scope.{
  Model, Operation, is_filtered, is_write, is_upsert, is_tenant, is_user, is_unique_find,
  owning_relation, tenant_field, owned_by, both, by_email, key_of, scoped_where, stamped,
  scope_writes, scope_tenant_query_args, for_tenant,
}

-- When a row fits a `where`: a column that is given as a text has this value, every part of AND
-- holds, `is` holds of the related row, and the parts of a compound key hold.
pub record Filters : Type 1 where
  pub Row : Type 0
  pub matches : Members → Row → Bool
  pub column : Field → Row → ℕ
  pub related : Field → Row → Row
  pub matches_text :
      (f : Field) (v : ℕ) (w : Members) (r : Row)
      → get f w ≡ some (Json.text v)
      → matches w r ≡ true
      → column f r ≡ v
  pub matches_and :
      (w w' : Members) (c : Members) (r : Row)
      → get Field.and_field w
        ≡ some
            (Json.array (Items.item (Json.object c) (Items.item (Json.object w') Items.no_items)))
      → matches w r ≡ true
      → matches w' r ≡ true
  pub matches_is :
      (f : Field) (w w' : Members) (r : Row)
      → get f w
        ≡ some (Json.object (Members.member Field.is_field (Json.object w') Members.no_members))
      → matches w r ≡ true
      → matches w' (related f r) ≡ true
  pub matches_key :
      (w w' : Members) (r : Row)
      → get Field.tenant_id_email_field w ≡ some (Json.object w')
      → matches w r ≡ true
      → matches w' r ≡ true

tenant_field-user :
    (model : Model) → is_user model ≡ true → tenant_field model ≡ Field.tenant_id_field
tenant_field-user model h = elim (Bool-cases (is_tenant model)) [
  | inl e ↦ absurd (ground arith)
  | inr e ↦ rw e refl
]

is_filtered-is_write : (op : Operation) → is_filtered op ≡ true → is_write op ≡ false
is_filtered-is_write op h = ground arith

is_filtered-is_upsert : (op : Operation) → is_filtered op ≡ true → is_upsert op ≡ false
is_filtered-is_upsert op h = ground arith

module _ (db : Filters) (owner : ℕ) where
  -- The restaurant of a row: its id for a restaurant, that of the order or of the group for an item
  -- or an option, and its column otherwise.
  abbrev pub tenant_of : Model → db.Row → ℕ
  tenant_of model r = elim (owning_relation model) [
    | some relation ↦ db.column Field.tenant_id_field (db.related relation r)
    | none ↦ db.column (tenant_field model) r
  ]

  abbrev tenant_is : Members
  tenant_is = Members.member Field.tenant_id_field (Json.text owner) Members.no_members

  scoped_where-matches :
      (model : Model) (by_key : Bool) (w : Members) (r : db.Row)
      → owning_relation model ≡ none
      → db.matches (as_record (some (scoped_where model by_key w owner))) r ≡ true
      → tenant_of model r ≡ owner
  unfolding scoped_where as_record get
  scoped_where-matches model by_key w r own h = elim (Option-cases (key_of model by_key w)) [
    | inl missing ↦
        rw (tenant_of, own)
          (db.matches_text (tenant_field model) owner (set (tenant_field model) (Json.text owner) w)
            r (get-set (tenant_field model) (Json.text owner) w) (ground (arith, missing)))
    | inr (email, found) ↦
        rw (tenant_of, own, tenant_field-user model (ground (arith, found)))
          (db.matches_text Field.tenant_id_field owner
            (Members.member Field.tenant_id_field (Json.text owner)
              (Members.member Field.email_field (Json.text email) Members.no_members))
            r refl
            (db.matches_key (as_record (some (by_email owner email)))
              (Members.member Field.tenant_id_field (Json.text owner)
                (Members.member Field.email_field (Json.text email) Members.no_members))
              r refl (ground (arith, found))))
  ]

  both-matches :
      (relation : Field) (w : Members) (r : db.Row)
      → db.matches (as_record (some (both w (owned_by relation owner)))) r ≡ true
      → db.column Field.tenant_id_field (db.related relation r) ≡ owner
  unfolding as_record get
  both-matches relation w r h =
      db.matches_text Field.tenant_id_field owner (tenant_is) (db.related relation r) refl (
        db.matches_is relation
          (Members.member relation
            (Json.object (Members.member Field.is_field (Json.object tenant_is) Members.no_members))
            Members.no_members)
          tenant_is r
          (get-single relation (
            Json.object (Members.member Field.is_field (Json.object tenant_is) Members.no_members)))
          (db.matches_and (as_record (some (both w (owned_by relation owner))))
            (Members.member relation
              (Json.object
                (Members.member Field.is_field (Json.object tenant_is) Members.no_members))
              Members.no_members)
            w r refl h))

  reach :
      (r : db.Row) (args' : Members) (w : Json) (args : Members)
      → args' ≡ set Field.where_field w args
      → db.matches (as_record (get Field.where_field args')) r ≡ true
      → db.matches (as_record (some w)) r ≡ true
  reach r args' w args e h =
      subst (λ o. db.matches (as_record o) r ≡ true)
        (ap (get Field.where_field) e ∙ get-set Field.where_field w args) h

  -- The `where` that `forTenant` passes on.
  for_tenant-related :
      (model : Model) (op op' : Operation) (args args' : Members) (relation : Field)
      → is_filtered op ≡ true
      → owning_relation model ≡ some relation
      → for_tenant owner model op args ≡ ok (op', args')
      → args'
        ≡ set Field.where_field
            (both (as_record (get Field.where_field args)) (owned_by relation owner))
            args
  unfolding for_tenant scope_tenant_query_args
  for_tenant-related model op op' args args' relation filtered own e =
      ground (arith, is_filtered-is_upsert op)

  for_tenant-own :
      (model : Model) (op op' : Operation) (args args' : Members)
      → is_filtered op ≡ true
      → owning_relation model ≡ none
      → for_tenant owner model op args ≡ ok (op', args')
      → args'
        ≡ set Field.where_field
            (scoped_where model (is_unique_find op) (as_record (get Field.where_field args)) owner)
            args
  unfolding for_tenant scope_tenant_query_args scope_writes
  for_tenant-own model op op' args args' filtered own e = ground (arith, is_filtered-is_write op)

  -- The `where` of an upsert, which is written before its two other parts.
  for_tenant-upsert :
      (model : Model) (op' : Operation) (args args' : Members)
      → owning_relation model ≡ none
      → for_tenant owner model Operation.upsert args ≡ ok (op', args')
      → get Field.where_field args'
        ≡ some (scoped_where model true (as_record (get Field.where_field args)) owner)
  unfolding for_tenant scope_tenant_query_args scope_writes
  for_tenant-upsert model op' args args' own e =
      let w =
        set Field.where_field
          (scoped_where model true (as_record (get Field.where_field args)) owner) args in
      let c = set Field.create_field (stamped model owner (get Field.create_field args)) w in
      ground (
        arith,
        get-set_other Field.where_field Field.update_field
            (stamped model owner (get Field.update_field args)) c refl,
        get-set_other Field.where_field Field.create_field
            (stamped model owner (get Field.create_field args)) w refl,
        get-set Field.where_field
            (scoped_where model true (as_record (get Field.where_field args)) owner) args,
      )

  for_tenant-upsert_related :
      (model : Model) (op' : Operation) (args args' : Members) (relation : Field)
      → owning_relation model ≡ some relation
      → for_tenant owner model Operation.upsert args ≡ ok (op', args')
      → ⊥
  unfolding for_tenant scope_tenant_query_args
  for_tenant-upsert_related model op' args args' relation own e = ground arith

  filtered-tenant_of :
      (model : Model) (op op' : Operation) (args args' : Members) (r : db.Row)
      → is_filtered op ≡ true
      → for_tenant owner model op args ≡ ok (op', args')
      → db.matches (as_record (get Field.where_field args')) r ≡ true
      → tenant_of model r ≡ owner
  filtered-tenant_of model op op' args args' r filtered e h =
      elim (Option-cases (owning_relation model)) [
        | inl own ↦
            scoped_where-matches model (is_unique_find op) (as_record (get Field.where_field args))
              r own
              (reach r args'
                (scoped_where model (is_unique_find op) (as_record (get Field.where_field args))
                  owner)
                args (for_tenant-own model op op' args args' filtered own e) h)
        | inr (relation, own) ↦
            rw (tenant_of, own)
              (both-matches relation (as_record (get Field.where_field args)) r (
                reach r args'
                  (both (as_record (get Field.where_field args)) (owned_by relation owner)) args
                  (for_tenant-related model op op' args args' relation filtered own e) h))
      ]

  upsert-tenant_of :
      (model : Model) (op' : Operation) (args args' : Members) (r : db.Row)
      → for_tenant owner model Operation.upsert args ≡ ok (op', args')
      → db.matches (as_record (get Field.where_field args')) r ≡ true
      → tenant_of model r ≡ owner
  upsert-tenant_of model op' args args' r e h = elim (Option-cases (owning_relation model)) [
    | inr (relation, own) ↦ absurd (for_tenant-upsert_related model op' args args' relation own e)
    | inl own ↦ scoped_where-matches model true (as_record (get Field.where_field args)) r own (
        subst (λ o. db.matches (as_record o) r ≡ true)
          (for_tenant-upsert model op' args args' own e) h)
  ]

  -- An operation that takes a `where`: those of TENANT_FILTERED_OPS (find, count, aggregate, groupBy,
  -- update and delete with their variants there) and upsert.
  pub data TakesWhere : Operation → Type 0 where
    filters : {op : Operation} → is_filtered op ≡ true → TakesWhere op
    upserts : TakesWhere Operation.upsert

  -- Every row that an operation of TENANT_FILTERED_OPS, or an upsert, reaches through `forTenant` by its
  -- `where` belongs to the restaurant, whatever the caller passes: such an operation is refused, or it
  -- gets a `where`, and the rows that this one fits are of the restaurant. Operations in neither list
  -- (such as updateManyAndReturn) are not spoken of.
  pub for_tenant-tenant_of :
      (model : Model) (op op' : Operation) (args args' : Members) (r : db.Row)
      → TakesWhere op
      → for_tenant owner model op args ≡ ok (op', args')
      → db.matches (as_record (get Field.where_field args')) r ≡ true
      → tenant_of model r ≡ owner
  for_tenant-tenant_of model op op' args args' r (filters filtered) e h =
      filtered-tenant_of model op op' args args' r filtered e h
  for_tenant-tenant_of model op op' args args' r upserts e h =
      upsert-tenant_of model op' args args' r e h
