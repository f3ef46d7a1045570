-- ===== src/Tenants/Scope.antt =====
-- `scopeTenantQueryArgs`, `scopedDelegateOperation` and the part of `forTenant` before the query
-- (apps/api/src/prisma/prisma.service.ts).
pub mod Laws
pub mod Writes
use bonapp.Base.{
  ℕ, Bool, true, false, Option, none, some, if◌then◌else◌, ◌&&◌, not, is_some, Result, ok, err,
  Error,
}
use bonapp.Tenants.Arguments.{Field, Json, Members, Items, get, set, as_record, text_of}

-- `TENANT_SCOPED_MODELS`; `unscoped` is any other model.
pub data Model : Type 0 where
  user staff_shift tenant_model dining_area table table_session order order_item payment : Model
  menu_category menu_item modifier_group modifier_option modifier : Model
  menu_item_modifier_group stop_list_item pos_integration_config shift shift_report : Model
  unscoped : ℕ → Model

abbrev pub is_scoped : Model → Bool
is_scoped (Model.unscoped n) = false
is_scoped _ = true

-- `RELATION_SCOPED_MODELS`
abbrev pub owning_relation : Model → Option Field
owning_relation Model.order_item = some Field.order_field
owning_relation Model.modifier_option = some Field.group_field
owning_relation _ = none

abbrev pub is_tenant : Model → Bool
is_tenant Model.tenant_model = true
is_tenant _ = false

abbrev pub is_user : Model → Bool
is_user Model.user = true
is_user _ = false

-- `TENANT_FILTERED_OPS`, `TENANT_WRITE_OPS`, and any other operation
pub data Operation : Type 0 where
  find_first find_first_or_throw find_many find_unique find_unique_or_throw : Operation
  count aggregate group_by update_one update_many delete_one delete_many : Operation
  create_one create_many upsert : Operation
  other_operation : ℕ → Operation

abbrev pub is_write : Operation → Bool
is_write Operation.create_one = true
is_write Operation.create_many = true
is_write Operation.upsert = true
is_write _ = false

abbrev pub is_filtered : Operation → Bool
is_filtered (Operation.other_operation n) = false
is_filtered op = not (is_write op)

abbrev pub is_upsert : Operation → Bool
is_upsert Operation.upsert = true
is_upsert _ = false

-- `operation === 'findUnique' || operation === 'findUniqueOrThrow'`
abbrev pub is_unique_find : Operation → Bool
is_unique_find Operation.find_unique = true
is_unique_find Operation.find_unique_or_throw = true
is_unique_find _ = false

abbrev pub not_unique : Operation → Operation
not_unique Operation.find_unique = Operation.find_first
not_unique Operation.find_unique_or_throw = Operation.find_first_or_throw
not_unique op = op

unfoldable pub scoped_delegate_operation : Model → Operation → Operation
scoped_delegate_operation model op = if is_some (owning_relation model) then not_unique op else op

abbrev pub tenant_field : Model → Field
tenant_field model = if is_tenant model then Field.id_field else Field.tenant_id_field

-- `{ is: { tenantId } }` under the relation
abbrev pub owned_by : Field → ℕ → Json
owned_by relation tenant = Json.object (
    Members.member relation
      (Json.object (
        Members.member Field.is_field
          (Json.object (Members.member Field.tenant_id_field (Json.text tenant) Members.no_members))
          Members.no_members))
      Members.no_members)

-- `{ AND: [asRecord(where), …] }`
abbrev pub both : Members → Json → Json
both condition j = Json.object (
    Members.member Field.and_field
      (Json.array (Items.item (Json.object condition) (Items.item j Items.no_items)))
      Members.no_members)

-- `{ tenantId_email: { tenantId, email } }`
abbrev pub by_email : ℕ → ℕ → Json
by_email tenant email = Json.object (
    Members.member Field.tenant_id_email_field
      (Json.object (
        Members.member Field.tenant_id_field (Json.text tenant)
          (Members.member Field.email_field (Json.text email) Members.no_members)))
      Members.no_members)

-- the email, for a user that is looked up by a unique key
abbrev pub key_of : Model → Bool → Members → Option ℕ
key_of model by_key condition =
    if is_user model && by_key then text_of (get Field.email_field condition) else none

-- the `where` of a model that has the column
unfoldable pub scoped_where : Model → Bool → Members → ℕ → Json
scoped_where model by_key condition tenant = elim (key_of model by_key condition) [
  | some email ↦ by_email tenant email
  | none ↦ Json.object (set (tenant_field model) (Json.text tenant) condition)
]

-- `{ ...asRecord(value), [tenantField]: tenantId }`
abbrev pub stamped : Model → ℕ → Option Json → Json
stamped model tenant value =
    Json.object (set (tenant_field model) (Json.text tenant) (as_record value))

abbrev pub stamped_items : Model → ℕ → Items → Items
stamped_items model tenant Items.no_items = Items.no_items
stamped_items model tenant (Items.item v items) =
    Items.item (stamped model tenant (some v)) (stamped_items model tenant items)

-- `Array.isArray(data) ? data : [data]`, where `undefined` has no members
abbrev pub as_items : Option Json → Items
as_items (some (Json.array items)) = items
as_items (some v) = Items.item v Items.no_items
as_items none = Items.item Json.null Items.no_items

unfoldable pub scope_writes : Model → Operation → Members → ℕ → Members
unfolding scoped_where
scope_writes model op args tenant = if not (is_write op) then args else elim op [
  | Operation.create_many ↦
      set Field.data_field
        (Json.array (stamped_items model tenant (as_items (get Field.data_field args)))) args
  | Operation.upsert ↦ set Field.update_field (stamped model tenant (get Field.update_field args)) (
      set Field.create_field (stamped model tenant (get Field.create_field args)) (
        set Field.where_field
          (scoped_where model true (as_record (get Field.where_field args)) tenant) args))
  | _ ↦ set Field.data_field (stamped model tenant (get Field.data_field args)) args
]

unfoldable pub scope_tenant_query_args : Model → Operation → Members → ℕ → Result Members
unfolding scope_writes scoped_where
scope_tenant_query_args model op args tenant =
    if not (is_scoped model) then ok args else elim (owning_relation model) [
      | some relation ↦
          if is_upsert op
          then err Error.failure
          else if is_filtered op
          then ok (
              set Field.where_field
                (both (as_record (get Field.where_field args)) (owned_by relation tenant)) args)
          else ok args
      | none ↦ ok (
          scope_writes model op
            (if is_filtered op
              then set Field.where_field
                  (scoped_where model (is_unique_find op) (as_record (get Field.where_field args))
                    tenant)
                  args
              else args)
            tenant)
    ]

-- What `forTenant` passes to the client: the operation and its arguments.
unfoldable pub for_tenant : ℕ → Model → Operation → Members → Result (Operation × Members)
unfolding scope_tenant_query_args scoped_delegate_operation
for_tenant tenant model op args =
    if not (is_scoped model)
    then err Error.failure
    else elim (scope_tenant_query_args model op args tenant) [
      | err e ↦ err e
      | ok scoped ↦ ok (scoped_delegate_operation model op, scoped)
    ]
