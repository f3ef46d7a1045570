-- ===== src/Halls.antt =====
-- `HallsService` (apps/api/src/halls/halls.service.ts): areas and tables. The lists of tables and the
-- PDF of the QR codes are left out. Ids and QR tokens that the code draws are arguments. Between the
-- check of the numbers and `createMany` no other request runs, so that its conflict does not arise.
pub mod Numbers
use bonapp.Base.{
  ℕ, zero, suc, ◌+◌, Bool, true, false, Option, none, some, List, [], ◌∷◌, ◌++◌, if◌then◌else◌,
  ◌==◌, ◌&&◌, ◌||◌, not, any, select, or_else, includes, is_empty, map, Result, ok, err, Error,
  require, throw_if, gets, modify, pure, ◌>>=◌, ◌>>◌,
}
use bonapp.Database.{
  Prisma, Store, DiningArea, DiningTable, TableStatus, Order, update_many, count, update_unique,
}
use bonapp.Orders.Status.{of_table}

pub record CreateTableDto : Type 0 where
  pub table_number : ℕ
  pub label : Option ℕ
  pub seats_count : Option ℕ
  pub area_id : ℕ

-- A field that is left out is none; so is a label `null` one level below.
pub record UpdateTableDto : Type 0 where
  pub table_number : Option ℕ
  pub label : Option (Option ℕ)
  pub seats_count : Option ℕ
  pub area_id : Option ℕ

pub record BulkCreateTablesDto : Type 0 where
  pub area_id : ℕ
  pub start_number : ℕ
  pub count : ℕ
  pub seats_count : Option ℕ

abbrev Handler : Type 0 → Type 0
Handler A = Store → Result A × Store

-- `ACTIVE_TABLE_STATUSES.has(status)`
abbrev pub is_active_status : TableStatus → Bool
is_active_status TableStatus.occupied = true
is_active_status TableStatus.bill_requested = true
is_active_status _ = false

abbrev pub of_area : ℕ → ℕ → DiningArea → Bool
of_area tenant id a = a.id == id && a.tenant_id == tenant

-- another table of the restaurant has the number
abbrev pub has_number : ℕ → ℕ → DiningTable → Bool
has_number tenant n t = t.tenant_id == tenant && t.table_number == n

abbrev pub new_table : ℕ → ℕ → ℕ → ℕ → ℕ → Option ℕ → Option ℕ → DiningTable
new_table id qr_token tenant area n label seats = record {
  id = id;
  tenant_id = tenant;
  area_id = area;
  table_number = n;
  label = label;
  seats_count = or_else seats 1;
  qr_token = qr_token;
  status = TableStatus.available;
}

unfoldable pub create_area : ℕ → ℕ → ℕ → Option ℕ → Handler DiningArea
create_area new_id tenant name sort_order =
    let area : DiningArea = record {
      id = new_id;
      tenant_id = tenant;
      name = name;
      sort_order = or_else sort_order 0;
    } in
    modify (λ s. record s { areas = s.areas ++ area ∷ [] }) >> pure area

abbrev pub updated_table : UpdateTableDto → DiningTable → DiningTable
updated_table dto t = record t {
  table_number = or_else dto.table_number t.table_number;
  label = or_else dto.label t.label;
  seats_count = or_else dto.seats_count t.seats_count;
  area_id = or_else dto.area_id t.area_id;
}

-- `Array.from({ length }, (_, i) => start + i)`
unfoldable pub table_numbers : ℕ → ℕ → List ℕ
table_numbers start zero = []
table_numbers start (suc n) = start ∷ table_numbers (suc start) n

-- the rows of `createMany`; `fresh` gives the ids and the QR tokens
unfoldable pub new_tables : (ℕ → ℕ × ℕ) → ℕ → ℕ → Option ℕ → List ℕ → List DiningTable
new_tables fresh tenant area seats [] = []
new_tables fresh tenant area seats (n ∷ numbers) =
    new_table (fresh n).0 (fresh n).1 tenant area n none seats
    ∷ new_tables fresh tenant area seats numbers

abbrev pub has_any_number : ℕ → List ℕ → DiningTable → Bool
has_any_number tenant numbers t = t.tenant_id == tenant && includes t.table_number numbers

module _ (db : Prisma) where
  unfoldable pub verify_area_belongs_to_tenant : ℕ → ℕ → Handler (Unit {0})
  verify_area_belongs_to_tenant tenant area = do
    found ← gets (λ s. db.find_first (of_area tenant area) s.areas)
    require found Error.not_found
    pure tt

  unfoldable pub create_table : ℕ → ℕ → ℕ → CreateTableDto → Handler DiningTable
  unfolding verify_area_belongs_to_tenant
  create_table new_id qr_token tenant dto = do
    verify_area_belongs_to_tenant tenant dto.area_id
    taken ← gets (λ s. any (has_number tenant dto.table_number) s.tables)
    throw_if taken Error.conflict
    (let table : DiningTable =
          new_table new_id qr_token tenant dto.area_id dto.table_number dto.label dto.seats_count in
        modify (λ s. record s { tables = s.tables ++ table ∷ [] }) >> pure table)

  abbrev pub verify_new_area : ℕ → Option ℕ → Handler (Unit {0})
  verify_new_area tenant none = pure tt
  verify_new_area tenant (some area) = verify_area_belongs_to_tenant tenant area

  -- another table than the one with the id has the number that is given
  abbrev pub is_number_taken : ℕ → ℕ → Option ℕ → Store → Bool
  is_number_taken tenant id none s = false
  is_number_taken tenant id (some n) s =
      any (λ (t : DiningTable). has_number tenant n t && not (t.id == id)) s.tables

  unfoldable pub update_table_row : ℕ → ℕ → UpdateTableDto → Handler (Unit {0})
  unfolding verify_area_belongs_to_tenant
  update_table_row tenant id dto = do
    verify_new_area tenant dto.area_id
    require (← gets (λ s. db.find_first (of_table id tenant) s.tables)) Error.not_found
    missing ← gets (λ s. not (any (of_table id tenant) s.tables))
    throw_if missing Error.not_found
    taken ← gets (is_number_taken tenant id dto.table_number)
    throw_if taken Error.conflict
    modify
        (λ s. record s { tables = update_many (of_table id tenant) (updated_table dto) s.tables })

  abbrev pub is_deletable : ℕ → ℕ → DiningTable → Bool
  is_deletable tenant id t = of_table id tenant t && not (is_active_status t.status)

  -- `deleteMany`: orders that refer to a table keep it (`ON DELETE RESTRICT`), and the query fails.
  unfoldable pub delete_tables : ℕ → ℕ → Handler ℕ
  delete_tables tenant id s =
      if any (is_deletable tenant id) s.tables
        && any (λ (o : Order). o.table_id == id && o.tenant_id == tenant) s.orders
      then (err Error.failure, s)
      else (
        ok (count (is_deletable tenant id) s.tables),
        record s { tables = select (λ t. not (is_deletable tenant id t)) s.tables },
      )

  unfoldable pub delete_table : ℕ → ℕ → Handler (Unit {0})
  unfolding delete_tables
  delete_table tenant id = do
    table ← require (← gets (λ s. db.find_first (of_table id tenant) s.tables)) Error.not_found
    throw_if (is_active_status table.status) Error.conflict
    n ← delete_tables tenant id
    still_exists ← gets (λ s. db.find_first (of_table id tenant) s.tables)
    (if n == 0
        then (elim still_exists [ none ↦ pure tt | some t ↦ throw_if true Error.conflict ])
        else pure tt)

  -- The rows of the answer stand in the order of their numbers.
  unfoldable pub bulk_create_tables :
      (ℕ → ℕ × ℕ) → ℕ → BulkCreateTablesDto → Handler (List DiningTable)
  unfolding verify_area_belongs_to_tenant new_tables table_numbers
  bulk_create_tables fresh tenant dto = do
    verify_area_belongs_to_tenant tenant dto.area_id
    existing ←
        gets
          (λ s. select (has_any_number tenant (table_numbers dto.start_number dto.count)) s.tables)
    throw_if (not (is_empty existing)) Error.conflict
    modify (λ s. record s {
      tables =
          s.tables
          ++ new_tables fresh tenant dto.area_id dto.seats_count
              (table_numbers dto.start_number dto.count);
    })
    gets (λ s. select (has_any_number tenant (table_numbers dto.start_number dto.count)) s.tables)

  unfoldable pub update_table_status : ℕ → ℕ → TableStatus → Handler (Unit {0})
  update_table_status tenant id status = do
    require (← gets (λ s. db.find_first (of_table id tenant) s.tables)) Error.not_found
    missing ← gets (λ s. not (any (of_table id tenant) s.tables))
    throw_if missing Error.not_found
    modify (λ s. record s {
      tables =
          update_many (of_table id tenant) (λ (t : DiningTable). record t { status = status })
            s.tables;
    })
