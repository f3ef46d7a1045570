-- ===== src/Halls/Numbers.antt =====
-- The numbers of tables that are created together.
use bonapp.Base.{
  ℕ, suc, zero, ◌+◌, ◌<◌, ◌≤◌, ◌≡◌, refl, true, false, Option, List, [], ◌∷◌, ◌++◌, arith, is_ok,
  All, ◌⊎◌, inl, inr, Bool-cases, Option-cases, ◌==◌, ◌&&◌, includes, select, is_empty, leb, ltb,
}
use bonapp.Database.{Prisma, Store, DiningTable}
use bonapp.Halls.{
  BulkCreateTablesDto, bulk_create_tables, table_numbers, new_tables, has_any_number, of_area,
}

-- The rows have the numbers from `start` on, as many as `n`, and stand in an area of a restaurant.
abbrev pub AreNumbered : ℕ → ℕ → ℕ → ℕ → List DiningTable → Type 0
AreNumbered tenant area start zero rows = rows ≡ []
AreNumbered tenant area start (suc n) [] = ⊥
AreNumbered tenant area start (suc n) (t ∷ rows) =
    (t.tenant_id ≡ tenant)
    × (t.area_id ≡ area)
    × (t.table_number ≡ start)
    × AreNumbered tenant area (suc start) n rows

-- The number of a table lies outside of the range, or the table is of another restaurant.
abbrev pub IsOutside : ℕ → ℕ → ℕ → DiningTable → Type 0
IsOutside tenant start n t =
    ((t.tenant_id == tenant) ≡ false) ⊎ ((t.table_number < start) ⊎ (start + n ≤ t.table_number))

includes-table_numbers :
    (start n k : ℕ) → includes k (table_numbers start n) ≡ leb start k && ltb k (start + n)
unfolding table_numbers
includes-table_numbers start zero k = ground arith
includes-table_numbers start (suc n) k = ground (arith, includes-table_numbers (suc start) n k)

new_tables-AreNumbered :
    (fresh : ℕ → ℕ × ℕ) (tenant area : ℕ) (seats : Option ℕ) (start n : ℕ)
    → AreNumbered tenant area start n (new_tables fresh tenant area seats (table_numbers start n))
unfolding new_tables table_numbers
new_tables-AreNumbered fresh tenant area seats start zero = refl
new_tables-AreNumbered fresh tenant area seats start (suc n) =
    (refl, refl, refl, new_tables-AreNumbered fresh tenant area seats (suc start) n)

outside :
    (tenant start n : ℕ) (t : DiningTable)
    → has_any_number tenant (table_numbers start n) t ≡ false
    → IsOutside tenant start n t
outside tenant start n t free = elim (Bool-cases (t.tenant_id == tenant)) [
  | inr other ↦ inl other
  | inl same ↦ elim (Bool-cases (ltb t.table_number start)) [
    | inl below ↦ inr (inl (ground arith))
    | inr above ↦ inr (inr (ground (arith, includes-table_numbers start n t.table_number)))
  ]
]

select-IsOutside :
    (tenant start n : ℕ) (rows : List DiningTable)
    → is_empty (select (has_any_number tenant (table_numbers start n)) rows) ≡ true
    → All (IsOutside tenant start n) rows
select-IsOutside tenant start n [] h = tt
select-IsOutside tenant start n (t ∷ rows) h =
    elim (Bool-cases (has_any_number tenant (table_numbers start n) t)) [
      | inl taken ↦ absurd (ground arith)
      | inr free ↦
          (outside tenant start n t free, select-IsOutside tenant start n rows (ground arith))
    ]

module _ (db : Prisma) where
  -- When tables are created together, the store gains exactly `count` tables of the area, numbered
  -- from `start_number` on, and no table of the restaurant had a number of this range before.
  pub bulk_create_tables-AreNumbered :
      (fresh : ℕ → ℕ × ℕ) (tenant : ℕ) (dto : BulkCreateTablesDto) (s : Store)
      → is_ok (bulk_create_tables db fresh tenant dto s).0 ≡ true
      → (rows : List DiningTable) × ((bulk_create_tables db fresh tenant dto s).1.tables
          ≡ s.tables ++ rows)
        × AreNumbered tenant dto.area_id dto.start_number dto.count rows
        × All (IsOutside tenant dto.start_number dto.count) s.tables
  unfolding bulk_create_tables
  bulk_create_tables-AreNumbered fresh tenant dto s h = (
    new_tables fresh tenant dto.area_id dto.seats_count (table_numbers dto.start_number dto.count),
    elim (Option-cases (db.find_first (of_area tenant dto.area_id) s.areas)) [
      | inl missing ↦ absurd (ground arith)
      | inr (a, found) ↦ ground arith
    ],
    new_tables-AreNumbered fresh tenant dto.area_id dto.seats_count dto.start_number dto.count,
    select-IsOutside tenant dto.start_number dto.count s.tables
        (elim (Option-cases (db.find_first (of_area tenant dto.area_id) s.areas)) [
          | inl missing ↦ absurd (ground arith)
          | inr (a, found) ↦ ground arith
        ]),
  )
