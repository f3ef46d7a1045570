-- ===== src/Tests/Halls.antt =====
-- Runs of the operations on tables.
use bonapp.Base.{ℕ, ◌≡◌, refl, none, List, [], ◌++◌, All}
use bonapp.Database.{DiningTable, TableStatus}
use bonapp.Database.Instance.{first_row}
use bonapp.Tests.Fixture.{store}
use bonapp.Halls.{BulkCreateTablesDto, bulk_create_tables}
use bonapp.Halls.Numbers.{AreNumbered, IsOutside, bulk_create_tables-AreNumbered}

abbrev two_more : BulkCreateTablesDto
two_more = record { area_id = 4; start_number = 2; count = 2; seats_count = none }

abbrev fresh : ℕ → ℕ × ℕ
fresh n = (n, n)

bulk_create_tables-AreNumbered_example :
    (rows : List DiningTable) × ((bulk_create_tables first_row fresh 1 two_more
        (store [] [] TableStatus.available [])).1.tables
      ≡ (store [] [] TableStatus.available []).tables ++ rows)
    × AreNumbered 1 4 2 2 rows
    × All (IsOutside 1 2 2) (store [] [] TableStatus.available []).tables
unfolding bulk_create_tables
bulk_create_tables-AreNumbered_example =
    bulk_create_tables-AreNumbered first_row fresh 1 two_more (store [] [] TableStatus.available [])
      refl
