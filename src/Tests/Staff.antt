-- ===== src/Tests/Staff.antt =====
-- Runs of opening and closing a shift.
use bonapp.Base.{◌≡◌, refl, true, false, some, [], ◌∷◌, ok}
use bonapp.Database.Instance.{first_row}
use bonapp.Database.{count, update_many, TableStatus, Store}
use bonapp.Tests.Fixture.{store, shift, register}
use bonapp.Staff.Shifts.{begin_close_tx, confirm, started_at, Pending}
use bonapp.Staff.Shifts.Closing.{begin_close_tx-begin_close_tx}

abbrev closed : Store
closed = store [] [] TableStatus.available []

abbrev opened : Store
opened = store [] [] TableStatus.available (shift ∷ [])

-- a paid order whose payment has no receipt yet
abbrev first_attempt : Pending
first_attempt = record { shift = shift; started = true }

abbrev second_attempt : Pending
second_attempt = record { shift = started_at 300 shift; started = false }

begin_close_tx-begin_close_tx_example : confirm first_row register second_attempt ≡ ok (some 5)
unfolding begin_close_tx count update_many
begin_close_tx-begin_close_tx_example =
    begin_close_tx-begin_close_tx first_row register 1 300 400 first_attempt second_attempt opened
      refl refl refl refl
