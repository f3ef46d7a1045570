-- ===== src/Staff/Shifts/Interleaved.antt =====
-- Openings and closings of shifts at the same time: a closing waits for the cash register between its
-- two transactions, and others run meanwhile.
use bonapp.Base.{ℕ, ◌≡◌, arith, transaction, Result-cases, inl, inr}
use bonapp.Database.{Prisma, Store}
use bonapp.Staff.Shifts.{Pending, Register, open_shift, begin_close_tx, conclude}
use bonapp.Staff.Shifts.Single.{
  HasSingle, open_shift-HasSingle, begin_close_tx-HasSingle, conclude-HasSingle,
}

-- One step of some request, for whichever restaurant, with whatever the register answers to it. What
-- is pending may have been begun at any time before.
pub data ShiftStep (db : Prisma) (s : Store) : Store → Type 0 where
  opened :
      (register : Register) (id u cashier now : ℕ)
      → ShiftStep db s (open_shift db register id u cashier now s).1
  begun :
      (register : Register) (u now : ℕ)
      → ShiftStep db s (transaction (begin_close_tx db register u now) s).1
  concluded :
      (register : Register) (u later : ℕ) (p : Pending)
      → ShiftStep db s (conclude db register u later p s).1
  -- a request that leaves the shifts as they are
  elsewhere : {s' : Store} → s'.shifts ≡ s.shifts → ShiftStep db s s'

pub data ShiftReach (db : Prisma) (s : Store) : Store → Type 0 where
  here : ShiftReach db s s
  next : {s' s'' : Store} → ShiftReach db s s' → ShiftStep db s' s'' → ShiftReach db s s''

begun-HasSingle :
    (db : Prisma) (register : Register) (t u now : ℕ) (s : Store)
    → HasSingle t s
    → HasSingle t (transaction (begin_close_tx db register u now) s).1
begun-HasSingle db register t u now s h =
    elim (Result-cases (begin_close_tx db register u now s).0) [
      | inl (p, done) ↦ ground (arith, begin_close_tx-HasSingle db register t u now s h)
      | inr (e, failed) ↦ ground arith
    ]

ShiftStep-HasSingle :
    (db : Prisma) (t : ℕ) {s s' : Store} → ShiftStep db s s' → HasSingle t s → HasSingle t s'
ShiftStep-HasSingle db t {s} (opened register id u cashier now) h =
    open_shift-HasSingle db register t u id cashier now s h
ShiftStep-HasSingle db t {s} (begun register u now) h = begun-HasSingle db register t u now s h
ShiftStep-HasSingle db t {s} (concluded register u later p) h =
    conclude-HasSingle db register t u later p s h
ShiftStep-HasSingle db t (elsewhere same) h = rw same h

-- A restaurant that has at most one open shift never has two, in whatever order the openings and the
-- two halves of closings of all restaurants run, and whatever the cash registers answer.
pub ShiftReach-HasSingle :
    (db : Prisma) (t : ℕ) {s s' : Store} → HasSingle t s → ShiftReach db s s' → HasSingle t s'
ShiftReach-HasSingle db t h here = h
ShiftReach-HasSingle db t h (next r st) =
    ShiftStep-HasSingle db t st (ShiftReach-HasSingle db t h r)
