-- ===== src/Staff/Shifts/Closing.antt =====
-- Closing a shift: the command leaves once, no receipt is missing, and the counter starts again.
use mathlib.Core.Path.{subst}
use bonapp.Base.{
  or_else, ℕ, ◌≡◌, refl, sym, true, false, Option, none, some, arith, All, ok, err, Error, inl, inr,
  ◌⊎◌, Option-cases, Result-cases, ◌&&◌, ◌==◌, is_some, is_ok,
}
use bonapp.Database.{Prisma, Store, Shift, Tenant, is_open, update_many, count, All-update_many_set}
use bonapp.Staff.Shifts.{
  Register, Pending, is_open_shift, is_unfiscalized, started_at, begin_close_tx, finish_close_tx,
  conclude, close, of_shift, confirm,
}

-- The command was sent for the shift with this id.
abbrev pub IsStarted : ℕ → ℕ → Shift → Type 0
IsStarted id t sh = (of_shift id t sh ≡ false) ⊎ (is_some sh.skno_close_started_at ≡ true)

module _ (db : Prisma) (register : Register) (t : ℕ) where
  abbrev found_shift : Store → Option Shift
  found_shift s = db.find_first (is_open_shift t) s.shifts

  begin_close_tx-marks :
      (now : ℕ) (p : Pending) (s : Store) (sh : Shift)
      → found_shift s ≡ some sh
      → (begin_close_tx db register t now s).0 ≡ ok p
      → p.started ≡ true
      → (p.shift ≡ sh)
        × ((begin_close_tx db register t now s).1.shifts
            ≡ update_many (of_shift sh.id t) (started_at now) s.shifts)
  unfolding begin_close_tx
  begin_close_tx-marks now p s sh found done started = ground arith

  begin_close_tx-missing :
      (now : ℕ) (s : Store)
      → found_shift s ≡ none
      → begin_close_tx db register t now s ≡ (err Error.not_found, s)
  unfolding begin_close_tx
  begin_close_tx-missing now s missing = rw missing refl

  begin_close_tx-IsStarted :
      (now : ℕ) (p : Pending) (s : Store)
      → (begin_close_tx db register t now s).0 ≡ ok p
      → p.started ≡ true
      → All (IsStarted p.shift.id t) (begin_close_tx db register t now s).1.shifts
  begin_close_tx-IsStarted now p s done started = elim (Option-cases (found_shift s)) [
    | inl missing ↦ absurd (ground (arith, begin_close_tx-missing now s missing))
    | inr (sh, found) ↦
        let (same, marked) = begin_close_tx-marks now p s sh found done started in
        rw marked (
          subst
            (λ (r : Shift).
              All (IsStarted r.id t) (update_many (of_shift sh.id t) (started_at now) s.shifts))
            (sym same)
            (All-update_many_set (λ r. is_some r.skno_close_started_at ≡ true) (of_shift sh.id t)
              (started_at now) s.shifts (λ r e. refl)))
  ]

  second :
      (sh : Shift) (id : ℕ)
      → is_open_shift t sh ≡ true
      → sh.id ≡ id
      → IsStarted id t sh
      → is_some sh.skno_close_started_at ≡ true
  second sh id own same g = ground arith

  begin_close_tx-started :
      (later id : ℕ) (p : Pending) (s : Store)
      → All (IsStarted id t) s.shifts
      → (begin_close_tx db register t later s).0 ≡ ok p
      → p.shift.id ≡ id
      → p.started ≡ false
  unfolding begin_close_tx
  begin_close_tx-started later id p s h done same = elim (Option-cases (found_shift s)) [
    | inl missing ↦ absurd (ground arith)
    | inr (sh, found) ↦ ground (
      arith,
      second sh id (db.find_first_matches (is_open_shift t) s.shifts sh found),
      db.find_first_listed (IsStarted id t) (is_open_shift t) s.shifts sh found h,
    )
  ]

  begin_close_tx-unresolved :
      (now : ℕ) (sh : Shift) (s : Store)
      → found_shift s ≡ some sh
      → (count (is_unfiscalized t sh.opened_at now s.orders) s.payments == 0) ≡ false
      → (begin_close_tx db register t now s) ≡ (err Error.conflict, s)
  unfolding begin_close_tx
  begin_close_tx-unresolved now sh s found h = rw (found, h) refl

  -- Each row of the restaurant has the daily number 0.
  abbrev HasRestarted : Tenant → Type 0
  HasRestarted r = ((r.id == t) ≡ false) ⊎ (r.daily_order_number ≡ 0)

  finish_close_tx-tenants :
      (id later z : ℕ) (s : Store)
      → is_ok (finish_close_tx db register t id later z s).0 ≡ true
      → (finish_close_tx db register t id later z s).1.tenants
        ≡ update_many (λ r. r.id == t) (λ r. record r { daily_order_number = 0 }) s.tenants
  unfolding finish_close_tx
  finish_close_tx-tenants id later z s h =
      elim (Option-cases
        (db.find_first (λ (sh : Shift). of_shift id t sh && is_open sh.status) s.shifts)) [
          | inl missing ↦ absurd (ground arith)
          | inr (sh, found) ↦ ground arith
        ]

  finish_close_tx-restarts :
      (id later z : ℕ) (s : Store)
      → is_ok (finish_close_tx db register t id later z s).0 ≡ true
      → All HasRestarted (finish_close_tx db register t id later z s).1.tenants
  finish_close_tx-restarts id later z s h = rw (finish_close_tx-tenants id later z s h) (
      All-update_many_set (λ r. r.daily_order_number ≡ 0) (λ r. r.id == t)
        (λ r. record r { daily_order_number = 0 }) s.tenants (λ r e. refl))

  conclude-restarts :
      (later : ℕ) (p : Pending) (s : Store)
      → is_ok (conclude db register t later p s).0 ≡ true
      → All HasRestarted (conclude db register t later p s).1.tenants
  unfolding conclude
  conclude-restarts later p s h = elim (Result-cases (confirm db register p)) [
    | inr (e, failed) ↦ absurd (ground arith)
    | inl (none, asked) ↦ absurd (ground arith)
    | inl (some z, asked) ↦ ground (arith, finish_close_tx-restarts p.shift.id later z s)
  ]

-- When the first transaction of a closing has decided to send the command to the cash register, and
-- the next one, at any later moment, is for the same shift, that closing only asks the register for
-- the report.
pub begin_close_tx-begin_close_tx :
    (db : Prisma) (register : Register) (t now later : ℕ) (p p' : Pending) (s : Store)
    → (begin_close_tx db register t now s).0 ≡ ok p
    → p.started ≡ true
    → (begin_close_tx db register t later (begin_close_tx db register t now s).1).0 ≡ ok p'
    → p'.shift.id ≡ p.shift.id
    → confirm db register p' ≡ register.reconcile_close (or_else p'.shift.skno_start_z 0)
unfolding confirm
begin_close_tx-begin_close_tx db register t now later p p' s done started again same =
    rw
      (begin_close_tx-started db register t later p.shift.id p'
        (begin_close_tx db register t now s).1
        (begin_close_tx-IsStarted db register t now p s done started) again same)
      refl

-- A closing while a settled payment of the shift has no receipt fails and leaves the store as it was.
pub close-unresolved :
    (db : Prisma) (register : Register) (t now later : ℕ) (sh : Shift) (s : Store)
    → db.find_first (is_open_shift t) s.shifts ≡ some sh
    → (count (is_unfiscalized t sh.opened_at now s.orders) s.payments == 0) ≡ false
    → (is_ok (close db register t now later s).0 ≡ false)
      × ((close db register t now later s).1 ≡ s)
unfolding close
close-unresolved db register t now later sh s found h =
    ground (arith, begin_close_tx-unresolved db register t now sh s found h)

-- After a closing that succeeds the restaurant's order numbers start again: each row with its id has
-- the daily number 0.
pub close-restarts :
    (db : Prisma) (register : Register) (t now later : ℕ) (s : Store)
    → is_ok (close db register t now later s).0 ≡ true
    → All
        (λ (r : Tenant). ((r.id == t) ≡ false) ⊎ (r.daily_order_number ≡ 0))
        (close db register t now later s).1.tenants
unfolding close
close-restarts db register t now later s h =
    elim (Result-cases (begin_close_tx db register t now s).0) [
      | inr (e, failed) ↦ absurd (ground arith)
      | inl (p, begun) ↦
          ground
            (arith, conclude-restarts db register t later p (begin_close_tx db register t now s).1)
    ]
