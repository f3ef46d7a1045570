-- ===== src/Staff/Shifts.antt =====
-- `ShiftService` (apps/api/src/staff/shift.service.ts): opening and closing a shift. The cash
-- register and the reading of its credentials are parameters.
pub mod Single
pub mod Interleaved
pub mod Closing
use bonapp.Base.{
  ℕ, ◌+◌, Bool, true, false, Option, none, some, List, [], ◌∷◌, ◌++◌, if◌then◌else◌, ◌==◌, ◌&&◌,
  ◌||◌, not, leb, or_else, is_some, any, select, length, sum_by, Result, ok, err, Error, require,
  throw_if, gets, pure, modify, transaction, ◌>>=◌, ◌>>◌,
}
use bonapp.Database.{
  Prisma, Store, Order, Payment, User, UserRole, Tenant, Shift, ShiftReport, ShiftStatus, is_open,
  is_settled, is_unresolved, update_unique, count,
}

-- What the cash register answers; the credentials that it is called with are part of it.
pub record Register : Type 0 where
  pub credentials : Result (Unit {0})
  pub open_shift : Result ℕ
  pub close_shift : Result ℕ
  -- the number of a Z report after the one given, if the register has made one
  pub reconcile_close : ℕ → Result (Option ℕ)

abbrev pub is_open_shift : ℕ → Shift → Bool
is_open_shift tenant sh = sh.tenant_id == tenant && is_open sh.status

abbrev pub may_open : UserRole → Bool
may_open UserRole.cashier = true
may_open UserRole.manager = true
may_open _ = false

abbrev pub is_cashier : ℕ → ℕ → User → Bool
is_cashier tenant id u = u.id == id && (u.tenant_id == tenant && (u.is_active && may_open u.role))

abbrev pub call : {A : Type 0} → Result A → Store → Result A × Store
call r s = (r, s)

abbrev pub new_shift : ℕ → ℕ → ℕ → ℕ → ℕ → Shift
new_shift id tenant cashier now z = record {
  id = id;
  tenant_id = tenant;
  cashier_id = cashier;
  status = ShiftStatus.open_shift;
  opened_at = now;
  closed_at = none;
  skno_start_z = some z;
  skno_close_started_at = none;
}

abbrev pub of_shift : ℕ → ℕ → Shift → Bool
of_shift id tenant sh = sh.id == id && sh.tenant_id == tenant

abbrev pub update_shift : (Shift → Bool) → (Shift → Shift) → Store → Result (Unit {0}) × Store
update_shift = update_unique (λ s. s.shifts) (λ rows s. record s { shifts = rows })

abbrev pub paid_between : ℕ → ℕ → Order → Bool
paid_between from to o =
    o.is_paid && (elim o.paid_at [ none ↦ false | some at ↦ leb from at && leb at to ])

-- the payments that keep a shift open: settled, not fiscalised, for an order paid during the shift
abbrev pub is_unfiscalized : ℕ → ℕ → ℕ → List Order → Payment → Bool
is_unfiscalized tenant from to orders p =
    p.tenant_id == tenant
    && (is_settled p.status
        && (is_unresolved p.fiscalization_status
            && any
                (λ (o : Order).
                  o.id == p.order_id && (o.tenant_id == tenant && paid_between from to o))
                orders))

abbrev pub created_between : ℕ → ℕ → ℕ → Order → Bool
created_between tenant from to o =
    o.tenant_id == tenant && (leb from o.created_at && leb o.created_at to)

abbrev pub closed_at : ℕ → Shift → Shift
closed_at now sh = record sh { status = ShiftStatus.closed_shift; closed_at = some now }

abbrev pub started_at : ℕ → Shift → Shift
started_at now sh = record sh { skno_close_started_at = some now }

-- the sum and the number of the orders that were created during the shift
abbrev pub new_report : ℕ → List Order → ℕ → ShiftReport
new_report shift orders z = record {
  shift_id = shift;
  total_amount = sum_by (λ (o : Order). o.total_amount_byn) orders;
  order_count = length orders;
  z_report_number = z;
}

pub record Pending : Type 0 where
  pub shift : Shift
  pub started : Bool

module _ (db : Prisma) (register : Register) where
  -- An opening is one step: two at once, of which the database stops one by the unique index of open
  -- shifts, and the conflict that is made of its error, are left out.
  pub open_tx : ℕ → ℕ → ℕ → ℕ → Store → Result Shift × Store
  open_tx id tenant cashier_id now = do
    active ← gets (λ s. db.find_first (is_open_shift tenant) s.shifts)
    throw_if (is_some active) Error.conflict
    cashier ←
        require (← gets (λ s. db.find_first (is_cashier tenant cashier_id) s.users)) Error.not_found
    call register.credentials
    z ← call register.open_shift
    let shift = new_shift id tenant cashier_id now z
    modify (λ s. record s { shifts = s.shifts ++ shift ∷ [] })
    pure shift

  unfoldable pub open_shift : ℕ → ℕ → ℕ → ℕ → Store → Result Shift × Store
  unfolding open_tx
  open_shift id tenant cashier_id now = transaction (open_tx id tenant cashier_id now)

  -- the first transaction of `close`: nothing unresolved, and the marker of a started command
  unfoldable pub begin_close_tx : ℕ → ℕ → Store → Result Pending × Store
  begin_close_tx tenant now = do
    shift ← require (← gets (λ s. db.find_first (is_open_shift tenant) s.shifts)) Error.not_found
    unresolved ← gets (λ s. count (is_unfiscalized tenant shift.opened_at now s.orders) s.payments)
    throw_if (not (unresolved == 0)) Error.conflict
    if is_some shift.skno_close_started_at
        then pure (record { shift = shift; started = false })
        else (do
          update_shift (of_shift shift.id tenant) (started_at now)
          pure (record { shift = shift; started = true }))

  -- the command is sent once; after that the register is only asked
  unfoldable pub confirm : Pending → Result (Option ℕ)
  confirm p =
      if p.started
      then (elim register.close_shift [ ok z ↦ ok (some z) | err e ↦ err e ])
      else register.reconcile_close (or_else p.shift.skno_start_z 0)

  -- the second transaction of `close`
  unfoldable pub finish_close_tx : ℕ → ℕ → ℕ → ℕ → Store → Result ShiftReport × Store
  finish_close_tx tenant id now z = do
    shift ←
        require
          (← gets (λ s.
            db.find_first (λ (sh : Shift). of_shift id tenant sh && is_open sh.status) s.shifts))
          Error.conflict
    orders ← gets (λ s. select (created_between tenant shift.opened_at now) s.orders)
    update_shift (of_shift shift.id tenant) (closed_at now)
    let report = new_report shift.id orders z
    modify (λ s. record s { reports = s.reports ++ report ∷ [] })
    update_unique (λ s. s.tenants) (λ rows s. record s { tenants = rows })
        (λ (t : Tenant). t.id == tenant) (λ t. record t { daily_order_number = 0 })
    pure report

  -- the part of `close` after the first transaction
  unfoldable pub conclude : ℕ → ℕ → Pending → Store → Result ShiftReport × Store
  conclude tenant later pending = do
    z ← require (← call (confirm pending)) Error.conflict
    transaction (finish_close_tx tenant pending.shift.id later z)

  -- `now` is read by the first transaction, `later` by the second
  unfoldable pub close : ℕ → ℕ → ℕ → Store → Result ShiftReport × Store
  close tenant now later = do
    call register.credentials
    pending ← transaction (begin_close_tx tenant now)
    conclude tenant later pending
