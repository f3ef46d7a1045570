-- ===== src/Database/Enums.antt =====
-- The enums of apps/api/prisma/schema.prisma, with the tests `===` on their values.
use bonapp.Base.{ℕ, Bool, true, false, ◌==◌}

pub data OrderStatus : Type 0 where
  new cooking ready served paid cancelled : OrderStatus

abbrev pub status_code : OrderStatus → ℕ
status_code OrderStatus.new = 0
status_code OrderStatus.cooking = 1
status_code OrderStatus.ready = 2
status_code OrderStatus.served = 3
status_code OrderStatus.paid = 4
status_code OrderStatus.cancelled = 5

infix 50 ◌=ₒ◌
abbrev pub ◌=ₒ◌ : OrderStatus → OrderStatus → Bool
a =ₒ b = status_code a == status_code b

pub data TableStatus : Type 0 where
  available occupied reserved closed bill_requested : TableStatus

abbrev pub is_available : TableStatus → Bool
is_available TableStatus.available = true
is_available _ = false

pub data ServiceMode : Type 0 where
  order_and_pay view_only takeaway : ServiceMode

abbrev pub is_view_only : ServiceMode → Bool
is_view_only ServiceMode.view_only = true
is_view_only _ = false

pub data PaymentStatus : Type 0 where
  pending completed succeeded failed cancelled refunded : PaymentStatus

abbrev pub is_pending : PaymentStatus → Bool
is_pending PaymentStatus.pending = true
is_pending _ = false

abbrev pub is_succeeded : PaymentStatus → Bool
is_succeeded PaymentStatus.succeeded = true
is_succeeded _ = false

-- `status: { in: [SUCCEEDED, COMPLETED] }`
abbrev pub is_settled : PaymentStatus → Bool
is_settled PaymentStatus.succeeded = true
is_settled PaymentStatus.completed = true
is_settled _ = false

pub data FiscalizationStatus : Type 0 where
  not_required pending fiscalized fiscal_failed : FiscalizationStatus

abbrev pub is_fiscal_pending : FiscalizationStatus → Bool
is_fiscal_pending FiscalizationStatus.pending = true
is_fiscal_pending _ = false

-- `fiscalizationStatus: { in: [PENDING, FISCAL_FAILED] }`
abbrev pub is_unresolved : FiscalizationStatus → Bool
is_unresolved FiscalizationStatus.pending = true
is_unresolved FiscalizationStatus.fiscal_failed = true
is_unresolved _ = false

-- The texts that `payment.provider` takes in the code.
pub data Provider : Type 0 where
  erip bepaid : Provider

abbrev pub is_erip : Provider → Bool
is_erip Provider.erip = true
is_erip Provider.bepaid = false

abbrev pub is_bepaid : Provider → Bool
is_bepaid Provider.bepaid = true
is_bepaid Provider.erip = false

pub data UserRole : Type 0 where
  super_admin owner manager waiter chef cashier admin : UserRole

-- `role === OWNER || role === MANAGER`
abbrev pub is_manager : UserRole → Bool
is_manager UserRole.owner = true
is_manager UserRole.manager = true
is_manager _ = false

pub data ShiftStatus : Type 0 where
  open_shift closed_shift : ShiftStatus

abbrev pub is_open : ShiftStatus → Bool
is_open ShiftStatus.open_shift = true
is_open ShiftStatus.closed_shift = false
