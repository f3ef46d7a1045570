-- ===== src/Database/Tables.antt =====
-- The rows of the tables, and the whole store. Ids, tokens and other texts that the code only
-- compares are numbers; amounts are whole kopecks; moments are milliseconds.
use bonapp.Base.{ℕ, Bool, Option, List}
use bonapp.Database.Enums.{
  OrderStatus, TableStatus, ServiceMode, PaymentStatus, FiscalizationStatus, Provider, UserRole,
  ShiftStatus,
}

pub record OrderItem : Type 0 where
  pub id : ℕ
  pub item_id : ℕ
  pub quantity : ℕ
  pub unit_price_byn : ℕ
  pub selected_modifiers : List ℕ
  pub status : OrderStatus
  pub kitchen_department : ℕ

-- The items of an order stand in its row: the code reads them by `include: { items: true }`.
pub record Order : Type 0 where
  pub id : ℕ
  pub tenant_id : ℕ
  pub table_id : ℕ
  pub daily_order_number : ℕ
  pub status : OrderStatus
  pub guest_session_id : Option ℕ
  pub guest_id : Option ℕ
  pub total_amount_byn : ℕ
  pub tips_amount_byn : ℕ
  pub is_paid : Bool
  pub paid_at : Option ℕ
  pub pos_order_id : Option ℕ
  pub pos_order_submitted_at : Option ℕ
  pub created_at : ℕ
  pub items : List OrderItem

pub record Payment : Type 0 where
  pub id : ℕ
  pub tenant_id : ℕ
  pub order_id : ℕ
  pub amount_byn : ℕ
  pub tips_amount_byn : ℕ
  pub provider : Provider
  pub status : PaymentStatus
  pub provider_transaction_id : Option ℕ
  pub checkout_token : Option ℕ
  pub fiscal_receipt_number : Option ℕ
  pub fiscalization_status : FiscalizationStatus
  pub created_at : ℕ

pub record DiningArea : Type 0 where
  pub id : ℕ
  pub tenant_id : ℕ
  pub name : ℕ
  pub sort_order : ℕ

pub record DiningTable : Type 0 where
  pub id : ℕ
  pub tenant_id : ℕ
  pub area_id : ℕ
  pub table_number : ℕ
  pub label : Option ℕ
  pub seats_count : ℕ
  pub qr_token : ℕ
  pub status : TableStatus

pub record Tenant : Type 0 where
  pub id : ℕ
  pub service_mode : ServiceMode
  pub daily_order_number : ℕ
  pub daily_order_number_date : Option ℕ

pub record User : Type 0 where
  pub id : ℕ
  pub tenant_id : ℕ
  pub role : UserRole
  pub is_active : Bool
  pub kitchen_departments : List ℕ

pub record Guest : Type 0 where
  pub id : ℕ
  pub tenant_id : ℕ
  pub phone : List ℕ

-- `MenuItemModifier` of the older catalogue, and `ModifierOption`
pub record Modifier : Type 0 where
  pub id : ℕ
  pub price : ℕ
  pub is_active : Bool

pub record ModifierGroup : Type 0 where
  pub id : ℕ
  pub is_active : Bool
  pub is_required : Bool
  pub min_selection : ℕ
  pub max_selection : Option ℕ
  pub modifiers : List Modifier
  pub modifier_options : List Modifier

pub record MenuItem : Type 0 where
  pub id : ℕ
  pub tenant_id : ℕ
  pub name : ℕ
  pub price_byn : ℕ
  pub is_active : Bool
  pub is_in_stop_list : Bool
  pub is_stopped : Bool
  pub kitchen_department : Option ℕ
  pub legacy_groups : List ModifierGroup
  pub modifier_groups : List ModifierGroup

pub record Shift : Type 0 where
  pub id : ℕ
  pub tenant_id : ℕ
  pub cashier_id : ℕ
  pub status : ShiftStatus
  pub opened_at : ℕ
  pub closed_at : Option ℕ
  pub skno_start_z : Option ℕ
  pub skno_close_started_at : Option ℕ

pub record ShiftReport : Type 0 where
  pub shift_id : ℕ
  pub total_amount : ℕ
  pub order_count : ℕ
  pub z_report_number : ℕ

-- What leaves the API: messages of the gateway, and jobs put into a queue.
pub data Event : Type 0 where
  order_status_changed : ℕ → OrderStatus → Event
  kitchen_order_created kitchen_order_updated : ℕ → Event
  payment_succeeded : ℕ → ℕ → Event
  order_session_closed : ℕ → ℕ → Event
  fiscalization_enqueued : ℕ → Event
  pos_order_enqueued : ℕ → Event

pub record Store : Type 0 where
  pub orders : List Order
  pub payments : List Payment
  pub areas : List DiningArea
  pub tables : List DiningTable
  pub tenants : List Tenant
  pub users : List User
  pub guests : List Guest
  pub menu_items : List MenuItem
  pub shifts : List Shift
  pub reports : List ShiftReport
  pub events : List Event
