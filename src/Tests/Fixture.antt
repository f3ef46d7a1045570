-- ===== src/Tests/Fixture.antt =====
-- A restaurant with one table, one dish and one order, for the tests.
use bonapp.Base.{true, false, none, some, List, [], ◌∷◌, ok}
use bonapp.Database.{
  Store, Order, OrderItem, OrderStatus, Payment, PaymentStatus, Provider, FiscalizationStatus,
  DiningTable, TableStatus, Tenant, ServiceMode, MenuItem, ModifierGroup, Modifier, User, UserRole,
  Shift, ShiftStatus,
}
use bonapp.Orders.Create.{Supply}
use bonapp.Orders.Pricing.{RequestedItem}
use bonapp.Staff.Shifts.{Register}

abbrev pub soup : OrderItem
soup = record {
  id = 1000;
  item_id = 7;
  quantity = 2;
  unit_price_byn = 550;
  selected_modifiers = [];
  status = OrderStatus.new;
  kitchen_department = 0;
}

abbrev pub order : OrderStatus → Order
order status = record {
  id = 100;
  tenant_id = 1;
  table_id = 5;
  daily_order_number = 3;
  status = status;
  guest_session_id = none;
  guest_id = none;
  total_amount_byn = 1100;
  tips_amount_byn = 0;
  is_paid = false;
  paid_at = none;
  pos_order_id = none;
  pos_order_submitted_at = none;
  created_at = 50;
  items = soup ∷ [];
}

abbrev pub payment : Provider → PaymentStatus → Payment
payment provider status = record {
  id = 900;
  tenant_id = 1;
  order_id = 100;
  amount_byn = 1100;
  tips_amount_byn = 0;
  provider = provider;
  status = status;
  provider_transaction_id = some 77;
  checkout_token = none;
  fiscal_receipt_number = none;
  fiscalization_status = FiscalizationStatus.not_required;
  created_at = 60;
}

abbrev pub extra : Modifier
extra = record { id = 31; price = 100; is_active = true }

abbrev pub sauces : ModifierGroup
sauces = record {
  id = 30;
  is_active = true;
  is_required = true;
  min_selection = 0;
  max_selection = some 1;
  modifiers = [];
  modifier_options = extra ∷ [];
}

abbrev pub dish : MenuItem
dish = record {
  id = 7;
  tenant_id = 1;
  name = 70;
  price_byn = 450;
  is_active = true;
  is_in_stop_list = false;
  is_stopped = false;
  kitchen_department = some 2;
  legacy_groups = [];
  modifier_groups = sauces ∷ [];
}

abbrev pub table : TableStatus → DiningTable
table status = record {
  id = 5;
  tenant_id = 1;
  area_id = 4;
  table_number = 1;
  label = none;
  seats_count = 2;
  qr_token = 61;
  status = status;
}

abbrev pub tenant : Tenant
tenant = record {
  id = 1;
  service_mode = ServiceMode.order_and_pay;
  daily_order_number = 3;
  daily_order_number_date = some 20;
}

abbrev pub cashier : User
cashier = record {
  id = 40;
  tenant_id = 1;
  role = UserRole.cashier;
  is_active = true;
  kitchen_departments = [];
}

abbrev pub shift : Shift
shift = record {
  id = 60;
  tenant_id = 1;
  cashier_id = 40;
  status = ShiftStatus.open_shift;
  opened_at = 10;
  closed_at = none;
  skno_start_z = some 4;
  skno_close_started_at = none;
}

abbrev pub store : List Order → List Payment → TableStatus → List Shift → Store
store orders payments status shifts = record {
  orders = orders;
  payments = payments;
  areas = record { id = 4; tenant_id = 1; name = 1; sort_order = 0 } ∷ [];
  tables = table status ∷ [];
  tenants = tenant ∷ [];
  users = cashier ∷ [];
  guests = [];
  menu_items = dish ∷ [];
  shifts = shifts;
  reports = [];
  events = [];
}

abbrev pub with_order : OrderStatus → Store
with_order status = store (order status ∷ []) [] TableStatus.occupied []

-- an order that is served, with a payment
abbrev pub with_payment_of : Provider → PaymentStatus → Store
with_payment_of provider status =
    store (order OrderStatus.served ∷ []) (payment provider status ∷ []) TableStatus.occupied []

abbrev pub supply : Supply
supply = record { today = 20; now = 100; order_id = 101; guest_id = 201; item_id = λ n. n }

abbrev pub wish : RequestedItem
wish = record { menu_item_id = 7; quantity = 2; selected_modifiers = 31 ∷ [] }

abbrev pub register : Register
register = record {
  credentials = ok tt;
  open_shift = ok 5;
  close_shift = ok 5;
  reconcile_close = λ z. ok (some 5);
}
