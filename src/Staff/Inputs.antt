-- ===== src/Staff/Inputs.antt =====
-- The body of a request to create or change a member of the staff, and its checks in `StaffService`
-- (apps/api/src/staff/staff.service.ts). Texts are lists of codes; bcrypt's hash is an argument.
use bonapp.Base.{
  ℕ, Bool, true, false, Option, none, some, List, [], ◌∷◌, if◌then◌else◌, ◌==◌, ◌&&◌, ◌||◌, not,
  any, all, length, is_empty, Result, ok, err, Error, codes, same_codes, split, to_lower,
  is_decimal,
}
use bonapp.Database.{UserRole}
use bonapp.Menu.Names.{is_white, trim}

-- A property of the body of a request. The last one is a number, an array or an object, with the
-- text that `String` makes of it.
pub data InputValue : Type 0 where
  absent null : InputValue
  boolean : Bool → InputValue
  text other : List ℕ → InputValue

-- `StaffInput`, before it is checked
pub record StaffInput : Type 0 where
  pub full_name : InputValue
  pub email : InputValue
  pub phone : InputValue
  pub role : InputValue
  pub pin_code : InputValue
  pub is_active : InputValue

-- a dot that is not the last character
abbrev pub dot_inside : List ℕ → Bool
dot_inside [] = false
dot_inside (c ∷ []) = false
dot_inside (c ∷ d ∷ s) = c == b'.' || dot_inside (d ∷ s)

-- `[^\s@]+@[^\s@]+\.[^\s@]+`
abbrev pub is_email_parts : List (List ℕ) → Bool
is_email_parts ((c ∷ name) ∷ ((d ∷ domain) ∷ [])) = dot_inside domain
is_email_parts _ = false

abbrev pub is_email : List ℕ → Bool
is_email s = not (any is_white s) && is_email_parts (split b'@' s)

-- `^\d{4}$`
abbrev pub is_pin : List ℕ → Bool
is_pin s = length s == 4 && all is_decimal s

abbrev pub valid_if : {A : Type 0} → Bool → A → Result A
valid_if true a = ok a
valid_if false _ = err Error.bad_request

abbrev pub read_name : InputValue → Result (List ℕ)
read_name (InputValue.text s) = valid_if (not (is_empty (trim s))) (trim s)
read_name _ = err Error.bad_request

abbrev pub read_email : InputValue → Result (List ℕ)
read_email (InputValue.text s) = valid_if (is_email s) (to_lower (trim s))
read_email _ = err Error.bad_request

-- `phone?.trim() || null`
abbrev pub read_phone : InputValue → Result (Option (List ℕ))
read_phone InputValue.absent = ok none
read_phone InputValue.null = ok none
read_phone (InputValue.text s) = ok (if is_empty (trim s) then none else some (trim s))
read_phone _ = err Error.bad_request

-- `validateRole`
abbrev pub read_role : InputValue → Result UserRole
read_role (InputValue.text s) =
    if same_codes s (codes "CASHIER")
    then ok UserRole.cashier
    else if same_codes s (codes "WAITER")
    then ok UserRole.waiter
    else valid_if (same_codes s (codes "MANAGER")) UserRole.manager
read_role _ = err Error.bad_request

abbrev pub read_active : InputValue → Result Bool
read_active (InputValue.boolean b) = ok b
read_active _ = err Error.bad_request

abbrev pub read_pin : (List ℕ → ℕ) → InputValue → Result ℕ
read_pin hash (InputValue.text s) = valid_if (is_pin s) (hash s)
read_pin hash _ = err Error.bad_request

-- `update` tests the text of any value; bcrypt then throws for what is no text.
abbrev pub read_new_pin : (List ℕ → ℕ) → InputValue → Result ℕ
read_new_pin hash (InputValue.text s) = valid_if (is_pin s) (hash s)
read_new_pin hash (InputValue.other s) = err (if is_pin s then Error.failure else Error.bad_request)
read_new_pin hash _ = err Error.bad_request

abbrev pub if_present : {A : Type 0} → (InputValue → Result A) → InputValue → Result (Option A)
if_present read InputValue.absent = ok none
if_present read v = elim (read v) [ ok a ↦ ok (some a) | err e ↦ err e ]
