-- ===== src/Staff/Roster.antt =====
-- `create`, `update` and `updateKitchenDepartments` of `StaffService`
-- (apps/api/src/staff/staff.service.ts), on the accounts of all restaurants. Texts are lists of codes;
-- the hashes of bcrypt, the generated id and the random password are arguments.
pub mod Roles
pub mod Protected
pub mod Confined
use bonapp.Base.{
  ℕ, ◌+◌, Bool, true, false, Option, none, some, List, [], ◌∷◌, ◌++◌, if◌then◌else◌, ◌==◌, ◌&&◌,
  ◌||◌, not, any, all, length, is_empty, is_some, or_else, Result, ok, err, Error, from_result,
  require, throw_if, gets, modify, codes, same_codes, includes_text, split, to_lower, is_decimal,
  ◌>>=◌, ◌>>◌,
}
use bonapp.Database.{Prisma, UserRole, update_many}
use bonapp.Staff.Inputs.{
  StaffInput, read_name, read_email, read_phone, read_role, read_active, read_pin, read_new_pin,
  if_present,
}
use bonapp.Staff.Members.{is_member_role}

-- A row of the table of users, with the columns that are written here.
pub record Member : Type 0 where
  pub id : ℕ
  pub tenant_id : ℕ
  pub full_name : List ℕ
  pub email : List ℕ
  pub phone : Option (List ℕ)
  pub role : UserRole
  pub pin_hash : Option ℕ
  pub password_hash : ℕ
  pub is_active : Bool
  pub kitchen_departments : List (List ℕ)

-- `data` of `update`
pub record Changes : Type 0 where
  pub new_name : Option (List ℕ)
  pub new_email : Option (List ℕ)
  pub new_phone : Option (Option (List ℕ))
  pub new_role : Option UserRole
  pub new_active : Option Bool
  pub new_pin : Option ℕ

abbrev pub is_unchanged : Changes → Bool
is_unchanged d = not (
    is_some d.new_name
    || (is_some d.new_email
        || (is_some d.new_phone
            || (is_some d.new_role || (is_some d.new_active || is_some d.new_pin)))))

unfoldable pub with_changes : Changes → Member → Member
with_changes d r = record r {
  full_name = or_else d.new_name r.full_name;
  email = or_else d.new_email r.email;
  phone = or_else d.new_phone r.phone;
  role = or_else d.new_role r.role;
  is_active = or_else d.new_active r.is_active;
  pin_hash = elim d.new_pin [ none ↦ r.pin_hash | some h ↦ some h ];
}

abbrev pub of_member : ℕ → ℕ → Member → Bool
of_member tenant id r = r.tenant_id == tenant && r.id == id

-- the unique index on the restaurant and the email
abbrev pub has_member_email : ℕ → List ℕ → Member → Bool
has_member_email tenant email r = r.tenant_id == tenant && same_codes r.email email

abbrev pub email_clashes : ℕ → ℕ → Option (List ℕ) → List Member → Bool
email_clashes tenant id none rows = false
email_clashes tenant id (some email) rows =
    any (λ r. has_member_email tenant email r && not (r.id == id)) rows

abbrev pub with_departments : List (List ℕ) → Member → Member
with_departments departments r = record r { kitchen_departments = departments }

abbrev pub is_chef : UserRole → Bool
is_chef UserRole.chef = true
is_chef _ = false

abbrev pub is_department : List ℕ → Bool
is_department s = includes_text s (codes "HOT" ∷ (codes "COLD" ∷ (codes "BAR" ∷ [])))

-- The row of `create`, from what the checks of `validate` gave.
abbrev pub new_member :
    ℕ
    → ℕ
    → ℕ
    → Result (List ℕ)
    → Result (List ℕ)
    → Result (Option (List ℕ))
    → Result (Option Bool)
    → Result ℕ
    → Result UserRole
    → List Member
    → Result Member × List Member
new_member tenant new_id password name' email' phone' active' pin' role' = do
  name ← from_result name'
  email ← from_result email'
  phone ← from_result phone'
  active ← from_result active'
  pin ← from_result pin'
  role ← from_result role'
  from_result (
      ok (record {
        id = new_id;
        tenant_id = tenant;
        full_name = name;
        email = email;
        phone = phone;
        role = role;
        pin_hash = some pin;
        password_hash = password;
        is_active = or_else active true;
        kitchen_departments = [];
      }))

-- `data` of `update`, from what the checks gave
abbrev pub changes :
    Result (Option (List ℕ))
    → Result (Option (List ℕ))
    → Result (Option (Option (List ℕ)))
    → Result (Option UserRole)
    → Result (Option Bool)
    → Result (Option ℕ)
    → List Member
    → Result Changes × List Member
changes name' email' phone' role' active' pin' = do
  name ← from_result name'
  email ← from_result email'
  phone ← from_result phone'
  role ← from_result role'
  active ← from_result active'
  pin ← from_result pin'
  from_result (
      ok (record {
        new_name = name;
        new_email = email;
        new_phone = phone;
        new_role = role;
        new_active = active;
        new_pin = pin;
      }))

module _ (db : Prisma) (hash : List ℕ → ℕ) where
  unfoldable pub read_member : ℕ → ℕ → ℕ → StaffInput → List Member → Result Member × List Member
  read_member tenant new_id password input =
      new_member tenant new_id password (read_name input.full_name) (read_email input.email)
        (read_phone input.phone) (if_present read_active input.is_active)
        (read_pin hash input.pin_code) (read_role input.role)

  unfoldable pub create_member :
      ℕ → ℕ → ℕ → StaffInput → List Member → Result (Unit {0}) × List Member
  unfolding read_member
  create_member tenant new_id password input = do
    m ← read_member tenant new_id password input
    taken ← gets (any (λ (r : Member). r.id == m.id || has_member_email tenant m.email r))
    throw_if taken Error.failure
    modify (λ rows. rows ++ m ∷ [])

  unfoldable pub read_changes : StaffInput → List Member → Result Changes × List Member
  read_changes input =
      changes (if_present read_name input.full_name) (if_present read_email input.email)
        (if_present read_phone input.phone) (if_present read_role input.role)
        (if_present read_active input.is_active) (if_present (read_new_pin hash) input.pin_code)

  unfoldable pub update_member : ℕ → ℕ → StaffInput → List Member → Result (Unit {0}) × List Member
  unfolding read_changes
  update_member tenant id input = do
    d ← read_changes input
    throw_if (is_unchanged d) Error.bad_request
    require
        (← gets (db.find_first (λ (r : Member). of_member tenant id r && is_member_role r.role)))
        Error.not_found
    clash ← gets (email_clashes tenant id d.new_email)
    throw_if clash Error.failure
    modify (update_many (of_member tenant id) (with_changes d))

  unfoldable pub update_kitchen_departments :
      ℕ → ℕ → List (List ℕ) → List Member → Result (Unit {0}) × List Member
  update_kitchen_departments tenant id departments = do
    throw_if (not (all is_department departments)) Error.bad_request
    require (← gets (db.find_first (λ (r : Member). of_member tenant id r && is_chef r.role)))
        Error.not_found
    modify (update_many (of_member tenant id) (with_departments departments))
