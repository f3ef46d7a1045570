-- ===== src/Staff/Roster/Roles.antt =====
-- The role that a request asks for.
use bonapp.Base.{
  Result, ℕ, ◌≡◌, Bool, true, Option, some, List, arith, ok, err, Result-cases, inl, inr,
}
use bonapp.Database.{Prisma, UserRole}
use bonapp.Staff.Members.{is_member_role}
use bonapp.Staff.Inputs.{
  InputValue, StaffInput, read_name, read_email, read_phone, read_role, read_active, read_pin,
  read_new_pin, if_present,
}
use bonapp.Staff.Roster.{Member, Changes, read_changes, read_member, changes, new_member}

pub read_role-member :
    (v : InputValue) (role : UserRole) → read_role v ≡ ok role → is_member_role role ≡ true
read_role-member v role h = ground arith

module _ (db : Prisma) (hash : List ℕ → ℕ) where
  -- The role that a request asks for is one of the staff, and reading it changes nothing.
  pub present_role-member :
      (v : InputValue) (o : Option UserRole) (role : UserRole)
      → if_present read_role v ≡ ok o
      → o ≡ some role
      → is_member_role role ≡ true
  present_role-member InputValue.absent o role h e = absurd (ground arith)
  present_role-member InputValue.null o role h e = absurd (ground arith)
  present_role-member (InputValue.boolean b) o role h e = absurd (ground arith)
  present_role-member (InputValue.other s) o role h e = absurd (ground arith)
  present_role-member (InputValue.text s) o role h e =
      elim (Result-cases (read_role (InputValue.text s))) [
        | inl (r, read) ↦ ground (arith, read_role-member (InputValue.text s) r read)
        | inr (x, failed) ↦ absurd (ground arith)
      ]

  changes-role :
      (n e : Result (Option (List ℕ))) (p : Result (Option (Option (List ℕ))))
      (r : Result (Option UserRole)) (a : Result (Option Bool)) (h : Result (Option ℕ))
      (rows : List Member) (d : Changes)
      → (changes n e p r a h rows).0 ≡ ok d
      → r ≡ ok d.new_role
  changes-role (err _) e p r a h rows d k = absurd (ground arith)
  changes-role (ok _) (err _) p r a h rows d k = absurd (ground arith)
  changes-role (ok _) (ok _) (err _) r a h rows d k = absurd (ground arith)
  changes-role (ok _) (ok _) (ok _) (err _) a h rows d k = absurd (ground arith)
  changes-role (ok _) (ok _) (ok _) (ok _) (err _) h rows d k = absurd (ground arith)
  changes-role (ok _) (ok _) (ok _) (ok _) (ok _) (err _) rows d k = absurd (ground arith)
  changes-role (ok _) (ok _) (ok _) (ok _) (ok _) (ok _) rows d k = ground arith

  new_member-role :
      (tenant new_id password : ℕ) (n e : Result (List ℕ)) (p : Result (Option (List ℕ)))
      (a : Result (Option Bool)) (h : Result ℕ) (r : Result UserRole) (rows : List Member)
      (m : Member)
      → (new_member tenant new_id password n e p a h r rows).0 ≡ ok m
      → (r ≡ ok m.role) × (m.tenant_id ≡ tenant)
  new_member-role t k w (err _) e p a h r rows m given = absurd (ground arith)
  new_member-role t k w (ok _) (err _) p a h r rows m given = absurd (ground arith)
  new_member-role t k w (ok _) (ok _) (err _) a h r rows m given = absurd (ground arith)
  new_member-role t k w (ok _) (ok _) (ok _) (err _) h r rows m given = absurd (ground arith)
  new_member-role t k w (ok _) (ok _) (ok _) (ok _) (err _) r rows m given = absurd (ground arith)
  new_member-role t k w (ok _) (ok _) (ok _) (ok _) (ok _) (err _) rows m given =
      absurd (ground arith)
  new_member-role t k w (ok _) (ok _) (ok _) (ok _) (ok _) (ok _) rows m given = ground arith

  pub read_changes-role :
      (input : StaffInput) (rows : List Member) (d : Changes)
      → (read_changes db hash input rows).0 ≡ ok d
      → if_present read_role input.role ≡ ok d.new_role
  unfolding read_changes
  read_changes-role input rows d h =
      changes-role (if_present read_name input.full_name) (if_present read_email input.email)
        (if_present read_phone input.phone) (if_present read_role input.role)
        (if_present read_active input.is_active) (if_present (read_new_pin hash) input.pin_code)
        rows d h

  pub read_member-role :
      (tenant new_id password : ℕ) (input : StaffInput) (rows : List Member) (m : Member)
      → (read_member db hash tenant new_id password input rows).0 ≡ ok m
      → (read_role input.role ≡ ok m.role) × (m.tenant_id ≡ tenant)
  unfolding read_member
  read_member-role tenant new_id password input rows m h =
      new_member-role tenant new_id password (read_name input.full_name) (read_email input.email)
        (read_phone input.phone) (if_present read_active input.is_active)
        (read_pin hash input.pin_code) (read_role input.role) rows m h

  pub read_member-rows :
      (tenant new_id password : ℕ) (input : StaffInput) (rows : List Member)
      → (read_member db hash tenant new_id password input rows).1 ≡ rows
  unfolding read_member
  read_member-rows tenant new_id password input rows = ground arith

  pub read_changes-rows :
      (input : StaffInput) (rows : List Member) → (read_changes db hash input rows).1 ≡ rows
  unfolding read_changes
  read_changes-rows input rows = ground arith
