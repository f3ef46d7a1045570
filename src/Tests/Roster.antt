-- ===== src/Tests/Roster.antt =====
-- Runs of the management of the staff.
use bonapp.Base.{ℕ, ◌≡◌, refl, true, none, List, [], ◌∷◌, arith, select, codes, length, err, Error}
use bonapp.Database.{UserRole}
use bonapp.Database.Instance.{first_row}
use bonapp.Menu.Names.{trim}
use bonapp.Staff.Inputs.{InputValue, StaffInput}
use bonapp.Staff.Roster.{Member, create_member, update_member}
use bonapp.Staff.Roster.Protected.{is_protected, IsConfined}
use bonapp.Staff.Roster.Confined.{Request, serve_all, serve_all-IsConfined}

abbrev member : ℕ → UserRole → Member
member id role = record {
  id = id;
  tenant_id = 1;
  full_name = codes "Ann";
  email = codes "a@b.by";
  phone = none;
  role = role;
  pin_hash = none;
  password_hash = 0;
  is_active = true;
  kitchen_departments = [];
}

abbrev input : StaffInput
input = record {
  full_name = InputValue.text (codes " Eve ");
  email = InputValue.text (codes "Eve@b.by");
  phone = InputValue.null;
  role = InputValue.text (codes "MANAGER");
  pin_code = InputValue.text (codes "0123");
  is_active = InputValue.absent;
}

abbrev roster : List Member
roster = member 1 UserRole.owner ∷ (member 2 UserRole.chef ∷ [])

-- An owner cannot be changed, and nobody is made one.
owner_kept : update_member first_row length 1 1 input roster ≡ (err Error.not_found, roster)
unfolding update_member trim
owner_kept = refl

owner_refused :
    create_member first_row length 1 3 9
      (record input { role = InputValue.text (codes "OWNER") })
      roster
    ≡ (err Error.bad_request, roster)
unfolding create_member trim
owner_refused = refl

abbrev requests : List Request
requests =
    Request.create_staff 3 9 input
    ∷ (Request.update_staff 3 input ∷ (Request.set_departments 2 (codes "HOT" ∷ []) ∷ []))

serve_all-IsConfined_example :
    IsConfined 1 (select (is_protected 1) roster) (serve_all first_row length 1 requests roster)
serve_all-IsConfined_example =
    serve_all-IsConfined first_row length 1 requests roster (((ground arith), tt), (tt, tt))
