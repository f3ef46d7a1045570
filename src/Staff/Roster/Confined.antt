-- ===== src/Staff/Roster/Confined.antt =====
-- That the management of the staff leaves owners and administrators alone.
use bonapp.Base.{ℕ, refl, List, [], ◌∷◌, select}
use bonapp.Database.{Prisma, HasKeys}
use bonapp.Staff.Inputs.{StaffInput}
use bonapp.Staff.Roster.{
  StaffInput, Member, create_member, update_member, update_kitchen_departments,
}
use bonapp.Staff.Roster.Protected.{
  member_id, is_protected, IsConfined, create-IsConfined, update-IsConfined, departments-IsConfined,
}

-- What the managers of a restaurant ask for.
pub data Request : Type 0 where
  create_staff : ℕ → ℕ → StaffInput → Request
  update_staff : ℕ → StaffInput → Request
  set_departments : ℕ → List (List ℕ) → Request

module _ (db : Prisma) (hash : List ℕ → ℕ) (tenant : ℕ) where
  abbrev pub serve : Request → List Member → List Member
  serve (Request.create_staff new_id password input) rows =
      (create_member db hash tenant new_id password input rows).1
  serve (Request.update_staff id input) rows = (update_member db hash tenant id input rows).1
  serve (Request.set_departments id departments) rows =
      (update_kitchen_departments db hash tenant id departments rows).1

  pub serve_all : List Request → List Member → List Member
  serve_all [] rows = rows
  serve_all (r ∷ requests) rows = serve_all requests (serve r rows)

  serve-IsConfined :
      (r : Request) (owners rows : List Member)
      → IsConfined tenant owners rows
      → IsConfined tenant owners (serve r rows)
  serve-IsConfined (Request.create_staff new_id password input) owners rows h =
      create-IsConfined db hash tenant new_id password input owners rows h
  serve-IsConfined (Request.update_staff id input) owners rows h =
      update-IsConfined db hash tenant id input owners rows h
  serve-IsConfined (Request.set_departments id departments) owners rows h =
      departments-IsConfined db hash tenant id departments owners rows h

  keeps :
      (requests : List Request) (owners rows : List Member)
      → IsConfined tenant owners rows
      → IsConfined tenant owners (serve_all requests rows)
  unfolding serve_all
  keeps [] owners rows h = h
  keeps (r ∷ requests) owners rows h =
      keeps requests owners (serve r rows) (serve-IsConfined r owners rows h)

  -- Where ids are unique, any sequence of requests of one restaurant to create, change and assign its
  -- staff keeps them unique, and leaves the accounts of every other restaurant, and its own accounts
  -- that are neither staff nor chef (owners and administrators), as they are: the same rows in the
  -- same order, none added and none promoted to such a role.
  pub serve_all-IsConfined :
      (requests : List Request) (rows : List Member)
      → HasKeys member_id rows
      → IsConfined tenant (select (is_protected tenant) rows) (serve_all requests rows)
  serve_all-IsConfined requests rows keys =
      keeps requests (select (is_protected tenant) rows) rows (record { keys = keys; same = refl })
