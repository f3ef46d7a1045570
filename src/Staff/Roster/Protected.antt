-- ===== src/Staff/Roster/Protected.antt =====
-- What the management of the staff does to the rows that it must leave alone.
use bonapp.Base.{
  ℕ, ◌≡◌, ◌≢◌, ◌==◌, refl, ◌∙◌, Bool, true, false, some, List, [], ◌∷◌, ◌++◌, arith, All,
  All-weaken, select, any, not, ◌&&◌, ◌||◌, ok, Result-cases, Option-cases, Bool-cases, inl, inr,
}
use bonapp.Database.{
  Prisma, UserRole, update_many, HasKeys, find_first-IsOnly, update_many-HasKeys, HasKeys-append,
}
use bonapp.Staff.Members.{is_member_role}
use bonapp.Staff.Inputs.{StaffInput}
use bonapp.Staff.Roster.{
  Member, Changes, with_changes, with_departments, of_member, is_chef, create_member, read_changes,
  read_member, has_member_email, update_member, update_kitchen_departments,
}
use bonapp.Staff.Roster.Roles.{
  read_role-member, present_role-member, read_changes-role, read_changes-rows, read_member-role,
  read_member-rows,
}

abbrev pub member_id : Member → ℕ
member_id r = r.id

-- The row is of another restaurant, or has a role that neither the staff nor the kitchen has.
abbrev pub is_protected : ℕ → Member → Bool
is_protected t r = not (r.tenant_id == t) || not (is_member_role r.role || is_chef r.role)

-- The ids are unique, and the protected rows are these.
pub record IsConfined (t : ℕ) (owners rows : List Member) : Type 0 where
  pub keys : HasKeys member_id rows
  pub same : select (is_protected t) rows ≡ owners

select-append :
    (tenant : ℕ) (rows : List Member) (r : Member)
    → is_protected tenant r ≡ false
    → select (is_protected tenant) (rows ++ r ∷ []) ≡ select (is_protected tenant) rows
select-append tenant [] r h = ground arith
select-append tenant (x ∷ rows) r h = ground (arith, select-append tenant rows r h)

fresh-ids :
    (rows : List Member) (k : ℕ)
    → any (λ (x : Member). x.id == k) rows ≡ false
    → All (λ x. member_id x ≢ k) rows
fresh-ids [] k h = tt
fresh-ids (x ∷ rows) k h = ((λ e. absurd (ground arith)), fresh-ids rows k (ground arith))

free-ids :
    (tenant : ℕ) (m : Member) (rows : List Member)
    → any (λ (r : Member). r.id == m.id || has_member_email tenant m.email r) rows ≡ false
    → any (λ (r : Member). r.id == m.id) rows ≡ false
free-ids tenant m [] h = refl
free-ids tenant m (x ∷ rows) h = ground (arith, free-ids tenant m rows)

select-update_many :
    (tenant : ℕ) (filter : Member → Bool) (data' : Member → Member) (rows : List Member)
    → All
        (λ r.
          filter r ≡ true
          → (is_protected tenant r ≡ false) × (is_protected tenant (data' r) ≡ false))
        rows
    → select (is_protected tenant) (update_many filter data' rows)
      ≡ select (is_protected tenant) rows
unfolding update_many
select-update_many tenant filter data' [] h = refl
select-update_many tenant filter data' (r ∷ rows) h =
    ground (arith, h.0, select-update_many tenant filter data' rows h.1)

-- A row that is not protected before or after is changed.
updated-IsConfined :
    (db : Prisma) (tenant id : ℕ) (test : UserRole → Bool) (data' : Member → Member)
    (owners rows : List Member) (f : Member)
    → db.find_first (λ (r : Member). of_member tenant id r && test r.role) rows ≡ some f
    → ((r : Member) → member_id (data' r) ≡ member_id r)
    → is_protected tenant f ≡ false
    → is_protected tenant (data' f) ≡ false
    → IsConfined tenant owners rows
    → IsConfined tenant owners (update_many (of_member tenant id) data' rows)
updated-IsConfined db tenant id test data' owners rows f found same before after h =
    let fits =
      db.find_first_matches (λ (r : Member). of_member tenant id r && test r.role) rows f found in
    record {
      keys = update_many-HasKeys member_id (of_member tenant id) data' same rows h.keys;
      same =
          select-update_many tenant (of_member tenant id) data' rows (
            All-weaken (λ x. member_id x ≡ member_id f → x ≡ f)
              (λ r.
                of_member tenant id r ≡ true
                → (is_protected tenant r ≡ false) × (is_protected tenant (data' r) ≡ false))
              rows (λ r only e. rw (only (ground arith)) (before, after))
              (find_first-IsOnly member_id db (λ (r : Member). of_member tenant id r && test r.role)
                rows f h.keys found))
          ∙ h.same;
    }

module _ (db : Prisma) (hash : List ℕ → ℕ) where
  pub departments-IsConfined :
      (tenant id : ℕ) (departments : List (List ℕ)) (owners rows : List Member)
      → IsConfined tenant owners rows
      → IsConfined tenant owners (update_kitchen_departments db hash tenant id departments rows).1
  unfolding update_kitchen_departments
  departments-IsConfined tenant id departments owners rows h =
      elim (Option-cases
        (db.find_first (λ (r : Member). of_member tenant id r && is_chef r.role) rows)) [
          | inl missing ↦ ground arith
          | inr (f, found) ↦
              let fits =
                db.find_first_matches (λ (r : Member). of_member tenant id r && is_chef r.role) rows
                  f found in
              let new =
                updated-IsConfined db tenant id is_chef (with_departments departments) owners rows f
                  found (λ r. refl) (ground arith) (ground arith) h in
              ground arith
        ]

  read_member-unprotected :
      (tenant new_id password : ℕ) (input : StaffInput) (rows : List Member) (m : Member)
      → (read_member db hash tenant new_id password input rows).0 ≡ ok m
      → is_protected tenant m ≡ false
  read_member-unprotected tenant new_id password input rows m h =
      let (role, own) = read_member-role db hash tenant new_id password input rows m h in
      ground (arith, read_role-member input.role m.role role)

  with_changes-unprotected :
      (tenant : ℕ) (input : StaffInput) (rows : List Member) (d : Changes) (f : Member)
      → (read_changes db hash input rows).0 ≡ ok d
      → is_member_role f.role ≡ true
      → f.tenant_id ≡ tenant
      → is_protected tenant (with_changes d f) ≡ false
  unfolding with_changes
  with_changes-unprotected tenant input rows d f h member own = elim (Option-cases d.new_role) [
    | inl same ↦ ground arith
    | inr (role, new) ↦ ground (
      arith,
      present_role-member db hash input.role d.new_role role
          (read_changes-role db hash input rows d h) new,
    )
  ]

  pub update-IsConfined :
      (tenant id : ℕ) (input : StaffInput) (owners rows : List Member)
      → IsConfined tenant owners rows
      → IsConfined tenant owners (update_member db hash tenant id input rows).1
  unfolding update_member
  update-IsConfined tenant id input owners rows h =
      let unread = read_changes-rows db hash input rows in
      elim (Result-cases (read_changes db hash input rows).0) [
        | inr (e, failed) ↦ ground arith
        | inl (d, read) ↦
            elim (Option-cases (
              db.find_first (λ (r : Member). of_member tenant id r && is_member_role r.role)
                rows)) [
                  | inl missing ↦ ground arith
                  | inr (f, found) ↦
                      let fits =
                        db.find_first_matches
                          (λ (r : Member). of_member tenant id r && is_member_role r.role) rows f
                          found in
                      let new =
                        updated-IsConfined db tenant id is_member_role (with_changes d) owners rows
                          f found (λ r. unfold with_changes in refl) (ground arith)
                          (with_changes-unprotected tenant input rows d f read (ground arith)
                            (ground arith))
                          h in
                      ground arith
                ]
      ]

  pub create-IsConfined :
      (tenant new_id password : ℕ) (input : StaffInput) (owners rows : List Member)
      → IsConfined tenant owners rows
      → IsConfined tenant owners (create_member db hash tenant new_id password input rows).1
  unfolding create_member
  create-IsConfined tenant new_id password input owners rows h =
      let unread = read_member-rows db hash tenant new_id password input rows in
      elim (Result-cases (read_member db hash tenant new_id password input rows).0) [
        | inr (e, failed) ↦ ground arith
        | inl (m, read) ↦
            elim (Bool-cases
              (any (λ (r : Member). r.id == m.id || has_member_email tenant m.email r) rows)) [
                | inl taken ↦ ground arith
                | inr free ↦
                    let new : IsConfined tenant owners (rows ++ m ∷ []) = record {
                      keys =
                          HasKeys-append member_id rows m h.keys
                            (fresh-ids rows m.id (free-ids tenant m rows free));
                      same =
                          select-append tenant rows m
                            (read_member-unprotected tenant new_id password input rows m read)
                          ∙ h.same;
                    } in
                    ground arith
              ]
      ]
