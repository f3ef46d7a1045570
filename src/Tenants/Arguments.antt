-- ===== src/Tenants/Arguments.antt =====
-- The arguments of a query of Prisma: JavaScript objects, with the fields that
-- apps/api/src/prisma/prisma.service.ts names.
use bonapp.Base.{
  arith, Bool-cases, inl, inr, ℕ, suc, ◌≡◌, refl, Bool, true, false, Option, none, some,
  if◌then◌else◌, ◌==◌,
}

pub data Field : Type 0 where
  where_field data_field create_field update_field : Field
  id_field tenant_id_field email_field tenant_id_email_field : Field
  and_field is_field order_field group_field : Field
  -- any other field, and the places of an array
  named index : ℕ → Field

abbrev pub field_code : Field → ℕ × ℕ
field_code Field.where_field = (0, 0)
field_code Field.data_field = (1, 0)
field_code Field.create_field = (2, 0)
field_code Field.update_field = (3, 0)
field_code Field.id_field = (4, 0)
field_code Field.tenant_id_field = (5, 0)
field_code Field.email_field = (6, 0)
field_code Field.tenant_id_email_field = (7, 0)
field_code Field.and_field = (8, 0)
field_code Field.is_field = (9, 0)
field_code Field.order_field = (10, 0)
field_code Field.group_field = (11, 0)
field_code (Field.named n) = (12, n)
field_code (Field.index n) = (13, n)

abbrev pub same_field : Field → Field → Bool
same_field f g =
    if (field_code f).0 == (field_code g).0 then (field_code f).1 == (field_code g).1 else false

mutual
  pub data Json : Type 0 where
    null : Json
    text : ℕ → Json
    -- a number, a truth value or a moment
    literal : ℕ → Json
    object : Members → Json
    array : Items → Json

  pub data Members : Type 0 where
    no_members : Members
    member : Field → Json → Members → Members

  pub data Items : Type 0 where
    no_items : Items
    item : Json → Items → Items

-- `o[f]`
unfoldable pub get : Field → Members → Option Json
get f Members.no_members = none
get f (Members.member g v o) = if same_field f g then some v else get f o

-- `{ ...o, [f]: v }`
unfoldable pub set : Field → Json → Members → Members
set f v Members.no_members = Members.member f v Members.no_members
set f v (Members.member g w o) =
    if same_field f g then Members.member f v o else Members.member g w (set f v o)

unfoldable pub indexed : ℕ → Items → Members
indexed n Items.no_items = Members.no_members
indexed n (Items.item v items) = Members.member (Field.index n) v (indexed (suc n) items)

-- `asRecord`
unfoldable pub as_record : Option Json → Members
unfolding indexed
as_record (some (Json.object o)) = o
as_record (some (Json.array items)) = indexed 0 items
as_record _ = Members.no_members

-- `typeof o[f] === 'string'`
abbrev pub text_of : Option Json → Option ℕ
text_of (some (Json.text t)) = some t
text_of _ = none

==_refl : (n : ℕ) → (n == n) ≡ true
==_refl n = ground arith

same_field-eq :
    (f g k : Field) → same_field g k ≡ true → same_field f g ≡ false → same_field f k ≡ false
same_field-eq f g k e h = ground arith

same_field_refl : (f : Field) → same_field f f ≡ true
same_field_refl f = ground (arith, ==_refl (field_code f).0, ==_refl (field_code f).1)

pub get-set : (f : Field) (v : Json) (o : Members) → get f (set f v o) ≡ some v
unfolding get set
get-set f v Members.no_members = rw (same_field_refl f) refl
get-set f v (Members.member g w o) = elim (Bool-cases (same_field f g)) [
  | inl e ↦ rw (e, same_field_refl f) refl
  | inr e ↦ rw (e, e) (get-set f v o)
]

pub get-set_other :
    (f g : Field) (v : Json) (o : Members) → same_field f g ≡ false → get f (set g v o) ≡ get f o
unfolding get set
get-set_other f g v Members.no_members h = rw h refl
get-set_other f g v (Members.member k w o) h = elim (Bool-cases (same_field g k)) [
  | inl e ↦ ground (arith, same_field-eq g k, h)
  | inr e ↦ rw e (elim (Bool-cases (same_field f k)) [
    | inl e' ↦ rw e' refl
    | inr e' ↦ rw e' (get-set_other f g v o h)
  ])
]

pub get-single : (f : Field) (v : Json) → get f (Members.member f v Members.no_members) ≡ some v
unfolding get
get-single f v = rw (same_field_refl f) refl
