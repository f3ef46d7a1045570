-- ===== src/Menu/Admin/Inactive.antt =====
-- A group that was taken from the menu.
use bonapp.Base.{
  ℕ, ◌≡◌, refl, true, false, arith, err, is_ok, All, ◌⊎◌, inl, inr, Option-cases, ◌&&◌, Error,
}
use bonapp.Database.{Prisma, update_many, All-update_many_set}
use bonapp.Menu.Rows.{Group, MenuStore, of_group}
use bonapp.Menu.Admin.{
  CreateModifierOptionData, deactivate_modifier_group, create_modifier_option, deactivated_group,
}

module _ (db : Prisma) (tenant group : ℕ) where
  -- Another group, or one that is not active.
  abbrev pub IsClosed : Group → Type 0
  IsClosed g = (of_group tenant group g ≡ false) ⊎ (g.is_active ≡ false)

  deactivate_modifier_group-groups :
      (s : MenuStore)
      → is_ok (deactivate_modifier_group db tenant group s).0 ≡ true
      → (deactivate_modifier_group db tenant group s).1.groups
        ≡ update_many (of_group tenant group) deactivated_group s.groups
  unfolding deactivate_modifier_group
  deactivate_modifier_group-groups s h = ground arith

  IsClosed-open : (g : Group) → IsClosed g → (of_group tenant group g && g.is_active) ≡ true → ⊥
  IsClosed-open g (inl other) h = ground arith
  IsClosed-open g (inr closed) h = ground arith

  create_modifier_option-IsClosed :
      (new_id : ℕ) (dto : CreateModifierOptionData) (s : MenuStore)
      → All IsClosed s.groups
      → create_modifier_option db new_id tenant group dto s ≡ (err Error.not_found, s)
  unfolding create_modifier_option
  create_modifier_option-IsClosed new_id dto s closed =
      elim (Option-cases
        (db.find_first (λ (g : Group). of_group tenant group g && g.is_active) s.groups)) [
          | inl missing ↦ ground arith
          | inr (g, found) ↦ absurd (
              IsClosed-open g
                (db.find_first_listed IsClosed
                  (λ (g : Group). of_group tenant group g && g.is_active) s.groups g found closed)
                (db.find_first_matches (λ (g : Group). of_group tenant group g && g.is_active)
                  s.groups g found))
        ]

  -- Once a group has been taken from the menu, every row with its id is inactive, and a new option
  -- for it is refused as not found, with nothing changed.
  pub deactivate_modifier_group-create_modifier_option :
      (new_id : ℕ) (dto : CreateModifierOptionData) (s : MenuStore)
      → is_ok (deactivate_modifier_group db tenant group s).0 ≡ true
      → All IsClosed (deactivate_modifier_group db tenant group s).1.groups
        × (create_modifier_option db new_id tenant group dto
              (deactivate_modifier_group db tenant group s).1
            ≡ (err Error.not_found, (deactivate_modifier_group db tenant group s).1))
  deactivate_modifier_group-create_modifier_option new_id dto s h =
      let closed : All IsClosed (deactivate_modifier_group db tenant group s).1.groups =
        rw (deactivate_modifier_group-groups s h) (
          All-update_many_set (λ (g : Group). g.is_active ≡ false) (of_group tenant group)
            deactivated_group s.groups (λ g fits. refl)) in
      (
        closed,
        create_modifier_option-IsClosed new_id dto (deactivate_modifier_group db tenant group s).1
            closed,
      )
