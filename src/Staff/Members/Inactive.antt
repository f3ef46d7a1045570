-- ===== src/Staff/Members/Inactive.antt =====
-- A member of the staff who has left.
use bonapp.Base.{
  ℕ, ◌≡◌, refl, Bool, true, false, List, [], ◌∷◌, arith, is_ok, All, ◌⊎◌, inl, inr, Option-cases,
  Bool-cases, ltb, ◌+◌,
}
use bonapp.Database.{Prisma, UserRole, update_many, All-update_many_step}
use bonapp.Auth.Cache.{Redis}
use bonapp.Auth.Accounts.{Account, AuthStore, of_account}
use bonapp.Auth.Login.{matched_users, is_staff_user, pin_matches}
use bonapp.Auth.Tokens.{Jwt, Payload}
use bonapp.Auth.Sessions.{refresh, holder, held_by}
use bonapp.Auth.Sessions.Laws.{token, payload, verify_token-token, refresh-expired}
use bonapp.Staff.Members.{deactivate, deactivated, is_member, is_member_role}

module _ (tenant id : ℕ) where
  -- A row of somebody else, or of a member of the staff.
  abbrev pub IsMember : Account → Type 0
  IsMember a = (of_account id tenant a ≡ false) ⊎ (is_member_role a.role ≡ true)

  -- A row of somebody else, or one that is not active.
  abbrev pub IsInactive : Account → Type 0
  IsInactive a = (of_account id tenant a ≡ false) ⊎ (a.is_active ≡ false)

  deactivate-accounts :
      {State : Type 0} (s : AuthStore State)
      → (deactivate tenant id s).1.accounts
        ≡ update_many (is_member tenant id) deactivated s.accounts
  unfolding deactivate
  deactivate-accounts s = ground arith

  deactivate-IsInactive :
      {State : Type 0} (s : AuthStore State)
      → All IsMember s.accounts
      → All IsInactive (deactivate tenant id s).1.accounts
  deactivate-IsInactive s members = rw (deactivate-accounts s) (
      All-update_many_step IsMember IsInactive (is_member tenant id) deactivated s.accounts
        (λ a fits h. inr refl)
        (λ a other h. elim h [ inl someone ↦ inl someone | inr member ↦ inl (ground arith) ])
        members)

  someone_else :
      (a : Account) → is_staff_user tenant a ≡ true → IsInactive a → of_account id tenant a ≡ false
  someone_else a staff (inl other) = other
  someone_else a staff (inr inactive) = absurd (ground arith)

  select-others :
      (compare : ℕ → ℕ → Bool) (pin : ℕ) (accounts : List Account)
      → All IsInactive accounts
      → All
          (λ (a : Account). of_account id tenant a ≡ false)
          (matched_users compare tenant pin accounts)
  unfolding matched_users
  select-others compare pin [] h = tt
  select-others compare pin (a ∷ accounts) h = elim (Bool-cases (is_staff_user tenant a)) [
    | inr other ↦ rw other (select-others compare pin accounts h.1)
    | inl staff ↦ elim (Bool-cases (pin_matches compare pin a.pin_hash)) [
      | inr misses ↦ rw (staff, misses) (select-others compare pin accounts h.1)
      | inl fits ↦
          rw (staff, fits) (someone_else a staff h.0, select-others compare pin accounts h.1)
    ]
  ]

  is_held-IsInactive :
      (u : Account)
      → IsInactive u
      → (p : Payload) → p.tenant_id ≡ tenant
      → p.user_id ≡ id
      → held_by p u ≡ true
      → ⊥
  is_held-IsInactive u (inl other) p t i held = ground arith
  is_held-IsInactive u (inr inactive) p t i held = ground arith

  module _ (redis : Redis) (db : Prisma) (jwt : Jwt) (secret : ℕ) (compare : ℕ → ℕ → Bool)
      (hash : ℕ → ℕ) (issued : ℕ) (role : UserRole) (version access_jti jti : ℕ) where
    refresh-IsInactive :
        (now a r : ℕ) (s : AuthStore redis.State)
        → All IsInactive s.accounts
        → is_ok
            (refresh redis db jwt secret compare hash a r now
              (token redis db jwt secret compare hash issued id tenant role version access_jti jti)
              s).0
          ≡ false
    unfolding refresh holder
    refresh-IsInactive now a r s h = elim (Bool-cases (ltb now (issued + 604800))) [
      | inr old ↦
          refresh-expired redis db jwt secret compare hash issued id tenant role version access_jti
            jti a r now s (ground arith)
      | inl soon ↦
          let p : Payload =
            payload redis db jwt secret compare hash issued id tenant role version access_jti jti in
          elim (Option-cases (db.find_first (held_by p) s.accounts)) [
            | inl missing ↦ ground (
              arith,
              verify_token-token redis db jwt secret compare hash issued id tenant role version
                  access_jti jti now,
            )
            | inr (u, found) ↦ absurd (
                is_held-IsInactive u
                  (db.find_first_listed IsInactive (held_by p) s.accounts u found h) p refl refl
                  (db.find_first_matches (held_by p) s.accounts u found))
          ]
    ]

    -- Once a cashier, a waiter or a manager has been deactivated, no PIN signs this user in, and no
    -- refresh token that was issued to the user is renewed.
    pub deactivate-refresh :
        (now a r pin : ℕ) (s : AuthStore redis.State)
        → All IsMember s.accounts
        → All
            (λ (u : Account). of_account id tenant u ≡ false)
            (matched_users compare tenant pin (deactivate tenant id s).1.accounts)
          × (is_ok
                (refresh redis db jwt secret compare hash a r now
                  (token redis db jwt secret compare hash issued id tenant role version access_jti
                    jti)
                  (deactivate tenant id s).1).0
              ≡ false)
    deactivate-refresh now a r pin s members =
        let gone : All IsInactive (deactivate tenant id s).1.accounts =
          deactivate-IsInactive s members in
        (
          select-others compare pin (deactivate tenant id s).1.accounts gone,
          refresh-IsInactive now a r (deactivate tenant id s).1 gone,
        )
