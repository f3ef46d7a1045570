-- ===== src/Tenants/Blocking/Restored.antt =====
-- That a restaurant is after a block what it was before.
use bonapp.Base.{
  ℕ, ◌≡◌, refl, sym, ◌∙◌, true, false, none, some, List, arith, All, any, is_ok, Option-cases, inl,
  inr,
}
use bonapp.Database.{
  Prisma, update_many, All-update_many_step, HasKeys, find_first-IsOnly, find_first-any,
  any-update_many,
}
use bonapp.Tenants.Blocking.{
  is_blocked, PlatformTenant, Platform, of_id, blocked_row, unblocked_row, set_blocked,
}
use bonapp.Tenants.Blocking.Held.{
  Request, frees, tenant_id, Holds, IsHeld, serve_all, serve_all-IsHeld,
}

-- The restaurant is as it was, and nothing is remembered.
abbrev pub IsAsBefore : ℕ → PlatformTenant → PlatformTenant → Type 0
IsAsBefore k o r =
    r.id ≡ k
    → (r.status ≡ o.status)
      × (r.is_active ≡ o.is_active)
      × (r.status_before_block ≡ none)
      × (r.is_active_before_block ≡ none)

module _ (db : Prisma) (k : ℕ) (o : PlatformTenant) where
  same_id : (r : PlatformTenant) → of_id k (blocked_row o r) ≡ of_id k r
  unfolding blocked_row
  same_id r = refl

  own-Holds :
      (r : PlatformTenant) → is_blocked o.status ≡ false → r ≡ o → Holds k o (blocked_row o r)
  unfolding blocked_row
  own-Holds r free same i = ground arith

  matched : (r : PlatformTenant) → of_id k r ≡ true → r.id ≡ k
  matched r e = ground arith

  block-tenants :
      (s : Platform)
      → db.find_first (of_id k) s.tenants ≡ some o
      → (set_blocked db k true s).1.tenants ≡ update_many (of_id k) (blocked_row o) s.tenants
  unfolding set_blocked
  block-tenants s found = ground (arith, find_first-any db (of_id k) s.tenants o found)

  unblock-tenants :
      (s : Platform) (c : PlatformTenant)
      → db.find_first (of_id k) s.tenants ≡ some c
      → (is_ok (set_blocked db k false s).0 ≡ true)
        × ((set_blocked db k false s).1.tenants ≡ update_many (of_id k) (unblocked_row c) s.tenants)
  unfolding set_blocked
  unblock-tenants s c found = ground (arith, find_first-any db (of_id k) s.tenants c found)

  first-IsHeld :
      (s : Platform)
      → HasKeys tenant_id s.tenants
      → db.find_first (of_id k) s.tenants ≡ some o
      → is_blocked o.status ≡ false
      → IsHeld db k o (set_blocked db k true s).1.tenants
  first-IsHeld s keys found free =
      let own : of_id k o ≡ true = db.find_first_matches (of_id k) s.tenants o found in
      rw (block-tenants s found) (record {
        held =
            All-update_many_step (λ x. x.id ≡ o.id → x ≡ o) (Holds k o) (of_id k) (blocked_row o)
              s.tenants (λ r e only. own-Holds r free (only (matched r e ∙ sym (matched o own))))
              (λ r e _ i. absurd (ground arith))
              (find_first-IsOnly tenant_id db (of_id k) s.tenants o keys found);
        there =
            any-update_many (of_id k) (of_id k) (blocked_row o) s.tenants (λ r. same_id r)
            ∙ find_first-any db (of_id k) s.tenants o found;
      })

  restored :
      (c r : PlatformTenant)
      → c.status_before_block ≡ some o.status
      → c.is_active_before_block ≡ some o.is_active
      → ((unblocked_row c r).status ≡ o.status)
        × ((unblocked_row c r).is_active ≡ o.is_active)
        × ((unblocked_row c r).status_before_block ≡ none)
        × ((unblocked_row c r).is_active_before_block ≡ none)
  unfolding unblocked_row
  restored c r status active = ground arith

  -- Setting it free, from what it kept.
  unblock-IsAsBefore :
      (s : Platform)
      → IsHeld db k o s.tenants
      → (is_ok (set_blocked db k false s).0 ≡ true)
        × All (IsAsBefore k o) (set_blocked db k false s).1.tenants
  unblock-IsAsBefore s h = elim (Option-cases (db.find_first (of_id k) s.tenants)) [
    | inl missing ↦ absurd (ground (arith, db.find_first_none (of_id k) s.tenants missing, h.there))
    | inr (c, found) ↦
        let (answered, tenants) = unblock-tenants s c found in
        let kept =
          db.find_first_listed (Holds k o) (of_id k) s.tenants c found h.held
            (matched c (db.find_first_matches (of_id k) s.tenants c found)) in
        (
          answered,
          rw tenants (
              All-update_many_step (Holds k o) (IsAsBefore k o) (of_id k) (unblocked_row c)
                s.tenants (λ r _ _ _. restored c r kept.2 kept.3) (λ r e _ i. absurd (ground arith))
                h.held),
        )
  ]

  -- A restaurant that is found and not blocked, where ids are unique, is restored by a block and a later
  -- unblock: whatever requests of the administrator come in between, for this restaurant and others,
  -- of which none sets it free, the unblock succeeds, and each row with the id of the restaurant has
  -- the status and the mark of activity that the restaurant had before the block.
  pub set_blocked-set_blocked :
      (s : Platform) (between : List Request)
      → HasKeys tenant_id s.tenants
      → db.find_first (of_id k) s.tenants ≡ some o
      → is_blocked o.status ≡ false
      → any (frees k) between ≡ false
      → (is_ok (set_blocked db k false (serve_all db between (set_blocked db k true s).1)).0 ≡ true)
        × All
            (IsAsBefore k o)
            (set_blocked db k false (serve_all db between (set_blocked db k true s).1)).1.tenants
  set_blocked-set_blocked s between keys found free none_frees =
      unblock-IsAsBefore (serve_all db between (set_blocked db k true s).1) (
        serve_all-IsHeld db k o between (set_blocked db k true s).1 none_frees
          (first-IsHeld s keys found free))
