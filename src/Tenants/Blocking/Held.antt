-- ===== src/Tenants/Blocking/Held.antt =====
-- What the requests of the administrator keep of a restaurant that is blocked.
use bonapp.Base.{
  ℕ, ◌≡◌, refl, ◌∙◌, Bool, true, false, Option, none, some, List, [], ◌∷◌, ◌==◌, arith, All, any,
  not, Result-cases, Option-cases, inl, inr,
}
use bonapp.Database.{Prisma, update_many, All-update_many, any-update_many}
use bonapp.Tenants.Blocking.{
  TenantStatus, PlanType, PlatformTenant, Platform, TenantFields, of_id, extended, blocked_row,
  unblocked_row, with_fields, update_tenant, set_blocked, update_plan, update_tenant_fields,
  extend_trial,
}

-- The requests of the platform's administrator.
pub data Request : Type 0 where
  block unblock : ℕ → Request
  change_plan : ℕ → PlanType → Request
  change_fields : ℕ → TenantFields → Option Bool → Request
  extend : ℕ → ℕ → Request

-- It sets the restaurant free.
abbrev pub frees : ℕ → Request → Bool
frees k (Request.unblock id) = id == k
frees k (Request.change_fields id d (some true)) = id == k
frees k _ = false

abbrev pub tenant_id : PlatformTenant → ℕ
tenant_id r = r.id

-- The restaurant is blocked, and keeps what it was.
abbrev pub Holds : ℕ → PlatformTenant → PlatformTenant → Type 0
Holds k o r =
    r.id ≡ k
    → (r.status ≡ TenantStatus.blocked)
      × (r.is_active ≡ false)
      × (r.status_before_block ≡ some o.status)
      × (r.is_active_before_block ≡ some o.is_active)

module _ (db : Prisma) where
  pub serve : Request → Platform → Platform
  serve (Request.block id) s = (set_blocked db id true s).1
  serve (Request.unblock id) s = (set_blocked db id false s).1
  serve (Request.change_plan id plan) s = (update_plan db id plan s).1
  serve (Request.change_fields id d is_active) s = (update_tenant_fields db id d is_active s).1
  serve (Request.extend now id) s = (extend_trial db now id s).1

  pub serve_all : List Request → Platform → Platform
  serve_all [] s = s
  serve_all (r ∷ rs) s = serve_all rs (serve r s)

  module _ (Q : List PlatformTenant → Type 0) where
    update_tenant-keeps :
        (id : ℕ) (d : TenantFields) (s : Platform)
        → Q (update_many (of_id id) (with_fields d) s.tenants)
        → Q s.tenants
        → Q (update_tenant db id d s).1.tenants
    unfolding update_tenant
    update_tenant-keeps id d s new h = ground arith

    pub set_blocked-keeps :
        (id : ℕ) (s : Platform) (c : PlatformTenant)
        → db.find_first (of_id id) s.tenants ≡ some c
        → Q (update_many (of_id id) (blocked_row c) s.tenants)
        → Q s.tenants
        → Q (set_blocked db id true s).1.tenants
    unfolding set_blocked
    set_blocked-keeps id s c found new h = ground arith

    set_free-keeps :
        (id : ℕ) (s : Platform) (c : PlatformTenant)
        → db.find_first (of_id id) s.tenants ≡ some c
        → Q (update_many (of_id id) (unblocked_row c) s.tenants)
        → Q s.tenants
        → Q (set_blocked db id false s).1.tenants
    unfolding set_blocked
    set_free-keeps id s c found new h = ground arith

    set_blocked-missing :
        (id : ℕ) (to_block : Bool) (s : Platform)
        → db.find_first (of_id id) s.tenants ≡ none
        → Q s.tenants
        → Q (set_blocked db id to_block s).1.tenants
    unfolding set_blocked
    set_blocked-missing id to_block s missing h = ground arith

    extend_trial-keeps :
        (now id : ℕ) (s : Platform)
        → ((d : TenantFields) → Q (update_tenant db id d s).1.tenants)
        → Q s.tenants
        → Q (extend_trial db now id s).1.tenants
    unfolding extend_trial
    extend_trial-keeps now id s new h = elim (Option-cases (db.find_first (of_id id) s.tenants)) [
      | inl missing ↦ ground arith
      | inr (c, found) ↦ ground (arith, new (extended now c))
    ]

    fields-keeps :
        (id : ℕ) (d : TenantFields) (is_active : Bool) (s : Platform)
        → Q (update_tenant db id d s).1.tenants
        → Q (set_blocked db id (not is_active) (update_tenant db id d s).1).1.tenants
        → Q (update_tenant_fields db id d (some is_active) s).1.tenants
    unfolding update_tenant_fields
    fields-keeps id d is_active s first both = elim (Result-cases (update_tenant db id d s).0) [
      | inl (u, done) ↦ ground arith
      | inr (e, failed) ↦ ground arith
    ]

  -- What every request keeps while the restaurant is blocked.
  pub record IsHeld (k : ℕ) (o : PlatformTenant) (rows : List PlatformTenant) : Type 0 where
    pub held : All (Holds k o) rows
    pub there : any (of_id k) rows ≡ true

  pub updated-IsHeld :
      (k : ℕ) (o : PlatformTenant) (id : ℕ) (data' : PlatformTenant → PlatformTenant)
      (rows : List PlatformTenant)
      → ((r : PlatformTenant) → (data' r).id ≡ r.id)
      → ((r : PlatformTenant) → of_id id r ≡ true → Holds k o r → Holds k o (data' r))
      → IsHeld k o rows
      → IsHeld k o (update_many (of_id id) data' rows)
  updated-IsHeld k o id data' rows same keep h = record {
    held = All-update_many (Holds k o) (of_id id) data' rows keep h.held;
    there = any-update_many (of_id k) (of_id id) data' rows (λ r. rw (same r) refl) ∙ h.there;
  }

  blocked-Holds :
      (k : ℕ) (o : PlatformTenant) (id : ℕ) (c r : PlatformTenant)
      → of_id id c ≡ true
      → of_id id r ≡ true
      → Holds k o c
      → Holds k o (blocked_row c r)
  unfolding blocked_row
  blocked-Holds k o id c r e f h i = ground (arith, h (ground arith))

  module _ (k : ℕ) (o : PlatformTenant) where
    found-Holds :
        (id : ℕ) (s : Platform) (c : PlatformTenant)
        → db.find_first (of_id id) s.tenants ≡ some c
        → IsHeld k o s.tenants
        → Holds k o c
    found-Holds id s c found h =
        db.find_first_listed (Holds k o) (of_id id) s.tenants c found h.held

    update_tenant-IsHeld :
        (id : ℕ) (d : TenantFields) (s : Platform)
        → IsHeld k o s.tenants
        → IsHeld k o (update_tenant db id d s).1.tenants
    unfolding with_fields
    update_tenant-IsHeld id d s h =
        update_tenant-keeps (IsHeld k o) id d s
          (updated-IsHeld k o id (with_fields d) s.tenants (λ r. refl) (λ r _ g. g) h) h

    block-IsHeld :
        (id : ℕ) (s : Platform)
        → IsHeld k o s.tenants
        → IsHeld k o (set_blocked db id true s).1.tenants
    unfolding blocked_row
    block-IsHeld id s h = elim (Option-cases (db.find_first (of_id id) s.tenants)) [
      | inl missing ↦ set_blocked-missing (IsHeld k o) id true s missing h
      | inr (c, found) ↦
          set_blocked-keeps (IsHeld k o) id s c found
            (updated-IsHeld k o id (blocked_row c) s.tenants (λ r. refl)
              (λ r e _.
                blocked-Holds k o id c r (db.find_first_matches (of_id id) s.tenants c found) e
                  (found-Holds id s c found h))
              h)
            h
    ]

    free-IsHeld :
        (id : ℕ) (s : Platform)
        → (id == k) ≡ false
        → IsHeld k o s.tenants
        → IsHeld k o (set_blocked db id false s).1.tenants
    unfolding unblocked_row
    free-IsHeld id s other h = elim (Option-cases (db.find_first (of_id id) s.tenants)) [
      | inl missing ↦ set_blocked-missing (IsHeld k o) id false s missing h
      | inr (c, found) ↦
          set_free-keeps (IsHeld k o) id s c found
            (updated-IsHeld k o id (unblocked_row c) s.tenants (λ r. refl)
              (λ r e _ i. absurd (ground arith)) h)
            h
    ]

    serve-IsHeld :
        (r : Request) (s : Platform)
        → frees k r ≡ false
        → IsHeld k o s.tenants
        → IsHeld k o (serve r s).tenants
    unfolding serve update_plan
    serve-IsHeld (Request.block id) s other h = block-IsHeld id s h
    serve-IsHeld (Request.unblock id) s other h = free-IsHeld id s other h
    serve-IsHeld (Request.change_plan id plan) s other h = update_tenant-IsHeld id _ s h
    serve-IsHeld (Request.change_fields id d none) s other h =
        unfold update_tenant_fields in update_tenant-IsHeld id d s h
    serve-IsHeld (Request.change_fields id d (some true)) s other h =
        let first = update_tenant-IsHeld id d s h in
        fields-keeps (IsHeld k o) id d true s first
          (free-IsHeld id (update_tenant db id d s).1 other first)
    serve-IsHeld (Request.change_fields id d (some false)) s other h =
        let first = update_tenant-IsHeld id d s h in
        fields-keeps (IsHeld k o) id d false s first
          (block-IsHeld id (update_tenant db id d s).1 first)
    serve-IsHeld (Request.extend now id) s other h =
        extend_trial-keeps (IsHeld k o) now id s (λ d. update_tenant-IsHeld id d s h) h

    pub serve_all-IsHeld :
        (rs : List Request) (s : Platform)
        → any (frees k) rs ≡ false
        → IsHeld k o s.tenants
        → IsHeld k o (serve_all rs s).tenants
    unfolding serve_all
    serve_all-IsHeld [] s none_frees h = h
    serve_all-IsHeld (r ∷ rs) s none_frees h =
        serve_all-IsHeld rs (serve r s) (ground arith) (serve-IsHeld r s (ground arith) h)
