-- ===== src/Tenants/Blocking.antt =====
-- The platform's administration of restaurants (apps/api/src/superadmin/superadmin.service.ts):
-- `setBlocked`, `updatePlan`, `updateTenantFields`, `extendTrial`. Moments are milliseconds.
pub mod Held
pub mod Restored
use bonapp.Base.{
  ℕ, ◌+◌, ◌*◌, Bool, true, false, Option, none, some, List, [], ◌∷◌, ◌++◌, if◌then◌else◌, ◌==◌, not,
  any, ltb, or_else, Result, ok, err, Error, require, throw_if, gets, pure, modify, transaction,
  catch_all, throw, ◌>>=◌, ◌>>◌,
}
use bonapp.Database.{Prisma, update_many}

pub data TenantStatus : Type 0 where
  trial active blocked : TenantStatus

abbrev pub is_blocked : TenantStatus → Bool
is_blocked TenantStatus.blocked = true
is_blocked _ = false

abbrev pub is_trial : TenantStatus → Bool
is_trial TenantStatus.trial = true
is_trial _ = false

pub data PlanType : Type 0 where
  trial_plan starter pro enterprise : PlanType

pub record PlatformTenant : Type 0 where
  pub id : ℕ
  pub status : TenantStatus
  pub status_before_block : Option TenantStatus
  pub is_active : Bool
  pub is_active_before_block : Option Bool
  pub plan : PlanType
  pub subscription_plan : PlanType
  pub trial_ends_at : Option ℕ

-- The restaurants, and those whose staff the gateway has disconnected.
pub record Platform : Type 0 where
  pub tenants : List PlatformTenant
  pub disconnected : List ℕ

abbrev pub of_id : ℕ → PlatformTenant → Bool
of_id id r = r.id == id

-- `tenant.update` by the id: it throws where no row has it
abbrev pub update_row :
    ℕ → (PlatformTenant → PlatformTenant) → Platform → Result (Unit {0}) × Platform
update_row id data' s =
    if any (of_id id) s.tenants
    then (ok tt, record s { tenants = update_many (of_id id) data' s.tenants })
    else (err Error.failure, s)

-- `data` of `setBlocked`, from the row that was read
unfoldable pub blocked_row : PlatformTenant → PlatformTenant → PlatformTenant
blocked_row current r = record r {
  status = TenantStatus.blocked;
  is_active = false;
  status_before_block =
      if is_blocked current.status then current.status_before_block else some current.status;
  is_active_before_block =
      if is_blocked current.status then current.is_active_before_block else some current.is_active;
}

unfoldable pub unblocked_row : PlatformTenant → PlatformTenant → PlatformTenant
unblocked_row current r = record r {
  status = or_else current.status_before_block TenantStatus.active;
  is_active = or_else current.is_active_before_block true;
  status_before_block = none;
  is_active_before_block = none;
}

-- the fields of an update, each of which may be left out
pub record TenantFields : Type 0 where
  pub new_plan : Option PlanType
  pub new_trial_ends_at : Option ℕ

unfoldable pub with_fields : TenantFields → PlatformTenant → PlatformTenant
with_fields d r = record r {
  plan = or_else d.new_plan r.plan;
  subscription_plan = or_else d.new_plan r.subscription_plan;
  trial_ends_at = elim d.new_trial_ends_at [ none ↦ r.trial_ends_at | some m ↦ some m ];
}

-- `tenant.trialEndsAt && tenant.trialEndsAt > now ? tenant.trialEndsAt : now`
abbrev pub trial_base : ℕ → Option ℕ → ℕ
trial_base now none = now
trial_base now (some m) = if ltb now m then m else now

abbrev pub extended : ℕ → PlatformTenant → TenantFields
extended now tenant = record {
  new_plan = none;
  new_trial_ends_at = some (trial_base now tenant.trial_ends_at + 30 * 86400000);
}

module _ (db : Prisma) where
  unfoldable pub update_tenant : ℕ → TenantFields → Platform → Result (Unit {0}) × Platform
  update_tenant id d =
      catch_all (transaction (update_row id (with_fields d))) (λ _. throw Error.not_found)

  -- the transaction of `setBlocked`
  unfoldable pub set_blocked_tx : ℕ → Bool → Platform → Result (Unit {0}) × Platform
  set_blocked_tx id to_block = do
    current ← require (← gets (λ s. db.find_first (of_id id) s.tenants)) Error.not_found
    update_row id (if to_block then blocked_row current else unblocked_row current)

  unfoldable pub set_blocked : ℕ → Bool → Platform → Result (Unit {0}) × Platform
  unfolding set_blocked_tx
  set_blocked id to_block = do
    transaction (set_blocked_tx id to_block)
    if to_block
        then modify (λ s. record s { disconnected = s.disconnected ++ id ∷ [] })
        else pure tt

  unfoldable pub update_plan : ℕ → PlanType → Platform → Result (Unit {0}) × Platform
  unfolding update_tenant
  update_plan id plan = update_tenant id (record { new_plan = some plan; new_trial_ends_at = none })

  unfoldable pub update_tenant_fields :
      ℕ → TenantFields → Option Bool → Platform → Result (Unit {0}) × Platform
  unfolding update_tenant set_blocked
  update_tenant_fields id d none = update_tenant id d
  update_tenant_fields id d (some is_active) = do update_tenant id d; set_blocked id (not is_active)

  unfoldable pub extend_trial : ℕ → ℕ → Platform → Result (Unit {0}) × Platform
  unfolding update_tenant
  extend_trial now id = do
    tenant ← require (← gets (λ s. db.find_first (of_id id) s.tenants)) Error.not_found
    throw_if (not (is_trial tenant.status)) Error.bad_request
    update_tenant id (extended now tenant)
