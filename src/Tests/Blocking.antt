-- ===== src/Tests/Blocking.antt =====
-- Runs of the administration of restaurants.
use bonapp.Base.{◌≡◌, refl, true, false, none, some, List, [], ◌∷◌, is_ok, All}
use bonapp.Database.Instance.{first_row}
use bonapp.Tenants.Blocking.{TenantStatus, PlanType, PlatformTenant, Platform, set_blocked}
use bonapp.Tenants.Blocking.Held.{Request, serve_all}
use bonapp.Tenants.Blocking.Restored.{IsAsBefore, set_blocked-set_blocked}

abbrev trial_tenant : PlatformTenant
trial_tenant = record {
  id = 1;
  status = TenantStatus.trial;
  status_before_block = none;
  is_active = true;
  is_active_before_block = none;
  plan = PlanType.trial_plan;
  subscription_plan = PlanType.trial_plan;
  trial_ends_at = some 1000;
}

abbrev platform : Platform
platform = record { tenants = trial_tenant ∷ []; disconnected = [] }

abbrev requests : List Request
requests = Request.block 1 ∷ (Request.change_plan 1 PlanType.pro ∷ [])

set_blocked-set_blocked_example :
    (is_ok
        (set_blocked first_row 1 false
          (serve_all first_row requests (set_blocked first_row 1 true platform).1)).0
      ≡ true)
    × All
        (IsAsBefore 1 trial_tenant)
        (set_blocked first_row 1 false
          (serve_all first_row requests (set_blocked first_row 1 true platform).1)).1.tenants
set_blocked-set_blocked_example =
    set_blocked-set_blocked first_row 1 trial_tenant platform requests (tt, tt) refl refl refl
