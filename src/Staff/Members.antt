-- ===== src/Staff/Members.antt =====
-- `deactivate` and `resetPin` of `StaffService` (apps/api/src/staff/staff.service.ts), on the accounts
-- that sign-in reads. The random PIN and its hash are arguments.
pub mod Inactive
use bonapp.Base.{
  ℕ, Bool, true, false, some, ◌==◌, ◌&&◌, not, any, Result, ok, err, Error, require, throw_if, gets,
  modify, pure, ◌>>=◌, ◌>>◌,
}
use bonapp.Database.{Prisma, UserRole, update_many, count}
use bonapp.Auth.Accounts.{Account, AuthStore, PinHash, of_account}

-- `STAFF_ROLES`
abbrev pub is_member_role : UserRole → Bool
is_member_role UserRole.cashier = true
is_member_role UserRole.waiter = true
is_member_role UserRole.manager = true
is_member_role _ = false

-- `{ id, role: { in: [...STAFF_ROLES] } }`
abbrev pub is_member : ℕ → ℕ → Account → Bool
is_member tenant id a = of_account id tenant a && is_member_role a.role

abbrev pub deactivated : Account → Account
deactivated a = record a { is_active = false }

module _ {State : Type 0} where
  unfoldable pub deactivate : ℕ → ℕ → AuthStore State → Result (Unit {0}) × AuthStore State
  deactivate tenant id = do
    n ← gets (λ s. count (is_member tenant id) s.accounts)
    modify (λ s. record s { accounts = update_many (is_member tenant id) deactivated s.accounts })
    throw_if (n == 0) Error.not_found

  -- The answer is the new PIN.
  unfoldable pub reset_pin :
      Prisma → (ℕ → ℕ) → ℕ → ℕ → ℕ → AuthStore State → Result ℕ × AuthStore State
  reset_pin db hash tenant id new_pin = do
    require (← gets (λ s. db.find_first (is_member tenant id) s.accounts)) Error.not_found
    missing ← gets (λ s. not (any (of_account id tenant) s.accounts))
    throw_if missing Error.failure
    modify (λ s. record s {
      accounts =
          update_many (of_account id tenant)
            (λ (a : Account). record a { pin_hash = some (PinHash.hashed (hash new_pin)) })
            s.accounts;
    })
    pure new_pin
