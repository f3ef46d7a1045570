-- ===== src/Auth/Login/Laws.antt =====
-- Who signs in with a password or a PIN.
use bonapp.Base.{
  ◌++◌, ◌&&◌, All, Option, none, Bool-cases, if◌then◌else◌, refl, sym, ℕ, ◌≡◌, Bool, true, false,
  some, List, [], ◌∷◌, arith, inl, inr, Option-cases, Result-cases, ok,
}
use bonapp.Database.{Prisma, UserRole, is_manager}
use bonapp.Auth.Cache.{Redis, Key}
use bonapp.Auth.Accounts.{Account, AuthStore, PinHash, Session, session, ensure_attempt_allowed}
use bonapp.Auth.Login.{
  LoginResult, login, answer, checked, has_email, pin_login, matched_users, only_one, is_staff_role,
  is_staff_user, pin_matches,
}

only_one-single : (l : List Account) (a : Account) → only_one l ≡ some a → l ≡ a ∷ []
only_one-single [] a h = absurd (ground arith)
only_one-single (b ∷ []) a h = ground arith
only_one-single (b ∷ c ∷ l) a h = absurd (ground arith)

abbrev pub is_challenged : LoginResult → Bool
is_challenged (LoginResult.challenged id) = true
is_challenged (LoginResult.signed_in r) = false

-- The PIN is the plain one of an older row, or fits the hash of a newer one.
pub data PinFits (compare : ℕ → ℕ → Bool) (pin : ℕ) : Option PinHash → Type 0 where
  plain : PinFits compare pin (some (PinHash.legacy pin))
  hashed : (h : ℕ) → compare pin h ≡ true → PinFits compare pin (some (PinHash.hashed h))

-- Cashiers, waiters and chefs.
pub data IsStaff : UserRole → Type 0 where
  as_cashier : IsStaff UserRole.cashier
  as_waiter : IsStaff UserRole.waiter
  as_chef : IsStaff UserRole.chef

-- Whoever may sign in with the PIN.
pub record MayEnter (compare : ℕ → ℕ → Bool) (t pin : ℕ) (a : Account) : Type 0 where
  pub own : a.tenant_id ≡ t
  pub staff : IsStaff a.role
  pub active : a.is_active ≡ true
  pub unblocked : a.is_blocked ≡ false
  pub fits : PinFits compare pin a.pin_hash

is_staff_role-IsStaff : (r : UserRole) → is_staff_role r ≡ true → IsStaff r
is_staff_role-IsStaff UserRole.cashier h = as_cashier
is_staff_role-IsStaff UserRole.waiter h = as_waiter
is_staff_role-IsStaff UserRole.chef h = as_chef
is_staff_role-IsStaff _ h = absurd (ground arith)

IsStaff-is_staff_role : {r : UserRole} → IsStaff r → is_staff_role r ≡ true
IsStaff-is_staff_role as_cashier = refl
IsStaff-is_staff_role as_waiter = refl
IsStaff-is_staff_role as_chef = refl

module _ (compare : ℕ → ℕ → Bool) (t pin : ℕ) where
  pin_matches-PinFits :
      (o : Option PinHash) → pin_matches compare pin o ≡ true → PinFits compare pin o
  pin_matches-PinFits none h = absurd (ground arith)
  pin_matches-PinFits (some (PinHash.legacy p)) h =
      let same : pin ≡ p = ground arith in rw (sym same) plain
  pin_matches-PinFits (some (PinHash.hashed k)) h = hashed k h

  PinFits-pin_matches :
      {o : Option PinHash} → PinFits compare pin o → pin_matches compare pin o ≡ true
  PinFits-pin_matches plain = ground arith
  PinFits-pin_matches (hashed k h) = h

  abbrev enters : Account → Bool
  enters a = is_staff_user t a && pin_matches compare pin a.pin_hash

  enters-MayEnter : (a : Account) → enters a ≡ true → MayEnter compare t pin a
  enters-MayEnter a h = record {
    own = ground arith;
    staff = is_staff_role-IsStaff a.role (ground arith);
    active = ground arith;
    unblocked = ground arith;
    fits = pin_matches-PinFits a.pin_hash (ground arith);
  }

  MayEnter-enters : (a : Account) → MayEnter compare t pin a → enters a ≡ true
  MayEnter-enters a m = ground (
    arith,
    m.own,
    m.active,
    m.unblocked,
    IsStaff-is_staff_role m.staff,
    PinFits-pin_matches m.fits,
  )

  -- Those who match, row by row.
  matched_users-head :
      (b : Account) (l : List Account)
      → matched_users compare t pin (b ∷ l)
        ≡ (if enters b then b ∷ matched_users compare t pin l else matched_users compare t pin l)
  unfolding matched_users
  matched_users-head b l = ground arith

  nobody-else :
      (l : List Account) → matched_users compare t pin l ≡ [] → All (λ b. enters b ≡ false) l
  nobody-else [] h = tt
  nobody-else (b ∷ l) h =
      let e = matched_users-head b l in (ground arith, nobody-else l (ground arith))

  -- One row of the list is the account, and none of the others may sign in with the PIN.
  abbrev pub IsAlone : Account → List Account → Type 0
  IsAlone a l =
      (before after : List Account) × (l ≡ before ++ a ∷ after)
      × All (λ b. ¬ MayEnter compare t pin b) (before ++ after)

  others-out :
      (l : List Account) → All (λ b. enters b ≡ false) l → All (λ b. ¬ MayEnter compare t pin b) l
  others-out [] h = tt
  others-out (b ∷ l) h =
      ((λ m. absurd (let e = MayEnter-enters b m in ground arith)), others-out l h.1)

  matched_users-IsAlone :
      (l : List Account) (a : Account)
      → matched_users compare t pin l ≡ a ∷ []
      → MayEnter compare t pin a × IsAlone a l
  unfolding matched_users
  matched_users-IsAlone [] a h = absurd (ground arith)
  matched_users-IsAlone (b ∷ l) a h =
      let e = matched_users-head b l in
      elim (Bool-cases (enters b)) [
        | inl in' ↦
            let same : b ≡ a = ground arith in
            let rest : matched_users compare t pin l ≡ [] = ground arith in
            (
              enters-MayEnter a (ground arith),
              ([], l, rw same refl, others-out l (nobody-else l rest)),
            )
        | inr out ↦
            let rest : matched_users compare t pin l ≡ a ∷ [] = ground arith in
            let (enter, alone) = matched_users-IsAlone l a rest in
            (
              enter,
              (
                b ∷ alone.0,
                alone.1,
                rw alone.2 refl,
                ((λ m. absurd (let k = MayEnter-enters b m in ground arith)), alone.3),
              ),
            )
      ]

module _ (redis : Redis) (db : Prisma) (compare : ℕ → ℕ → Bool) (hash : ℕ → ℕ) where
  answer-is_challenged :
      (new_id now : ℕ) (a : Account) (s : AuthStore redis.State) (r : LoginResult)
      → (answer redis db compare hash new_id now a s).0 ≡ ok r
      → is_challenged r ≡ a.totp_enabled
  unfolding answer
  answer-is_challenged new_id now a s r h = ground arith

  module _ (t : ℕ) (s : AuthStore redis.State) where
    -- Who a manager's sign-in is for.
    pub record Permitted (email password : ℕ) (a : Account) : Type 0 where
      pub found : db.find_first (has_email t email) s.accounts ≡ some a
      pub active : a.is_active ≡ true
      pub unblocked : a.is_blocked ≡ false
      pub manages : is_manager a.role ≡ true
      pub password_fits : compare password a.password_hash ≡ true

    checked-Permitted :
        (email password : ℕ) (a : Account)
        → checked compare password (db.find_first (has_email t email) s.accounts) ≡ ok a
        → Permitted email password a
    unfolding checked
    checked-Permitted email password a h =
        elim (Option-cases (db.find_first (has_email t email) s.accounts)) [
          | inl missing ↦ absurd (ground arith)
          | inr (b, found) ↦ record {
            found = ground arith;
            active = ground arith;
            unblocked = ground arith;
            manages = ground arith;
            password_fits = ground arith;
          }
        ]

    -- A sign-in with a password succeeds only for the row that is found by the restaurant and the
    -- email, if it is active, not blocked, an owner or a manager, and its password fits; it ends in
    -- a challenge exactly when two-factor sign-in is on.
    pub login-Permitted :
        (new_id now email password ip : ℕ) (r : LoginResult)
        → (login redis db compare hash new_id now (some t) email password ip s).0 ≡ ok r
        → (a : Account) × Permitted email password a × (is_challenged r ≡ a.totp_enabled)
    unfolding login ensure_attempt_allowed
    login-Permitted new_id now email password ip r h =
        elim (Result-cases
          (checked compare password (db.find_first (has_email t email) s.accounts))) [
            | inr (e, refused) ↦ absurd (ground arith)
            | inl (a, allowed) ↦ (
              a,
              checked-Permitted email password a allowed,
              ground (
                arith,
                answer-is_challenged new_id now a
                    (record s {
                      cache =
                          redis.del (Key.login_attempts t ip)
                            (redis.incr_ex now (Key.login_attempts t ip) 900 s.cache).1;
                    })
                    r,
              ),
            )
          ]

    -- A sign-in with a PIN succeeds only if exactly one row of all accounts is of a cashier, waiter or
    -- chef of the restaurant who is active and not blocked and whose PIN this is, and the session is
    -- for that row.
    pub pin_login-single :
        (now pin ip : ℕ) (r : Session)
        → (pin_login redis db compare hash now (some t) pin ip s).0 ≡ ok r
        → (a : Account) × MayEnter compare t pin a
          × IsAlone compare t pin a s.accounts
          × (r ≡ session 28800 a)
    unfolding pin_login ensure_attempt_allowed
    pin_login-single now pin ip r h =
        elim (Option-cases (only_one (matched_users compare t pin s.accounts))) [
          | inl several ↦ absurd (ground arith)
          | inr (a, single) ↦
              let (enter, alone) =
                matched_users-IsAlone compare t pin s.accounts a
                  (only_one-single (matched_users compare t pin s.accounts) a single) in
              (a, enter, alone, ground arith)
        ]
