-- ===== src/Auth/Guard/Laws.antt =====
-- Whom the guard lets through.
use bonapp.Base.{
  ◌⊎◌, ℕ, ◌≡◌, refl, Bool, true, false, Option, none, some, List, [], ◌∷◌, arith, inl, inr,
  Option-cases, Result-cases, Bool-cases, ok, ◌==◌, ◌||◌, is_some, or_else,
}
use bonapp.Database.{Prisma}
use bonapp.Auth.Guard.{
  request_user, JwtPayload, Identity, Reader, GuardTenant, GuardUser, RequestUser, verify_token,
  identity_of, can_activate, admit_user, is_refresh, is_expired, claim_text, is_shut, may_act,
  first_of,
}

module _ (rd : Reader) (now : ℕ) where
  -- A token in three parts that this API has signed, that has not expired, and is not a refresh token.
  pub record Signed (token : List ℕ) (tenant : ℕ) : Type 0 where
    pub header : ℕ
    pub body : ℕ
    pub signature : ℕ
    pub claims : JwtPayload
    pub shape : token ≡ header ∷ body ∷ signature ∷ []
    pub algorithm : rd.is_hs256 header ≡ some true
    pub authentic : rd.signature signature ≡ rd.hmac header body
    pub parsed : rd.payload body ≡ some claims
    pub no_refresh : is_refresh claims.token_type ≡ false
    pub unexpired : is_expired now claims.exp ≡ false
    pub names : claim_text claims.tenant_id ≡ some tenant

  identity_of-checks :
      (p : JwtPayload) (i : Identity)
      → identity_of now p ≡ ok i
      → (is_refresh p.token_type ≡ false)
        × (is_expired now p.exp ≡ false)
        × (claim_text p.tenant_id ≡ some i.tenant_id)
  unfolding identity_of
  identity_of-checks p i h = elim (Option-cases (claim_text p.tenant_id)) [
    | inl unnamed ↦ absurd (ground arith)
    | inr (t, named) ↦ (ground arith, ground arith, ground arith)
  ]

  verify_token-Signed :
      (token : List ℕ) (i : Identity) → verify_token rd now token ≡ ok i → Signed token i.tenant_id
  unfolding verify_token
  verify_token-Signed [] i h = absurd (ground arith)
  verify_token-Signed (a ∷ []) i h = absurd (ground arith)
  verify_token-Signed (a ∷ b ∷ []) i h = absurd (ground arith)
  verify_token-Signed (a ∷ b ∷ c ∷ d ∷ l) i h = absurd (ground arith)
  verify_token-Signed (a ∷ b ∷ c ∷ []) i h = elim (Option-cases (rd.is_hs256 a)) [
    | inl unread ↦ absurd (ground arith)
    | inr (alg, read) ↦ elim (Option-cases (rd.payload b)) [
      | inl unparsed ↦ absurd (ground arith)
      | inr (p, parsed) ↦
          let (no_refresh, unexpired, names) = identity_of-checks p i (ground arith) in
          record {
            header = a;
            body = b;
            signature = c;
            claims = p;
            shape = refl;
            algorithm = ground arith;
            authentic = ground arith;
            parsed = parsed;
            no_refresh = no_refresh;
            unexpired = unexpired;
            names = names;
          }
    ]
  ]

  module _ (db : Prisma) (on_password_path : Bool) (token : List ℕ) (tenants : List GuardTenant)
      (users : List GuardUser) where
    admit_user-tenant :
        (i : Identity) (u : Option GuardUser) (r : RequestUser)
        → admit_user on_password_path i u ≡ ok r
        → r.tenant_id ≡ i.tenant_id
    unfolding admit_user
    admit_user-tenant i none r h = ground arith
    admit_user-tenant i (some u) r h = ground arith

    can_activate-tenant :
        (i : Identity) (r : RequestUser)
        → verify_token rd now token ≡ ok i
        → can_activate db rd now on_password_path token tenants users ≡ ok r
        → (r.tenant_id ≡ i.tenant_id)
          × (is_shut (db.find_first (λ (t : GuardTenant). t.id == i.tenant_id) tenants) ≡ false)
    unfolding can_activate
    can_activate-tenant i r verified h =
        elim (Bool-cases
          (is_shut (db.find_first (λ (t : GuardTenant). t.id == i.tenant_id) tenants))) [
            | inl shut ↦ absurd (ground arith)
            | inr unshut ↦ elim (Option-cases (first_of i.staff_user_id i.user_id)) [
              | inl nobody ↦ (ground arith, unshut)
              | inr (id, named) ↦ (
                ground
                    (arith, admit_user-tenant i (db.find_first (may_act id i.tenant_id) users) r),
                unshut,
              )
            ]
          ]

    -- A request passes the guard only with a token that this API has signed, that is not expired and
    -- not a refresh token; it acts for the restaurant of the token, which is not shut.
    pub can_activate-Signed :
        (r : RequestUser)
        → can_activate db rd now on_password_path token tenants users ≡ ok r
        → Signed token r.tenant_id
          × (is_shut (db.find_first (λ (t : GuardTenant). t.id == r.tenant_id) tenants) ≡ false)
    unfolding can_activate
    can_activate-Signed r h = elim (Result-cases (verify_token rd now token)) [
      | inr (e, refused) ↦ absurd (ground arith)
      | inl (i, verified) ↦
          let (same, unshut) = can_activate-tenant i r verified h in
          rw same (verify_token-Signed token i verified, unshut)
    ]

    -- The user of the restaurant that a request acts as.
    pub record ActsAs (i : Identity) (id : ℕ) (r : RequestUser) (u : GuardUser) : Type 0 where
      pub found : db.find_first (may_act id i.tenant_id) users ≡ some u
      pub own_id : u.id ≡ id
      pub own_tenant : u.tenant_id ≡ i.tenant_id
      pub active : u.is_active ≡ true
      pub unblocked : u.is_blocked ≡ false
      pub version : or_else i.session_version 0 ≡ u.session_version
      pub changed : (u.must_change_password ≡ false) ⊎ (on_password_path ≡ true)
      pub answered : r ≡ request_user i (some u.role)

    -- A request whose token names a user, and is an access token or one of the staff, passes only if
    -- among the users one is found with this id in the restaurant of the token, active and not blocked,
    -- with the session version of the token, who has no password to change unless the request is for
    -- this; it then acts for that restaurant, with the role that this user has now.
    pub can_activate-GuardUser :
        (i : Identity) (id : ℕ) (r : RequestUser)
        → verify_token rd now token ≡ ok i
        → first_of i.staff_user_id i.user_id ≡ some id
        → (is_some i.staff_user_id || i.is_access) ≡ true
        → can_activate db rd now on_password_path token tenants users ≡ ok r
        → (u : GuardUser) × ActsAs i id r u
    unfolding can_activate admit_user
    can_activate-GuardUser i id r verified named known h =
        elim (Option-cases (db.find_first (may_act id i.tenant_id) users)) [
          | inl missing ↦ absurd (ground arith)
          | inr (u, found) ↦
              let fits = db.find_first_matches (may_act id i.tenant_id) users u found in
              (
                u,
                record {
                  found = found;
                  own_id = ground arith;
                  own_tenant = ground arith;
                  active = ground arith;
                  unblocked = ground arith;
                  version = ground arith;
                  changed = ground arith;
                  answered = ground arith;
                },
              )
        ]
