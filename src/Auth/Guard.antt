-- ===== src/Auth/Guard.antt =====
-- `AuthGuard` (apps/api/src/auth/auth.guard.ts): who a request comes from. The decoding of base64url
-- and JSON, and the HMAC, are parameters; texts that the code only compares are numbers.
pub mod Laws
pub mod Socket
use bonapp.Base.{
  ℕ, ◌*◌, Bool, true, false, Option, none, some, List, [], ◌∷◌, if◌then◌else◌, ◌==◌, ◌&&◌, ◌||◌,
  not, leb, or_else, Result, ok, err, Error, is_some,
}
use bonapp.Database.{Prisma, UserRole}

-- A claim of a token that should be a text that is not blank.
pub data TextClaim : Type 0 where
  absent other_type blank : TextClaim
  text : ℕ → TextClaim

-- `payload.type`
pub data TypeClaim : Type 0 where
  absent other_type refresh access named : TypeClaim

-- `payload.sessionVersion`; `other_type` is anything but an integer from 0
pub data VersionClaim : Type 0 where
  absent other_type : VersionClaim
  version : ℕ → VersionClaim

pub data RoleClaim : Type 0 where
  absent other_type : RoleClaim
  known_role : UserRole → RoleClaim

pub record JwtPayload : Type 0 where
  pub tenant_id : TextClaim
  pub sub : TextClaim
  pub user_id : TextClaim
  pub token_type : TypeClaim
  pub exp : Option ℕ
  pub session_version : VersionClaim
  pub role : RoleClaim

-- What `verifyToken` returns.
pub record Identity : Type 0 where
  pub tenant_id : ℕ
  pub user_id : Option ℕ
  pub staff_user_id : Option ℕ
  pub is_access : Bool
  pub session_version : Option ℕ
  pub role : Option UserRole

abbrev pub claim_text : TextClaim → Option ℕ
claim_text (TextClaim.text t) = some t
claim_text _ = none

-- `payload.sub !== undefined && (typeof payload.sub !== 'string' || !payload.sub.trim())`
abbrev pub is_bad : TextClaim → Bool
is_bad TextClaim.absent = false
is_bad (TextClaim.text t) = false
is_bad _ = true

abbrev pub is_refresh : TypeClaim → Bool
is_refresh TypeClaim.refresh = true
is_refresh _ = false

abbrev pub is_access_type : TypeClaim → Bool
is_access_type TypeClaim.access = true
is_access_type _ = false

abbrev pub is_bad_type : TypeClaim → Bool
is_bad_type TypeClaim.other_type = true
is_bad_type _ = false

abbrev pub is_bad_version : VersionClaim → Bool
is_bad_version VersionClaim.other_type = true
is_bad_version _ = false

abbrev pub claim_version : VersionClaim → Option ℕ
claim_version (VersionClaim.version n) = some n
claim_version _ = none

abbrev pub is_bad_role : RoleClaim → Bool
is_bad_role RoleClaim.other_type = true
is_bad_role _ = false

abbrev pub claim_role : RoleClaim → Option UserRole
claim_role (RoleClaim.known_role r) = some r
claim_role _ = none

-- `typeof payload.exp === 'number' && payload.exp <= Date.now() / 1000`, with `now` in milliseconds
abbrev pub is_expired : ℕ → Option ℕ → Bool
is_expired now none = false
is_expired now (some exp) = leb (exp * 1000) now

-- The checks of the claims, once the signature fits.
unfoldable pub identity_of : ℕ → JwtPayload → Result Identity
identity_of now p = elim (claim_text p.tenant_id) [
  | none ↦ err Error.unauthorized
  | some tenant ↦
      if is_refresh p.token_type
        || is_expired now p.exp
        || (is_bad p.sub
            || (is_bad p.user_id
                || (is_bad_type p.token_type
                    || (is_bad_version p.session_version || is_bad_role p.role))))
      then err Error.unauthorized
      else ok (record {
        tenant_id = tenant;
        user_id = claim_text p.sub;
        staff_user_id = claim_text p.user_id;
        is_access = is_access_type p.token_type;
        session_version = claim_version p.session_version;
        role = claim_role p.role;
      })
]

-- The parts of a token between its dots, and how they are read.
pub record Reader : Type 0 where
  -- `header.alg === 'HS256'`, or none if the header does not parse
  pub is_hs256 : ℕ → Option Bool
  pub payload : ℕ → Option JwtPayload
  pub signature : ℕ → ℕ
  -- the HMAC of a header and a payload under the secret of the API
  pub hmac : ℕ → ℕ → ℕ

unfoldable pub verify_token : Reader → ℕ → List ℕ → Result Identity
unfolding identity_of
verify_token rd now (header ∷ payload ∷ signature ∷ []) = elim (rd.is_hs256 header) [
  | none ↦ err Error.unauthorized
  | some alg ↦ elim (rd.payload payload) [
    | none ↦ err Error.unauthorized
    | some p ↦
        if not alg || not (rd.signature signature == rd.hmac header payload)
        then err Error.unauthorized
        else identity_of now p
  ]
]
verify_token rd now _ = err Error.unauthorized

-- The columns of a restaurant and of a user that the guard reads.
pub record GuardTenant : Type 0 where
  pub id : ℕ
  pub is_blocked : Bool
  pub is_active : Bool

pub record GuardUser : Type 0 where
  pub id : ℕ
  pub tenant_id : ℕ
  pub role : UserRole
  pub is_active : Bool
  pub is_blocked : Bool
  pub must_change_password : Bool
  pub session_version : ℕ

-- `request.user`
pub record RequestUser : Type 0 where
  pub tenant_id : ℕ
  pub user_id : Option ℕ
  pub role : Option UserRole

abbrev pub request_user : Identity → Option UserRole → RequestUser
request_user i role = record { tenant_id = i.tenant_id; user_id = i.user_id; role = role }

abbrev pub may_act : ℕ → ℕ → GuardUser → Bool
may_act id tenant u = u.id == id && (u.tenant_id == tenant && (u.is_active && not u.is_blocked))

-- `tenant?.status === 'BLOCKED' || tenant?.isActive === false`
abbrev pub is_shut : Option GuardTenant → Bool
is_shut none = false
is_shut (some t) = t.is_blocked || not t.is_active

abbrev pub first_of : Option ℕ → Option ℕ → Option ℕ
first_of (some a) b = some a
first_of none b = b

-- the checks on the row of the user, which may be missing for an older token
unfoldable pub admit_user : Bool → Identity → Option GuardUser → Result RequestUser
admit_user on_password_path i none =
    if not (is_some i.staff_user_id) && not i.is_access
    then ok (request_user i i.role)
    else err Error.unauthorized
admit_user on_password_path i (some u) =
    if not (or_else i.session_version 0 == u.session_version)
    then err Error.unauthorized
    else if u.must_change_password && not on_password_path
    then err Error.forbidden
    else ok (request_user i (some u.role))

-- `canActivate`, after the bearer token is cut out of its header
unfoldable pub can_activate :
    Prisma → Reader → ℕ → Bool → List ℕ → List GuardTenant → List GuardUser → Result RequestUser
unfolding admit_user
can_activate db rd now on_password_path token tenants users = elim (verify_token rd now token) [
  | err e ↦ err e
  | ok i ↦
      if is_shut (db.find_first (λ (t : GuardTenant). t.id == i.tenant_id) tenants)
      then err Error.forbidden
      else elim (first_of i.staff_user_id i.user_id) [
        | none ↦ ok (request_user i i.role)
        | some id ↦ admit_user on_password_path i (db.find_first (may_act id i.tenant_id) users)
      ]
]
