-- ===== src/Auth/Tokens.antt =====
-- The tokens of the staff (apps/api/src/staff-auth/staff-jwt.util.ts). base64url, JSON and the HMAC
-- are parameters; a token is the list of its parts between the dots; moments are whole seconds.
pub mod Laws
use bonapp.Base.{
  ℕ, ◌+◌, ◌≡◌, Bool, true, false, Option, none, some, List, [], ◌∷◌, if◌then◌else◌, ◌==◌, ◌||◌, not,
  ltb, Result, ok, err, Error,
}
use bonapp.Database.{UserRole}
use bonapp.Auth.Guard.{VersionClaim}

-- `payload.role` is a text, which need not name a role.
pub data RoleText : Type 0 where
  known_role : UserRole → RoleText
  other_role : ℕ → RoleText

pub data Scope : Type 0 where
  tenant superadmin : Scope

-- `payload.scope` as it is read
pub data ScopeClaim : Type 0 where
  absent other_value : ScopeClaim
  in_scope : Scope → ScopeClaim

-- `payload.type`
pub data TokenType : Type 0 where
  access refresh : TokenType
  named : ℕ → TokenType

-- The claims that a JSON object holds; none where a value is absent or of another type.
pub record Claims : Type 0 where
  pub sub : Option ℕ
  pub user_id : Option ℕ
  pub tenant_id : Option ℕ
  pub role : Option RoleText
  pub scope : ScopeClaim
  pub token_type : Option TokenType
  pub jti : Option ℕ
  pub session_version : VersionClaim
  pub exp : Option ℕ
  pub iat : Option ℕ

-- `StaffJwtPayload`
pub record Payload : Type 0 where
  pub sub : ℕ
  pub user_id : ℕ
  pub tenant_id : ℕ
  pub role : RoleText
  pub scope : Option Scope
  pub token_type : TokenType
  pub jti : ℕ
  pub session_version : VersionClaim
  pub exp : ℕ
  pub iat : Option ℕ

abbrev pub scope_claim : Option Scope → ScopeClaim
scope_claim none = ScopeClaim.absent
scope_claim (some s) = ScopeClaim.in_scope s

-- `scope !== undefined && scope !== 'tenant' && scope !== 'superadmin'` throws
abbrev pub known_scope : ScopeClaim → Option (Option Scope)
known_scope ScopeClaim.absent = some none
known_scope ScopeClaim.other_value = none
known_scope (ScopeClaim.in_scope s) = some (some s)

-- What the tokens rely on: the header of HS256, encoders and decoders that fit, and the HMAC of a
-- header and a payload under a secret.
pub record Jwt : Type 1 where
  -- the texts between the dots
  pub Part : Type 0
  pub header : Part
  -- `header.alg === 'HS256'`, or none if the header does not parse
  pub is_hs256 : Part → Option Bool
  pub encode : Claims → Part
  pub decode : Part → Option Claims
  pub hmac : ℕ → Part → Part → ℕ
  pub write : ℕ → Part
  pub read : Part → ℕ
  pub header_is_hs256 : is_hs256 header ≡ some true
  pub decode_encode : (c : Claims) → decode (encode c) ≡ some c
  pub read_write : (digest : ℕ) → read (write digest) ≡ digest

abbrev pub claims_of : Payload → Claims
claims_of p = record {
  sub = some p.sub;
  user_id = some p.user_id;
  tenant_id = some p.tenant_id;
  role = some p.role;
  scope = scope_claim p.scope;
  token_type = some p.token_type;
  jti = some p.jti;
  session_version = p.session_version;
  exp = some p.exp;
  iat = p.iat;
}

infixl 5 ◌>>=◌ ◌>>◌
abbrev ◌>>=◌ : {A B : Type 0} → Option A → (A → Option B) → Option B
none >>= f = none
some a >>= f = f a

abbrev ◌>>◌ : {A B : Type 0} → Option A → Option B → Option B
m >> k = m >>= λ _. k

abbrev check : Bool → Option (Unit {0})
check true = some tt
check false = none

-- The checks of the claims, at a moment.
unfoldable pub payload_of : ℕ → Claims → Option Payload
payload_of now c = do
  exp ← c.exp
  check (ltb now exp)
  sub ← c.sub
  user_id ← c.user_id
  tenant_id ← c.tenant_id
  role ← c.role
  scope ← known_scope c.scope
  token_type ← c.token_type
  jti ← c.jti
  some (record {
    sub = sub;
    user_id = user_id;
    tenant_id = tenant_id;
    role = role;
    scope = scope;
    token_type = token_type;
    jti = jti;
    session_version = c.session_version;
    exp = exp;
    iat = c.iat;
  })

abbrev pub or_unauthorized : {A : Type 0} → Option A → Result A
or_unauthorized none = err Error.unauthorized
or_unauthorized (some a) = ok a

module _ (jwt : Jwt) (secret now : ℕ) where
  -- `iat` is the moment of the signature, whatever the payload has.
  unfoldable pub sign_token : Payload → List jwt.Part
  sign_token p =
      let encoded = jwt.encode (claims_of (record p { iat = some now })) in
      jwt.header ∷ encoded ∷ jwt.write (jwt.hmac secret jwt.header encoded) ∷ []

  unfoldable pub verify_token : List jwt.Part → Result Payload
  unfolding payload_of
  verify_token (header ∷ payload ∷ signature ∷ []) = elim (jwt.is_hs256 header) [
    | none ↦ err Error.unauthorized
    | some alg ↦
        if not alg || not (jwt.read signature == jwt.hmac secret header payload)
        then err Error.unauthorized
        else elim (jwt.decode payload) [
          | none ↦ err Error.unauthorized
          | some c ↦ or_unauthorized (payload_of now c)
        ]
  ]
  verify_token _ = err Error.unauthorized

abbrev pub scope_of : UserRole → Scope
scope_of UserRole.super_admin = Scope.superadmin
scope_of _ = Scope.tenant

pub record TokenPair (Part : Type 0) : Type 0 where
  pub access_token : List Part
  pub refresh_token : List Part
  pub refresh_jti : ℕ

-- the payload of a token that lives for `ttl` seconds
abbrev pub new_payload : ℕ → ℕ → ℕ → UserRole → ℕ → TokenType → ℕ → ℕ → Payload
new_payload now user_id tenant_id role version type' jti ttl = record {
  sub = user_id;
  user_id = user_id;
  tenant_id = tenant_id;
  role = RoleText.known_role role;
  scope = some (scope_of role);
  token_type = type';
  jti = jti;
  session_version = VersionClaim.version version;
  exp = now + ttl;
  iat = none;
}

-- `access_jti` and `refresh_jti` are the random ids of the tokens.
unfoldable pub build_token_pair :
    (jwt : Jwt) → ℕ → ℕ → ℕ → ℕ → UserRole → ℕ → ℕ → ℕ → TokenPair jwt.Part
unfolding sign_token
build_token_pair jwt secret now user_id tenant_id role version access_jti refresh_jti = record {
  access_token =
      sign_token jwt secret now
        (new_payload now user_id tenant_id role version TokenType.access access_jti 900);
  refresh_token =
      sign_token jwt secret now
        (new_payload now user_id tenant_id role version TokenType.refresh refresh_jti 604800);
  refresh_jti = refresh_jti;
}
