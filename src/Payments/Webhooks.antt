-- ===== src/Payments/Webhooks.antt =====
-- What is done with a delivery of a provider before its job is queued: `accept` of bePaid
-- (apps/api/src/guest-session/bepaid-webhook.ts) and of ERIP
-- (apps/api/src/guest-session/erip-webhook.ts). Texts are lists of codes. Signatures, the Basic header,
-- decryption and the parsing of JSON are parameters.
pub mod Queued
pub mod Genuine
pub mod Admitted
use bonapp.Base.{
  from_result, ℕ, Bool, true, false, Option, none, some, List, [], ◌∷◌, ◌++◌, if◌then◌else◌, not,
  any, is_empty, Result, Error, same_codes, codes, or_else, throw_if, require, modify, ◌>>=◌, ◌>>◌,
}
use bonapp.Pos.Network.Requests.{PosJson, Fields, get_field}

-- What `decryptCredentials` gives; `public_key` is none where it is absent or empty.
pub record Credentials : Type 0 where
  pub is_bepaid : Bool
  pub shop_id : List ℕ
  pub secret : List ℕ
  pub public_key : Option (List ℕ)

pub record Cryptography : Type 0 where
  -- RSA-SHA256 of the raw body, by the public key and the signature
  pub verify : List ℕ → List ℕ → List ℕ → Bool
  -- `Basic ${base64(shop:secret)}`
  pub basic : List ℕ → List ℕ → List ℕ
  pub decrypt : List ℕ → Result Credentials
  pub parse : List ℕ → Option PosJson

-- A job waits under its id; the queue ignores a job whose id it has already.
pub record Job : Type 0 where
  pub job_id : List ℕ
  pub tenant_id : List ℕ
  pub body : PosJson

abbrev pub add_job : Job → List Job → List Job
add_job j jobs =
    if any (λ (i : Job). same_codes i.job_id j.job_id) jobs then jobs else jobs ++ j ∷ []

abbrev pub job_name : List ℕ → List ℕ → List ℕ → List ℕ → List ℕ
job_name provider tenant tracking uid = provider ++ tenant ++ b'-' ∷ (tracking ++ b'-' ∷ uid)

-- `objectValue`
abbrev pub object_value : Option PosJson → Fields
object_value (some (PosJson.object fields)) = fields
object_value _ = Fields.end

-- `stringValue`
abbrev pub string_value : Option PosJson → Option (List ℕ)
string_value (some (PosJson.text s)) = some s
string_value _ = none

-- `body.transaction ?? body`, where the body is not null
abbrev pub transaction_or_body : PosJson → Option PosJson → PosJson
transaction_or_body body none = body
transaction_or_body body (some PosJson.null) = body
transaction_or_body body (some t) = t

abbrev pub field_of : List ℕ → PosJson → Option PosJson
field_of key (PosJson.object fields) = get_field key fields
field_of key _ = none

-- a property of null throws a TypeError
abbrev pub is_null : PosJson → Bool
is_null PosJson.null = true
is_null _ = false

abbrev pub bepaid_job : List ℕ → PosJson → Job
bepaid_job tenant body =
    let fields =
      object_value (some (transaction_or_body body (field_of (codes "transaction") body))) in
    let tracking =
      or_else (string_value (get_field (codes "tracking_id") fields)) (codes "unknown") in
    let uid = or_else (string_value (get_field (codes "uid") fields)) (codes "unknown") in
    record {
      job_id = job_name (codes "bepaid-") tenant tracking uid;
      tenant_id = tenant;
      body = body;
    }

abbrev pub erip_job : List ℕ → PosJson → List ℕ → List ℕ → Job
erip_job tenant body tracking uid = record {
  job_id = job_name (codes "erip-") tenant tracking uid;
  tenant_id = tenant;
  body = body;
}

module _ (c : Cryptography) (has_secret : Bool) where
  -- the credentials of the restaurant, where `isEncryptedCredentials` holds of what is stored
  unfoldable pub read_credentials : Option (List ℕ) → List Job → Result Credentials × List Job
  read_credentials stored = do
    encrypted ← require stored Error.unauthorized
    throw_if (not has_secret) Error.unauthorized
    from_result (c.decrypt encrypted)

  abbrev pub is_authorized : Credentials → Option (List ℕ) → Bool
  is_authorized k authorization = same_codes (or_else authorization []) (c.basic k.shop_id k.secret)

  -- `accept` of BepaidWebhookService
  unfoldable pub accept_bepaid :
      List ℕ
      → Option (List ℕ)
      → Option (List ℕ)
      → Option (List ℕ)
      → Option (List ℕ)
      → List Job
      → Result (Unit {0}) × List Job
  unfolding read_credentials
  accept_bepaid tenant stored raw' signature' authorization = do
    raw ← require raw' Error.unauthorized
    signature ← require signature' Error.unauthorized
    throw_if (is_empty signature) Error.unauthorized
    k ← read_credentials stored
    throw_if (not k.is_bepaid) Error.unauthorized
    key ← require k.public_key Error.unauthorized
    throw_if (not (c.verify key raw signature)) Error.unauthorized
    throw_if (not (is_authorized k authorization)) Error.unauthorized
    body ← require (c.parse raw) Error.bad_request
    throw_if (is_null body) Error.failure
    modify (add_job (bepaid_job tenant body))

  -- A signature is checked only if there is one.
  abbrev pub is_signed : Credentials → List ℕ → Option (List ℕ) → Bool
  is_signed k raw none = true
  is_signed k raw (some []) = true
  is_signed k raw (some signature) = elim k.public_key [
    | none ↦ false
    | some key ↦ c.verify key raw signature
  ]

  -- `accept` of EripWebhookService
  unfoldable pub accept_erip :
      List ℕ
      → Option (List ℕ)
      → Option (List ℕ)
      → Option (List ℕ)
      → Option (List ℕ)
      → List Job
      → Result (Unit {0}) × List Job
  unfolding read_credentials
  accept_erip tenant stored raw' signature authorization = do
    raw ← require raw' Error.bad_request
    k ← read_credentials stored
    throw_if (not (is_authorized k authorization)) Error.unauthorized
    throw_if (not (is_signed k raw signature)) Error.unauthorized
    body ← require (c.parse raw) Error.bad_request
    throw_if (is_null body) Error.failure
    let fields = object_value (field_of (codes "transaction") body)
    tracking ← require (string_value (get_field (codes "tracking_id") fields)) Error.bad_request
    uid ← require (string_value (get_field (codes "uid") fields)) Error.bad_request
    modify (add_job (erip_job tenant body tracking uid))
