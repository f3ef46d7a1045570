-- ===== src/Pos/Network/Requests.antt =====
-- `requestPosJson` (apps/api/src/onboarding/pos-network.ts) up to what the network answers: the
-- resolver and the peer are parameters, and the state is the list of connections that are opened.
pub mod Confined
use bonapp.Base.{
  from_result, ℕ, Bool, true, false, Option, none, some, List, [], ◌∷◌, ◌++◌, if◌then◌else◌, ◌==◌,
  ◌&&◌, ◌||◌, not, leb, ltb, is_empty, Result, ok, err, Error, codes, same_codes, split, pure,
  throw_if, modify, ◌>>=◌, ◌>>◌,
}
use bonapp.Pos.Network.{Net, Entry, select_public_ipv4, is_allowed_pos_host}

-- The JSON of a POS. An array is an object whose keys are its places.
mutual
  pub data PosJson : Type 0 where
    null : PosJson
    text : List ℕ → PosJson
    -- a number or a truth value
    literal : PosJson
    object : Fields → PosJson

  pub data Fields : Type 0 where
    end : Fields
    field : List ℕ → PosJson → Fields → Fields

abbrev pub get_field : List ℕ → Fields → Option PosJson
get_field key Fields.end = none
get_field key (Fields.field k v rest) = if same_codes k key then some v else get_field key rest

pub data Protocol : Type 0 where
  http https : Protocol
  other_protocol : ℕ → Protocol

pub record Url : Type 0 where
  pub protocol : Protocol
  pub hostname : List ℕ
  pub username : List ℕ
  pub password : List ℕ

pub data Method : Type 0 where
  get_method post_method : Method

-- The arguments of a `PosJsonRequester`.
pub record Call : Type 0 where
  pub url : Url
  pub method : Method
  pub path : List ℕ
  pub payload : Option PosJson
  pub access_token : Option (List ℕ)

pub record Connection : Type 0 where
  pub address : List ℕ
  pub call : Call

-- What comes back: a status and the body if it parses, or a timeout or another failure.
pub data Response : Type 0 where
  answered : Option ℕ → Option PosJson → Response
  broken : Response

abbrev pub is_web : Protocol → Bool
is_web Protocol.http = true
is_web Protocol.https = true
is_web (Protocol.other_protocol _) = false

-- The handler of 'end'. Redirects and other codes than 2xx are failures.
unfoldable pub read_response : Response → Result PosJson
read_response Response.broken = err Error.failure
read_response (Response.answered none body) = err Error.failure
read_response (Response.answered (some status) body) =
    if leb 300 status && ltb status 400
    then err Error.failure
    else if status == 0 || ltb status 200 || leb 300 status
    then err Error.failure
    else elim body [ none ↦ err Error.failure | some v ↦ ok v ]

unfoldable pub addresses_of : Net → (List ℕ → Result (List Entry)) → List ℕ → Result (List Entry)
addresses_of net lookup host =
    if not (net.is_ip host == 0)
    then ok (record { address = host; family = net.is_ip host } ∷ [])
    else lookup host

module _ (net : Net) (lookup : List ℕ → Result (List Entry)) (respond : Connection → Response) where
  -- the part of the function after its checks
  unfoldable pub connect : Call → List Connection → Result PosJson × List Connection
  unfolding addresses_of read_response
  connect call = do
    addresses ← from_result (addresses_of net lookup call.url.hostname)
    destination ← from_result (select_public_ipv4 net addresses)
    modify (λ opened. opened ++ record { address = destination; call = call } ∷ [])
    from_result (read_response (respond (record { address = destination; call = call })))

  unfoldable pub request_pos_json :
      List ℕ → Call → List Connection → Result PosJson × List Connection
  unfolding connect
  request_pos_json allowed_hosts call = do
    throw_if (not (is_allowed_pos_host call.url.hostname allowed_hosts)) Error.failure
    throw_if
        (not (is_web call.url.protocol)
          || not (is_empty call.url.username)
          || not (is_empty call.url.password))
        Error.failure
    connect call

-- `value && typeof value === 'object' ? value[key] : undefined`
abbrev pub child : List ℕ → Option PosJson → Option PosJson
child key (some (PosJson.object fields)) = get_field key fields
child key _ = none

-- the `reduce` over the keys
abbrev pub follow : List (List ℕ) → Option PosJson → Option PosJson
follow [] value = value
follow (key ∷ keys) value = follow keys (child key value)

abbrev pub as_id : Option PosJson → Result (List ℕ)
as_id (some (PosJson.text id)) = if is_empty id then err Error.failure else ok id
as_id _ = err Error.failure

unfoldable pub extract_pos_order_id : PosJson → List ℕ → Result (List ℕ)
extract_pos_order_id (PosJson.object fields) id_field =
    as_id (follow (split b'.' id_field) (some (PosJson.object fields)))
extract_pos_order_id _ id_field = err Error.failure

module _ (net : Net) (lookup : List ℕ → Result (List Entry)) (respond : Connection → Response)
    (url : Url) (api_key : List ℕ) (allowed_hosts : List ℕ) where
  unfoldable pub request_pos :
      Method → List ℕ → Option PosJson → List Connection → Result PosJson × List Connection
  request_pos method path payload = request_pos_json net lookup respond allowed_hosts (record {
    url = url;
    method = method;
    path = path;
    payload = payload;
    access_token = if is_empty api_key then none else some api_key;
  })

  unfoldable pub request_pos_menu : List Connection → Result PosJson × List Connection
  unfolding request_pos
  request_pos_menu = request_pos Method.get_method (codes "/api/v1/menu") none

  unfoldable pub request_pos_order :
      PosJson → List ℕ → List ℕ → List Connection → Result (List ℕ) × List Connection
  unfolding request_pos
  request_pos_order payload path id_field = do
    response ← request_pos Method.post_method path (some payload)
    from_result (extract_pos_order_id response id_field)
