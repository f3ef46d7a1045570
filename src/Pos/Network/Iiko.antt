-- ===== src/Pos/Network/Iiko.antt =====
-- `requestIikoAccessToken`, `requestIikoOrder` and `requestPosOrder`
-- (apps/api/src/onboarding/pos-network.ts). The requester of JSON is an argument, as in the code; its
-- state is whatever it keeps. Texts of the code are named by the constants below.
pub mod Retry
use Prim.Native.Char.{code}
use Prim.Native.String.{String}
use bonapp.Base.{
  ℕ, codes, Bool, true, false, Option, none, some, List, [], ◌∷◌, if◌then◌else◌, is_empty, Result,
  ok, err,
}
use bonapp.Pos.Network.Requests.{
  PosJson, Fields, Url, Method, Call, get_field, extract_pos_order_id,
}

-- What an awaited call gives: a value, a `PosOrderRejectedError`, or another error.
pub data Reply (A : Type 0) : Type 0 where
  value : A → Reply A
  rejected failed : Reply A

pub record IikoCredentials : Type 0 where
  pub api_key : List ℕ
  pub app_id : List ℕ
  pub client_secret : List ℕ

abbrev pub token_path : List ℕ
token_path = codes "/api/v2/access_token"

abbrev pub order_path : List ℕ
order_path = codes "/api/1/order/create"

-- the body of the request for a token
abbrev pub token_request : IikoCredentials → PosJson
token_request c = PosJson.object (
    Fields.field (codes "apiKey") (PosJson.text c.api_key) (
      Fields.field (codes "appId") (PosJson.text c.app_id)
        (Fields.field (codes "clientSecret") (PosJson.text c.client_secret) Fields.end)))

abbrev pub token_call : Url → IikoCredentials → Call
token_call url c = record {
  url = url;
  method = Method.post_method;
  path = token_path;
  payload = some (token_request c);
  access_token = none;
}

abbrev pub order_call : Url → PosJson → List ℕ → Call
order_call url payload token = record {
  url = url;
  method = Method.post_method;
  path = order_path;
  payload = some payload;
  access_token = some token;
}

-- a field `token` that is a text, and not an empty one
abbrev pub token_in : Option PosJson → Reply (List ℕ)
token_in (some (PosJson.text token)) = if is_empty token then Reply.failed else Reply.value token
token_in _ = Reply.failed

unfoldable pub token_of : PosJson → Reply (List ℕ)
token_of (PosJson.object fields) = token_in (get_field (codes "token") fields)
token_of _ = Reply.failed

abbrev pub id_of : Result (List ℕ) → Reply (List ℕ)
id_of (ok id) = Reply.value id
id_of (err e) = Reply.failed

-- `catch` of the request for the order: a rejection by the requester becomes another error
abbrev pub order_reply : Reply PosJson → Reply (List ℕ)
order_reply (Reply.value response) = id_of (extract_pos_order_id response (codes "orderInfo.id"))
order_reply _ = Reply.failed

module _ {S : Type 0} (request_json : Call → S → Reply PosJson × S) (url : Url)
    (c : IikoCredentials) where
  unfoldable pub request_iiko_access_token : S → Reply (List ℕ) × S
  unfolding token_of
  request_iiko_access_token s =
      let (r, s') = request_json (token_call url c) s in
      elim r [
        | Reply.value response ↦ (token_of response, s')
        | Reply.rejected ↦ (Reply.rejected, s')
        | Reply.failed ↦ (Reply.failed, s')
      ]

  -- Any failure before the request for the order is a rejection.
  unfoldable pub request_iiko_order : PosJson → S → Reply (List ℕ) × S
  unfolding request_iiko_access_token
  request_iiko_order payload s =
      let (t, s') = request_iiko_access_token s in
      elim t [
        | Reply.value token ↦
            let (r, s'') = request_json (order_call url payload token) s' in (order_reply r, s'')
        | Reply.rejected ↦ (Reply.rejected, s')
        | Reply.failed ↦ (Reply.rejected, s')
      ]
