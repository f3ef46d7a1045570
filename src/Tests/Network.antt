-- ===== src/Tests/Network.antt =====
-- Requests to a POS at concrete addresses.
use bonapp.Base.{
  ℕ, ◌≡◌, ◌≢◌, ◌⊎◌, ◌↔◌, refl, true, false, none, some, List, [], ◌∷◌, ◌++◌, arith, ok, Result,
  same_codes, codes, if◌then◌else◌, ◌==◌,
}
use bonapp.Pos.Network.{Net, Entry, dotted, is_public_ipv4, is_allowed_pos_host, select_public_ipv4}
use bonapp.Pos.Network.Blocks.{is_reserved, address_value, is_public_ipv4_iff}
use bonapp.Pos.Network.Requests.{
  PosJson, Fields, Url, Protocol, Method, Call, Connection, Response, request_pos_json,
}
use bonapp.Pos.Network.Requests.Confined.{IsConfined, request_pos_json-IsConfined}
use bonapp.Pos.Network.Iiko.{Reply, IikoCredentials, token_call, order_call, request_iiko_order}
use bonapp.Pos.Network.Iiko.Retry.{logged, request_iiko_order-rejected}

same_codes-eq : (s t : List ℕ) → same_codes s t ≡ true → s ≡ t
same_codes-eq [] [] h = refl
same_codes-eq [] (b ∷ t) h = cc
same_codes-eq (a ∷ s) [] h = cc
same_codes-eq (a ∷ s) (b ∷ t) h = ground (arith, same_codes-eq s t)

abbrev host : List ℕ
host = codes "93.184.216.34"

-- the one IPv4 address that this resolver knows
abbrev is_host : List ℕ → ℕ
is_host s = if same_codes s host then 4 else 0

host-is_dotted : (s : List ℕ) → is_host s ≡ 4 → s ≡ dotted 93 184 216 34
unfolding dotted
host-is_dotted s h = same_codes-eq s host (ground arith)

abbrev net : Net
net = record {
  is_ip = is_host;
  is_ip_four = λ s h. record {
    a = 93;
    b = 184;
    c = 216;
    d = 34;
    small_a = omega arith;
    small_b = omega arith;
    small_c = omega arith;
    small_d = omega arith;
    is_dotted = host-is_dotted s h;
  };
}

is_public_ipv4_iff_example :
    (is_public_ipv4 net host ≡ true)
    ↔ ((four : is_host host ≡ 4) × (is_reserved (address_value (net.is_ip_four host four)) ≡ false))
is_public_ipv4_iff_example = is_public_ipv4_iff net host

host_accepted : is_public_ipv4 net host ≡ true
unfolding is_public_ipv4
host_accepted = refl

abbrev url : Url
url = record { protocol = Protocol.https; hostname = host; username = []; password = [] }

abbrev call : Call
call = record {
  url = url;
  method = Method.get_method;
  path = codes "/api/v1/menu";
  payload = none;
  access_token = none;
}

abbrev connection : Connection
connection = record { address = host; call = call }

abbrev lookup : List ℕ → Result (List Entry)
lookup s = ok []

abbrev respond : Connection → Response
respond c = Response.answered (some 200) (some PosJson.null)

opened_one : (request_pos_json net lookup respond host call []).1 ≡ connection ∷ []
unfolding request_pos_json is_public_ipv4 is_allowed_pos_host select_public_ipv4
opened_one = refl

request_pos_json-IsConfined_example :
    ((request_pos_json net lookup respond host call []).1 ≡ [])
    ⊎ ((c : Connection) × ((request_pos_json net lookup respond host call []).1 ≡ [] ++ c ∷ [])
        × IsConfined net lookup respond host call [] c)
request_pos_json-IsConfined_example = request_pos_json-IsConfined net lookup respond host call []

abbrev credentials : IikoCredentials
credentials = record { api_key = 1 ∷ []; app_id = 2 ∷ []; client_secret = 3 ∷ [] }

-- iiko gives a token, and then no answer.
abbrev request_json : Call → ℕ → Reply PosJson × ℕ
request_json c n =
    if n == 0
    then (
      Reply.value
          (PosJson.object (Fields.field (codes "token") (PosJson.text (9 ∷ [])) Fields.end)),
      1,
    )
    else (Reply.failed, 2)

abbrev run : Reply (List ℕ) × (List Call × ℕ)
run = request_iiko_order (logged request_json) url credentials PosJson.null ([], 0)

request_iiko_order-rejected_example :
    ((run.0 ≡ Reply.rejected) × (run.1.0 ≡ [] ++ token_call url credentials ∷ []))
    ⊎ ((token : List ℕ) × (run.0 ≢ Reply.rejected)
        × (run.1.0
            ≡ ([] ++ token_call url credentials ∷ []) ++ order_call url PosJson.null token ∷ []))
request_iiko_order-rejected_example =
    request_iiko_order-rejected request_json url credentials PosJson.null [] 0
