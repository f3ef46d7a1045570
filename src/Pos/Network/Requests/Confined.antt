-- ===== src/Pos/Network/Requests/Confined.antt =====
-- Where `requestPosJson` connects to.
use bonapp.Base.{
  ℕ, ◌≡◌, ◌⊎◌, inl, inr, refl, Bool, true, false, List, [], ◌∷◌, ◌++◌, arith, is_empty, Result, ok,
  any, not, ◌==◌, select, Result-cases,
}
use bonapp.Pos.Network.{
  Net, Entry, is_public_ipv4, first_address, select_public_ipv4, is_allowed_pos_host,
}
use bonapp.Pos.Network.Blocks.{is_reserved, address_value, is_public_ipv4_iff}
use bonapp.Pos.Network.Requests.{
  Connection, Call, Response, is_web, request_pos_json, connect, addresses_of,
}

first_address-public :
    (net : Net) (entries : List Entry) (s : List ℕ)
    → any (λ (e : Entry). not (is_public_ipv4 net e.address)) entries ≡ false
    → first_address net entries ≡ ok s
    → is_public_ipv4 net s ≡ true
first_address-public net [] s none_bad e = ground arith
first_address-public net (e ∷ entries) s none_bad first = ground arith

-- An address that is selected is public.
select_public_ipv4-public :
    (net : Net) (entries : List Entry) (s : List ℕ)
    → select_public_ipv4 net entries ≡ ok s
    → is_public_ipv4 net s ≡ true
unfolding select_public_ipv4
select_public_ipv4-public net entries s e =
    ground (arith, first_address-public net (select (λ (x : Entry). x.family == 4) entries) s)

module _ (net : Net) (lookup : List ℕ → Result (List Entry)) (respond : Connection → Response)
    (allowed_hosts : List ℕ) (call : Call) (opened : List Connection) where
  abbrev pub after : List Connection
  after = (request_pos_json net lookup respond allowed_hosts call opened).1

  pub record IsConfined (c : Connection) : Type 0 where
    pub the_call : c.call ≡ call
    pub host_allowed : is_allowed_pos_host call.url.hostname allowed_hosts ≡ true
    pub over_web : is_web call.url.protocol ≡ true
    pub no_username : is_empty call.url.username ≡ true
    pub no_password : is_empty call.url.password ≡ true
    pub is_address : net.is_ip c.address ≡ 4
    pub not_reserved : is_reserved (address_value (net.is_ip_four c.address is_address)) ≡ false

  confined :
      (s : List ℕ)
      → is_allowed_pos_host call.url.hostname allowed_hosts ≡ true
      → is_web call.url.protocol ≡ true
      → is_empty call.url.username ≡ true
      → is_empty call.url.password ≡ true
      → is_public_ipv4 net s ≡ true
      → IsConfined (record { address = s; call = call })
  confined s host web user pass accepted =
      let (four, free) = (is_public_ipv4_iff net s).0 accepted in
      record {
        the_call = refl;
        host_allowed = host;
        over_web = web;
        no_username = user;
        no_password = pass;
        is_address = four;
        not_reserved = free;
      }

  -- What the part after the checks opens.
  abbrev Connected : Type 0
  Connected =
      ((connect net lookup respond call opened).1 ≡ opened)
      ⊎ ((s : List ℕ) × ((connect net lookup respond call opened).1
            ≡ opened ++ record { address = s; call = call } ∷ [])
          × (is_public_ipv4 net s ≡ true))

  connect-public : Connected
  unfolding connect
  connect-public = elim (Result-cases (addresses_of net lookup call.url.hostname)) [
    | inr (e, unknown) ↦ inl (ground arith)
    | inl (entries, known) ↦ elim (Result-cases (select_public_ipv4 net entries)) [
      | inr (e, refused) ↦ inl (ground arith)
      | inl (s, selected) ↦ inr (s, ground arith, select_public_ipv4-public net entries s selected)
    ]
  ]

  -- The checks before it.
  checked :
      (host web user pass : Bool)
      → is_allowed_pos_host call.url.hostname allowed_hosts ≡ host
      → is_web call.url.protocol ≡ web
      → is_empty call.url.username ≡ user
      → is_empty call.url.password ≡ pass
      → (s : List ℕ)
      → (connect net lookup respond call opened).1
        ≡ opened ++ record { address = s; call = call } ∷ []
      → is_public_ipv4 net s ≡ true
      → (after ≡ opened) ⊎ ((c : Connection) × (after ≡ opened ++ c ∷ []) × IsConfined c)
  unfolding request_pos_json
  checked true true true true h w u p s one accepted =
      inr (record { address = s; call = call }, ground arith, confined s h w u p accepted)
  checked false web user pass h w u p s one accepted = inl (ground arith)
  checked true false user pass h w u p s one accepted = inl (ground arith)
  checked true true false pass h w u p s one accepted = inl (ground arith)
  checked true true true false h w u p s one accepted = inl (ground arith)

  -- A request to a POS opens no connection, or one: for this call, to an allowed host over HTTP or
  -- HTTPS with no name and password in the address, at an IPv4 address in no reserved block.
  pub request_pos_json-IsConfined :
      (after ≡ opened) ⊎ ((c : Connection) × (after ≡ opened ++ c ∷ []) × IsConfined c)
  unfolding request_pos_json
  request_pos_json-IsConfined = elim connect-public [
    | inl none_opened ↦ inl (ground arith)
    | inr (s, one, accepted) ↦
        checked (is_allowed_pos_host call.url.hostname allowed_hosts) (is_web call.url.protocol)
          (is_empty call.url.username) (is_empty call.url.password) refl refl refl refl s one
          accepted
  ]
