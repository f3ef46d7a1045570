-- ===== src/Pos/Network/Iiko/Retry.antt =====
-- When an order for iiko may be sent again: a rejection says that it was not sent.
use bonapp.Base.{ℕ, ◌≡◌, ◌≢◌, ◌⊎◌, inl, inr, refl, List, [], ◌∷◌, ◌++◌, arith, Result, ok, err}
use bonapp.Pos.Network.Requests.{PosJson, Url, Call}
use bonapp.Pos.Network.Iiko.{
  Reply, IikoCredentials, token_call, order_call, token_of, id_of, order_reply, request_iiko_order,
}

-- A requester whose calls are written down.
abbrev pub logged :
    {S : Type 0}
    → (Call → S → Reply PosJson × S)
    → Call
    → List Call × S
    → Reply PosJson × (List Call × S)
logged request_json call (calls, s) =
    let (r, s') = request_json call s in (r, (calls ++ call ∷ [], s'))

Reply-cases :
    {A : Type 0} (r : Reply A)
    → ((a : A) × (r ≡ Reply.value a)) ⊎ ((r ≡ Reply.rejected) ⊎ (r ≡ Reply.failed))
Reply-cases (Reply.value a) = inl (a, refl)
Reply-cases Reply.rejected = inr (inl refl)
Reply-cases Reply.failed = inr (inr refl)

id_of-ne-rejected : (r : Result (List ℕ)) → id_of r ≢ Reply.rejected
id_of-ne-rejected (ok id) h = cc
id_of-ne-rejected (err e) h = cc

order_reply-ne-rejected : (r : Reply PosJson) → order_reply r ≢ Reply.rejected
order_reply-ne-rejected (Reply.value response) h = id_of-ne-rejected _ h
order_reply-ne-rejected Reply.rejected h = cc
order_reply-ne-rejected Reply.failed h = cc

module _ {S : Type 0} (request_json : Call → S → Reply PosJson × S) (url : Url)
    (c : IikoCredentials) (payload : PosJson) (calls : List Call) (s : S) where
  abbrev result : Reply (List ℕ) × (List Call × S)
  result = request_iiko_order (logged request_json) url c payload (calls, s)

  -- An order for iiko is rejected exactly if its endpoint was not called, only the one for the token:
  -- otherwise both were called, each of them once and in this order.
  pub request_iiko_order-rejected :
      ((result.0 ≡ Reply.rejected) × (result.1.0 ≡ calls ++ token_call url c ∷ []))
      ⊎ ((token : List ℕ) × (result.0 ≢ Reply.rejected)
          × (result.1.0 ≡ (calls ++ token_call url c ∷ []) ++ order_call url payload token ∷ []))
  unfolding request_iiko_order
  request_iiko_order-rejected = elim (Reply-cases (request_json (token_call url c) s).0) [
    | inr (inl refused) ↦ inl (ground arith)
    | inr (inr lost) ↦ inl (ground arith)
    | inl (response, got) ↦ elim (Reply-cases (token_of response)) [
      | inr (inl refused) ↦ inl (ground arith)
      | inr (inr lost) ↦ inl (ground arith)
      | inl (token, read) ↦ inr (
        token,
        λ refused.
            order_reply-ne-rejected
              (request_json (order_call url payload token) (request_json (token_call url c) s).1).0
              (ground arith),
        ground arith,
      )
    ]
  ]
