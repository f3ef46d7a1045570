-- ===== src/Auth/Tokens/Laws.antt =====
-- What is signed can be verified.
use bonapp.Base.{ℕ, ◌<◌, ◌≤◌, ◌≡◌, some, arith, ok, err, Error, Option-cases, inl, inr}
use bonapp.Auth.Tokens.{Jwt, Payload, claims_of, payload_of, sign_token, verify_token}

payload_of-claims_of : (now : ℕ) (p : Payload) → now < p.exp → payload_of now (claims_of p) ≡ some p
unfolding payload_of
payload_of-claims_of now p h = elim (Option-cases p.scope) [
  | inl absent ↦ ground arith
  | inr (s, given) ↦ ground arith
]

module _ (jwt : Jwt) (secret : ℕ) where
  -- A payload that is signed at `now` is what the verification of the token returns at any `later`
  -- moment before it expires, with the moment of the signature as `iat`.
  pub verify_token-sign_token :
      (now later : ℕ) (p : Payload)
      → later < p.exp
      → verify_token jwt secret later (sign_token jwt secret now p)
        ≡ ok (record p { iat = some now })
  unfolding verify_token sign_token
  verify_token-sign_token now later p h = ground (
    arith,
    jwt.header_is_hs256,
    jwt.decode_encode (claims_of (record p { iat = some now })),
    jwt.read_write
        (jwt.hmac secret jwt.header (jwt.encode (claims_of (record p { iat = some now })))),
    payload_of-claims_of later (record p { iat = some now }),
  )

  pub verify_token-expired :
      (now later : ℕ) (p : Payload)
      → p.exp ≤ later
      → verify_token jwt secret later (sign_token jwt secret now p) ≡ err Error.unauthorized
  unfolding verify_token sign_token payload_of
  verify_token-expired now later p h = ground (
    arith,
    jwt.header_is_hs256,
    jwt.decode_encode (claims_of (record p { iat = some now })),
    jwt.read_write
        (jwt.hmac secret jwt.header (jwt.encode (claims_of (record p { iat = some now })))),
  )
