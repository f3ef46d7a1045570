-- ===== src/Payments/Webhooks/Genuine.antt =====
-- That a job is queued only for a delivery that bePaid has signed.
use bonapp.Base.{
  ℕ, ◌≡◌, refl, Bool, true, false, Option, none, some, List, [], ◌∷◌, arith, Option-cases,
  Bool-cases, inl, inr, ok, Error, is_empty,
}
use bonapp.Pos.Network.Requests.{PosJson}
use bonapp.Payments.Webhooks.{
  Cryptography, Credentials, Job, read_credentials, is_authorized, is_null, accept_bepaid,
  bepaid_job,
}
use bonapp.Payments.Webhooks.Queued.{QueuesOnly, AreRead, read_credentials-AreRead}

module _ (c : Cryptography) (has_secret : Bool) where
  -- The raw body is signed by the key of the restaurant's bePaid account and comes with the account's
  -- authorization, and the job is the one for this body and this restaurant.
  pub record IsGenuine (tenant : List ℕ) (stored raw' signature' authorization : Option (List ℕ))
      (j : Job) : Type 0 where
    pub raw : List ℕ
    pub signature : List ℕ
    pub key : List ℕ
    pub k : Credentials
    pub is_raw : raw' ≡ some raw
    pub is_signature : signature' ≡ some signature
    pub read : AreRead c has_secret stored k
    pub provider : k.is_bepaid ≡ true
    pub has_key : k.public_key ≡ some key
    pub verified : c.verify key raw signature ≡ true
    pub authorized : is_authorized c has_secret k authorization ≡ true
    pub body : PosJson
    pub parsed : c.parse raw ≡ some body
    pub job : j ≡ bepaid_job tenant body

  bepaid_body :
      (tenant : List ℕ) (stored : Option (List ℕ)) (raw signature key : List ℕ)
      (authorization : Option (List ℕ)) (k : Credentials)
      → AreRead c has_secret stored k
      → ((jobs : List Job) → read_credentials c has_secret stored jobs ≡ (ok k, jobs))
      → is_empty signature ≡ false
      → k.is_bepaid ≡ true
      → k.public_key ≡ some key
      → c.verify key raw signature ≡ true
      → is_authorized c has_secret k authorization ≡ true
      → QueuesOnly
          (IsGenuine tenant stored (some raw) (some signature) authorization)
          (accept_bepaid c has_secret tenant stored (some raw) (some signature) authorization)
  unfolding accept_bepaid
  bepaid_body tenant stored raw signature key authorization k read reads full bepaid has_key
        verified authorized =
      elim (Option-cases (c.parse raw)) [
        | inl none_parsed ↦ inl (Error.bad_request, λ jobs. ground (arith, reads jobs))
        | inr (body, parsed) ↦ elim (Bool-cases (is_null body)) [
          | inl null ↦ inl (Error.failure, λ jobs. ground (arith, reads jobs))
          | inr real ↦ inr (
            bepaid_job tenant body,
            record {
              raw = raw;
              signature = signature;
              key = key;
              k = k;
              is_raw = refl;
              is_signature = refl;
              read = read;
              provider = bepaid;
              has_key = has_key;
              verified = verified;
              authorized = authorized;
              body = body;
              parsed = parsed;
              job = refl;
            },
            λ jobs. ground (arith, reads jobs),
          )
        ]
      ]

  bepaid_checks :
      (tenant : List ℕ) (stored : Option (List ℕ)) (raw signature : List ℕ)
      (authorization : Option (List ℕ)) (k : Credentials)
      → AreRead c has_secret stored k
      → ((jobs : List Job) → read_credentials c has_secret stored jobs ≡ (ok k, jobs))
      → is_empty signature ≡ false
      → QueuesOnly
          (IsGenuine tenant stored (some raw) (some signature) authorization)
          (accept_bepaid c has_secret tenant stored (some raw) (some signature) authorization)
  unfolding accept_bepaid
  bepaid_checks tenant stored raw signature authorization k read reads full =
      let stop = Error.unauthorized in
      elim (Bool-cases k.is_bepaid) [
        | inr other ↦ inl (stop, λ jobs. ground (arith, reads jobs))
        | inl bepaid ↦ elim (Option-cases k.public_key) [
          | inl missing ↦ inl (stop, λ jobs. ground (arith, reads jobs))
          | inr (key, has_key) ↦ elim (Bool-cases (c.verify key raw signature)) [
            | inr forged ↦ inl (stop, λ jobs. ground (arith, reads jobs))
            | inl verified ↦ elim (Bool-cases (is_authorized c has_secret k authorization)) [
              | inr refused ↦ inl (stop, λ jobs. ground (arith, reads jobs))
              | inl authorized ↦
                  bepaid_body tenant stored raw signature key authorization k read reads full bepaid
                    has_key verified authorized
            ]
          ]
        ]
      ]

  -- For every delivery to bePaid's address, either an error is answered and nothing is queued, whatever
  -- jobs there are, or the delivery is genuine and its one job is added: the stored credentials of
  -- the restaurant can be decrypted and are of bePaid, the raw body is signed by their public key, the
  -- authorization is the one of their shop and secret, and the job is for this restaurant and the
  -- parsed body.
  pub accept_bepaid-IsGenuine :
      (tenant : List ℕ) (stored raw' signature' authorization : Option (List ℕ))
      → QueuesOnly
          (IsGenuine tenant stored raw' signature' authorization)
          (accept_bepaid c has_secret tenant stored raw' signature' authorization)
  unfolding accept_bepaid
  accept_bepaid-IsGenuine tenant stored none signature' authorization =
      inl (Error.unauthorized, λ jobs. refl)
  accept_bepaid-IsGenuine tenant stored (some raw) none authorization =
      inl (Error.unauthorized, λ jobs. refl)
  accept_bepaid-IsGenuine tenant stored (some raw) (some []) authorization =
      inl (Error.unauthorized, λ jobs. refl)
  accept_bepaid-IsGenuine tenant stored (some raw) (some (x ∷ xs)) authorization =
      elim (read_credentials-AreRead c has_secret stored) [
        | inl (e, fails) ↦ inl (e, λ jobs. ground (arith, fails jobs))
        | inr (k, read, reads) ↦
            bepaid_checks tenant stored raw (x ∷ xs) authorization k read reads refl
      ]
