-- ===== src/Payments/Webhooks/Admitted.antt =====
-- That a job is queued only for a delivery that ERIP has authorized.
use bonapp.Base.{
  ℕ, ◌≡◌, refl, Bool, true, false, Option, none, some, List, arith, Option-cases, Bool-cases, inl,
  inr, ok, Error,
}
use bonapp.Pos.Network.Requests.{PosJson, get_field}
use bonapp.Payments.Webhooks.{
  Cryptography, Credentials, Job, read_credentials, is_authorized, is_signed, is_null, accept_erip,
  erip_job, object_value, string_value, field_of,
}
use bonapp.Base.{codes}
use bonapp.Payments.Webhooks.Queued.{QueuesOnly, AreRead, read_credentials-AreRead}

-- The transaction of the body has this text under the key.
abbrev Names : PosJson → List ℕ → List ℕ → Type 0
Names body key value =
    string_value (get_field key (object_value (field_of (codes "transaction") body))) ≡ some value

module _ (c : Cryptography) (has_secret : Bool) where
  -- The delivery comes with the authorization of the restaurant's ERIP account, its signature is valid
  -- if it has one, and the job is for this restaurant, the body and the ids that the body names.
  pub record IsAdmitted (tenant : List ℕ) (stored raw' signature authorization : Option (List ℕ))
      (j : Job) : Type 0 where
    pub raw : List ℕ
    pub k : Credentials
    pub is_raw : raw' ≡ some raw
    pub read : AreRead c has_secret stored k
    pub authorized : is_authorized c has_secret k authorization ≡ true
    pub signed : is_signed c has_secret k raw signature ≡ true
    pub body : PosJson
    pub parsed : c.parse raw ≡ some body
    pub tracking : List ℕ
    pub uid : List ℕ
    pub is_tracking : Names body (codes "tracking_id") tracking
    pub is_uid : Names body (codes "uid") uid
    pub job : j ≡ erip_job tenant body tracking uid

  erip_body :
      (tenant : List ℕ) (stored : Option (List ℕ)) (raw : List ℕ)
      (signature authorization : Option (List ℕ)) (k : Credentials)
      → AreRead c has_secret stored k
      → ((jobs : List Job) → read_credentials c has_secret stored jobs ≡ (ok k, jobs))
      → is_authorized c has_secret k authorization ≡ true
      → is_signed c has_secret k raw signature ≡ true
      → (body : PosJson) → c.parse raw ≡ some body
      → is_null body ≡ false
      → QueuesOnly
          (IsAdmitted tenant stored (some raw) signature authorization)
          (accept_erip c has_secret tenant stored (some raw) signature authorization)
  unfolding accept_erip
  erip_body tenant stored raw signature authorization k read reads authorized signed body parsed
        real =
      let fields = object_value (field_of (codes "transaction") body) in
      elim (Option-cases (string_value (get_field (codes "tracking_id") fields))) [
        | inl missing ↦ inl (Error.bad_request, λ jobs. ground (arith, reads jobs))
        | inr (tracking, is_tracking) ↦
            elim (Option-cases (string_value (get_field (codes "uid") fields))) [
              | inl missing ↦ inl (Error.bad_request, λ jobs. ground (arith, reads jobs))
              | inr (uid, is_uid) ↦ inr (
                erip_job tenant body tracking uid,
                record {
                  raw = raw;
                  k = k;
                  is_raw = refl;
                  read = read;
                  authorized = authorized;
                  signed = signed;
                  body = body;
                  parsed = parsed;
                  tracking = tracking;
                  uid = uid;
                  is_tracking = is_tracking;
                  is_uid = is_uid;
                  job = refl;
                },
                λ jobs. ground (arith, reads jobs),
              )
            ]
      ]

  erip_checks :
      (tenant : List ℕ) (stored : Option (List ℕ)) (raw : List ℕ)
      (signature authorization : Option (List ℕ)) (k : Credentials)
      → AreRead c has_secret stored k
      → ((jobs : List Job) → read_credentials c has_secret stored jobs ≡ (ok k, jobs))
      → QueuesOnly
          (IsAdmitted tenant stored (some raw) signature authorization)
          (accept_erip c has_secret tenant stored (some raw) signature authorization)
  unfolding accept_erip
  erip_checks tenant stored raw signature authorization k read reads =
      let stop = Error.unauthorized in
      elim (Bool-cases (is_authorized c has_secret k authorization)) [
        | inr refused ↦ inl (stop, λ jobs. ground (arith, reads jobs))
        | inl authorized ↦ elim (Bool-cases (is_signed c has_secret k raw signature)) [
          | inr forged ↦ inl (stop, λ jobs. ground (arith, reads jobs))
          | inl signed ↦ elim (Option-cases (c.parse raw)) [
            | inl missing ↦ inl (Error.bad_request, λ jobs. ground (arith, reads jobs))
            | inr (body, parsed) ↦ elim (Bool-cases (is_null body)) [
              | inl null ↦ inl (Error.failure, λ jobs. ground (arith, reads jobs))
              | inr real ↦
                  erip_body tenant stored raw signature authorization k read reads authorized signed
                    body parsed real
            ]
          ]
        ]
      ]

  -- For every delivery to ERIP's address, either an error is answered and nothing is queued, whatever
  -- jobs there are, or the delivery is admitted and its one job is added: the stored credentials of
  -- the restaurant can be decrypted, the authorization is the one of their shop and secret, a
  -- signature, if there is one that is not empty, is of the raw body by their public key, and the job
  -- is for this restaurant, the parsed body, and the two ids that its transaction names.
  pub accept_erip-IsAdmitted :
      (tenant : List ℕ) (stored raw' signature authorization : Option (List ℕ))
      → QueuesOnly
          (IsAdmitted tenant stored raw' signature authorization)
          (accept_erip c has_secret tenant stored raw' signature authorization)
  unfolding accept_erip
  accept_erip-IsAdmitted tenant stored none signature authorization =
      inl (Error.bad_request, λ jobs. refl)
  accept_erip-IsAdmitted tenant stored (some raw) signature authorization =
      elim (read_credentials-AreRead c has_secret stored) [
        | inl (e, fails) ↦ inl (e, λ jobs. ground (arith, fails jobs))
        | inr (k, read, reads) ↦ erip_checks tenant stored raw signature authorization k read reads
      ]
