-- ===== src/Payments/Webhooks/Queued.antt =====
-- What a delivery of a provider does to the queue of its jobs.
use bonapp.Base.{
  ℕ, ◌≡◌, refl, Bool, true, Option, none, some, List, ◌⊎◌, Result-cases, Bool-cases, inl, inr,
  Result, ok, err, Error,
}
use bonapp.Payments.Webhooks.{Cryptography, Credentials, Job, add_job, read_credentials}

-- Nothing is queued, or one job, which satisfies the predicate, for whatever jobs there are.
abbrev pub QueuesOnly : (Job → Type 0) → (List Job → Result (Unit {0}) × List Job) → Type 0
QueuesOnly P accept =
    ((e : Error) × ((jobs : List Job) → accept jobs ≡ (err e, jobs)))
    ⊎ ((j : Job) × P j × ((jobs : List Job) → accept jobs ≡ (ok tt, add_job j jobs)))

module _ (c : Cryptography) (has_secret : Bool) where
  -- The credentials of the restaurant are stored and can be decrypted.
  pub record AreRead (stored : Option (List ℕ)) (k : Credentials) : Type 0 where
    pub secret : has_secret ≡ true
    pub encrypted : List ℕ
    pub is_stored : stored ≡ some encrypted
    pub decrypted : c.decrypt encrypted ≡ ok k

  pub read_credentials-AreRead :
      (stored : Option (List ℕ))
      → ((e : Error) × ((jobs : List Job)
            → read_credentials c has_secret stored jobs ≡ (err e, jobs)))
        ⊎ ((k : Credentials) × AreRead stored k
            × ((jobs : List Job) → read_credentials c has_secret stored jobs ≡ (ok k, jobs)))
  unfolding read_credentials
  read_credentials-AreRead none = inl (Error.unauthorized, λ jobs. refl)
  read_credentials-AreRead (some encrypted) = elim (Bool-cases has_secret) [
    | inr no_secret ↦ inl (Error.unauthorized, λ jobs. rw no_secret refl)
    | inl secret ↦ elim (Result-cases (c.decrypt encrypted)) [
      | inl (k, decrypted) ↦ inr (
        k,
        record { secret = secret; encrypted = encrypted; is_stored = refl; decrypted = decrypted },
        λ jobs. rw secret (rw decrypted refl),
      )
      | inr (e, fails) ↦ inl (e, λ jobs. rw secret (rw fails refl))
    ]
  ]
