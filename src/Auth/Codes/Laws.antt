-- ===== src/Auth/Codes/Laws.antt =====
-- A challenge and a code are used at most once.
use bonapp.Base.{
  ℕ, ◌≡◌, refl, false, none, some, arith, inl, inr, Option-cases, Result-cases, ok, is_ok, Result,
}
use bonapp.Database.{Prisma}
use bonapp.Auth.Cache.{Redis, Key, Value, Challenge, same_key}
use bonapp.Auth.Accounts.{Account, AuthStore, ensure_attempt_allowed, of_account}
use bonapp.Auth.Codes.{
  verify_2fa, take_challenge, use_code, finish, verifiable, totp_counter, secret_of,
}

module _ (redis : Redis) (db : Prisma) (hotp : ℕ → ℕ → ℕ) (encrypt : ℕ → ℕ)
    (decrypt : ℕ → Result ℕ) where
  pub take_challenge-stored :
      (now id : ℕ) (c : Challenge) (s : AuthStore redis.State)
      → (take_challenge redis db hotp encrypt decrypt now id s).0 ≡ ok c
      → (v : Value) × ((redis.getdel now (Key.totp_challenge id) s.cache).0 ≡ some (some v))
  unfolding take_challenge
  take_challenge-stored now id c s h =
      elim (Option-cases (redis.getdel now (Key.totp_challenge id) s.cache).0) [
        | inl failed ↦ absurd (ground arith)
        | inr (none, got) ↦ absurd (ground arith)
        | inr (some v, got) ↦ (v, got)
      ]

  -- A key that `verify_2fa` does not write stays as live as it was.
  use_code-challenge :
      (now later id code : ℕ) (a : Account) (s : AuthStore redis.State)
      → redis.live later
          (Key.totp_challenge id)
          (use_code redis db hotp encrypt decrypt now a code s).1.cache
        ≡ redis.live later (Key.totp_challenge id) s.cache
  unfolding use_code ensure_attempt_allowed
  use_code-challenge now later id code a s =
      elim (Result-cases (secret_of redis db hotp encrypt decrypt a)) [
        | inr (e, failed) ↦ ground arith
        | inl (secret, readable) ↦ elim (Option-cases (totp_counter hotp now secret code)) [
          | inl wrong ↦ ground (arith, tried later (Key.totp_challenge id) refl)
          | inr (n, fits) ↦ ground (
            arith,
            tried later (Key.totp_challenge id) refl,
            redis.set_nx_other now later (Key.totp_used a.id n) (Key.totp_challenge id)
                (Value.number 1) 120 incremented refl,
            redis.del_other later (Key.totp_fails a.id) (Key.totp_challenge id)
                (redis.set_nx now (Key.totp_used a.id n) (Value.number 1) 120 incremented).1 refl,
          )
        ]
      ]
    where
      incremented : redis.State
      incremented = (redis.incr_ex now (Key.totp_fails a.id) 300 s.cache).1

      tried :
          (later : ℕ) (k : Key)
          → same_key (Key.totp_fails a.id) k ≡ false
          → redis.live later k incremented ≡ redis.live later k s.cache
      tried later k other = redis.incr_ex_other now later (Key.totp_fails a.id) k 300 s.cache other

  pub finish-cache :
      (c : Challenge) (a : Account) (s : AuthStore redis.State)
      → (finish redis db hotp encrypt decrypt c a s).1.cache ≡ s.cache
  unfolding finish
  finish-cache c a s = ground arith

  take_challenge-gone :
      (now later id : ℕ) (c : Challenge) (s : AuthStore redis.State)
      → (take_challenge redis db hotp encrypt decrypt now id s).0 ≡ ok c
      → redis.live later
          (Key.totp_challenge id)
          (take_challenge redis db hotp encrypt decrypt now id s).1.cache
        ≡ false
  unfolding take_challenge
  take_challenge-gone now later id c s h =
      let (v, got) = take_challenge-stored now id c s h in taken v got
    where
      taken :
          (v : Value)
          → (redis.getdel now (Key.totp_challenge id) s.cache).0 ≡ some (some v)
          → redis.live later
              (Key.totp_challenge id)
              (take_challenge redis db hotp encrypt decrypt now id s).1.cache
            ≡ false
      taken v got =
          ground (arith, redis.getdel_gone now later (Key.totp_challenge id) v s.cache got)

  verify_2fa-gone :
      (now later id code : ℕ) (c : Challenge) (s : AuthStore redis.State)
      → (take_challenge redis db hotp encrypt decrypt now id s).0 ≡ ok c
      → redis.live later
          (Key.totp_challenge id)
          (verify_2fa redis db hotp encrypt decrypt now id code s).1.cache
        ≡ false
  unfolding verify_2fa
  verify_2fa-gone now later id code c s h =
      let gone = take_challenge-gone now later id c s h in
      let s' : AuthStore redis.State = (take_challenge redis db hotp encrypt decrypt now id s).1 in
      elim (Result-cases
        (verifiable (db.find_first (of_account c.user_id c.tenant_id) s'.accounts))) [
          | inr (e, refused) ↦ ground arith
          | inl (a, allowed) ↦
              elim (Result-cases (use_code redis db hotp encrypt decrypt now a code s').0) [
                | inr (e, wrong) ↦ ground (arith, use_code-challenge now later id code a s')
                | inl (n, fits) ↦ ground (
                  arith,
                  use_code-challenge now later id code a s',
                  finish-cache c a (use_code redis db hotp encrypt decrypt now a code s').1,
                )
              ]
        ]

  -- Without its challenge, a verification fails.
  verify_2fa-dead :
      (now id code : ℕ) (s : AuthStore redis.State)
      → redis.live now (Key.totp_challenge id) s.cache ≡ false
      → is_ok (verify_2fa redis db hotp encrypt decrypt now id code s).0 ≡ false
  unfolding verify_2fa
  verify_2fa-dead now id code s dead =
      elim (Result-cases (take_challenge redis db hotp encrypt decrypt now id s).0) [
        | inr (e, failed) ↦ ground arith
        | inl (c, got) ↦
            let (v, stored) = take_challenge-stored now id c s got in
            absurd (ground (arith, redis.getdel_live now (Key.totp_challenge id) v s.cache stored))
      ]

  -- When a verification has taken a challenge, with whatever code and whether it succeeds or not, the
  -- next verification with the same challenge, at any moment and with any code, fails.
  pub verify_2fa-verify_2fa :
      (now later id code code' : ℕ) (c : Challenge) (s : AuthStore redis.State)
      → (take_challenge redis db hotp encrypt decrypt now id s).0 ≡ ok c
      → is_ok
          (verify_2fa redis db hotp encrypt decrypt later id code'
            (verify_2fa redis db hotp encrypt decrypt now id code s).1).0
        ≡ false
  verify_2fa-verify_2fa now later id code code' c s h =
      verify_2fa-dead later id code' (verify_2fa redis db hotp encrypt decrypt now id code s).1
        (verify_2fa-gone now later id code c s h)
