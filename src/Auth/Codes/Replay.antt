-- ===== src/Auth/Codes/Replay.antt =====
-- A code is accepted once for a counter.
use bonapp.Base.{
  ℕ, ◌+◌, ◌<◌, ◌≡◌, refl, sym, ◌∙◌, true, false, some, arith, inl, inr, Option-cases, Result-cases,
  ok, is_ok, Result,
}
use bonapp.Database.{Prisma}
use bonapp.Auth.Cache.{Redis, Key, Value, Challenge, same_key}
use bonapp.Auth.Accounts.{Account, AuthStore, ensure_attempt_allowed, of_account}
use bonapp.Auth.Codes.{verify_2fa, take_challenge, use_code, verifiable, totp_counter, secret_of}
use bonapp.Auth.Codes.Laws.{finish-cache}

module _ (redis : Redis) (db : Prisma) (hotp : ℕ → ℕ → ℕ) (encrypt : ℕ → ℕ)
    (decrypt : ℕ → Result ℕ) where
  module _ (now code : ℕ) (a : Account) (s : AuthStore redis.State) where
    -- the cache after the attempt is counted
    abbrev counted : redis.State
    counted = (redis.incr_ex now (Key.totp_fails a.id) 300 s.cache).1

    use_code-cases :
        (n : ℕ)
        → (use_code redis db hotp encrypt decrypt now a code s).0 ≡ ok n
        → (secret : ℕ) × (secret_of redis db hotp encrypt decrypt a ≡ ok secret)
          × (totp_counter hotp now secret code ≡ some n)
          × ((redis.set_nx now (Key.totp_used a.id n) (Value.number 1) 120 counted).0 ≡ some true)
          × ((use_code redis db hotp encrypt decrypt now a code s).1.cache
              ≡ redis.del
                  (Key.totp_fails a.id)
                  (redis.set_nx now (Key.totp_used a.id n) (Value.number 1) 120 counted).1)
    unfolding use_code ensure_attempt_allowed
    use_code-cases n h = elim (Result-cases (secret_of redis db hotp encrypt decrypt a)) [
      | inr (e, failed) ↦ absurd (ground arith)
      | inl (secret, readable) ↦ elim (Option-cases (totp_counter hotp now secret code)) [
        | inl wrong ↦ absurd (ground arith)
        | inr (m, fits) ↦ (secret, readable, ground arith, ground arith, ground arith)
      ]
    ]

    -- While the mark of an accepted code lives, its counter is not accepted.
    use_code-free :
        (n : ℕ)
        → (use_code redis db hotp encrypt decrypt now a code s).0 ≡ ok n
        → redis.live now (Key.totp_used a.id n) s.cache ≡ false
    use_code-free n h =
        let (secret, readable, fits, set, cache) = use_code-cases n h in
        sym (
          redis.incr_ex_other now now (Key.totp_fails a.id) (Key.totp_used a.id n) 300 s.cache refl)
        ∙ redis.set_nx_free now (Key.totp_used a.id n) (Value.number 1) 120 counted set

    use_code-live :
        (later n : ℕ)
        → (use_code redis db hotp encrypt decrypt now a code s).0 ≡ ok n
        → later < now + 120
        → redis.live later
            (Key.totp_used a.id n)
            (use_code redis db hotp encrypt decrypt now a code s).1.cache
          ≡ true
    use_code-live later n h soon =
        let (secret, readable, fits, set, cache) = use_code-cases n h in
        rw cache (
          redis.del_other later (Key.totp_fails a.id) (Key.totp_used a.id n)
            (redis.set_nx now (Key.totp_used a.id n) (Value.number 1) 120 counted).1 refl
          ∙ redis.set_nx_live now later (Key.totp_used a.id n) (Value.number 1) 120 counted set
              soon)

  -- A verification has taken a challenge, found its user, and accepted the code for a counter.
  pub record Used (now id code : ℕ) (s : AuthStore redis.State) (a : Account) (n : ℕ) : Type 0 where
    pub challenge : Challenge
    pub taken : (take_challenge redis db hotp encrypt decrypt now id s).0 ≡ ok challenge
    pub user :
        verifiable (db.find_first (of_account challenge.user_id challenge.tenant_id) s.accounts)
        ≡ ok a
    pub secret : ℕ
    pub readable : secret_of redis db hotp encrypt decrypt a ≡ ok secret
    pub fits : totp_counter hotp now secret code ≡ some n

  take_challenge-store :
      (now id : ℕ) (s : AuthStore redis.State)
      → (take_challenge redis db hotp encrypt decrypt now id s).1
        ≡ record s { cache = (redis.getdel now (Key.totp_challenge id) s.cache).1 }
  unfolding take_challenge
  take_challenge-store now id s = ground arith

  -- What stands behind a verification that succeeds.
  record Done (now id code : ℕ) (s : AuthStore redis.State) (a : Account) (n : ℕ) : Type 0 where
    used : Used now id code s a n
    accepted :
        (use_code redis db hotp encrypt decrypt now a code
          (record s { cache = (redis.getdel now (Key.totp_challenge id) s.cache).1 })).0
        ≡ ok n
    cache :
        (verify_2fa redis db hotp encrypt decrypt now id code s).1.cache
        ≡ (use_code redis db hotp encrypt decrypt now a code
            (record s { cache = (redis.getdel now (Key.totp_challenge id) s.cache).1 })).1.cache

  verify_2fa-Done :
      (now id code : ℕ) (s : AuthStore redis.State)
      → is_ok (verify_2fa redis db hotp encrypt decrypt now id code s).0 ≡ true
      → (a : Account) × (n : ℕ) × Done now id code s a n
  unfolding verify_2fa
  verify_2fa-Done now id code s h =
      let s' : AuthStore redis.State = record s {
        cache = (redis.getdel now (Key.totp_challenge id) s.cache).1;
      } in
      let moved = take_challenge-store now id s in
      elim (Result-cases (take_challenge redis db hotp encrypt decrypt now id s).0) [
        | inr (e, failed) ↦ absurd (ground arith)
        | inl (c, taken) ↦
            elim (Result-cases
              (verifiable (db.find_first (of_account c.user_id c.tenant_id) s.accounts))) [
                | inr (e, refused) ↦ absurd (ground arith)
                | inl (a, allowed) ↦
                    elim (Result-cases (use_code redis db hotp encrypt decrypt now a code s').0) [
                      | inr (e, wrong) ↦ absurd (ground arith)
                      | inl (n, accepted) ↦
                          let (secret, readable, fits, _, _) =
                            use_code-cases now code a s' n accepted in
                          (
                            a,
                            n,
                            record {
                              used = record {
                                challenge = c;
                                taken = taken;
                                user = allowed;
                                secret = secret;
                                readable = readable;
                                fits = fits;
                              };
                              accepted = accepted;
                              cache = ground (
                                arith,
                                finish-cache redis db hotp encrypt decrypt c a
                                    (use_code redis db hotp encrypt decrypt now a code s').1,
                              );
                            },
                          )
                    ]
              ]
      ]

  replayed :
      (now later id id' code code' n n' : ℕ) (a a' : Account) (s : AuthStore redis.State)
      → later < now + 120
      → Done now id code s a n
      → Done later id' code' (verify_2fa redis db hotp encrypt decrypt now id code s).1 a' n'
      → same_key (Key.totp_used a.id n) (Key.totp_used a'.id n') ≡ false
  replayed now later id id' code code' n n' a a' s soon first second =
      let mid : AuthStore redis.State =
        (verify_2fa redis db hotp encrypt decrypt now id code s).1 in
      let start : AuthStore redis.State = record s {
        cache = (redis.getdel now (Key.totp_challenge id) s.cache).1;
      } in
      let again : AuthStore redis.State = record mid {
        cache = (redis.getdel later (Key.totp_challenge id') mid.cache).1;
      } in
      ground (
        arith,
        first.cache,
        use_code-live now code a start later n first.accepted soon,
        use_code-free later code' a' again n' second.accepted,
        redis.getdel_other later later (Key.totp_challenge id') (Key.totp_used a'.id n') mid.cache
            refl,
      )

  -- Of two verifications that succeed one right after the other, within 120 seconds, the second is
  -- for another user or for a code of another counter.
  pub verify_2fa-replay :
      (now later id id' code code' : ℕ) (s : AuthStore redis.State)
      → later < now + 120
      → is_ok (verify_2fa redis db hotp encrypt decrypt now id code s).0 ≡ true
      → let s' = (verify_2fa redis db hotp encrypt decrypt now id code s).1 in
        is_ok (verify_2fa redis db hotp encrypt decrypt later id' code' s').0 ≡ true
        → (a : Account) × (a' : Account) × (n : ℕ) × (n' : ℕ) × Used now id code s a n
          × Used later id' code' s' a' n'
          × (same_key (Key.totp_used a.id n) (Key.totp_used a'.id n') ≡ false)
  verify_2fa-replay now later id id' code code' s soon h h' =
      let (a, n, first) = verify_2fa-Done now id code s h in
      let (a', n', second) =
        verify_2fa-Done later id' code' (verify_2fa redis db hotp encrypt decrypt now id code s).1
          h' in
      (
        a,
        a',
        n,
        n',
        first.used,
        second.used,
        replayed now later id id' code code' n n' a a' s soon first second,
      )
