-- ===== src/Auth/Sessions/Laws.antt =====
-- How often a refresh token of the staff can be used.
use bonapp.Base.{
  ℕ, ◌+◌, ◌-◌, ◌<◌, ◌≤◌, ◌≡◌, Bool, true, false, some, List, arith, ok, is_ok, Bool-cases, All, ◌⊎◌,
  Option-cases, inl, inr, ltb,
}
use bonapp.Database.{Prisma, update_many, All-update_many_step, UserRole}
use bonapp.Auth.Cache.{Redis, Key, Value}
use bonapp.Auth.Accounts.{Account, AuthStore, of_account}
use bonapp.Auth.Tokens.{Jwt, Payload, TokenType, verify_token, build_token_pair, new_payload}
use bonapp.Auth.Tokens.Laws.{verify_token-sign_token, verify_token-expired}
use bonapp.Auth.Sessions.{
  refresh, logout, change_password, update_account, holder, held_by, is_refused, min,
}

module _ (redis : Redis) (db : Prisma) (jwt : Jwt) (secret : ℕ) (compare : ℕ → ℕ → Bool)
    (hash : ℕ → ℕ) where
  -- the refresh token that is issued at a moment, and what its verification returns
  module _ (issued user_id tenant_id : ℕ) (role : UserRole) (version access_jti jti : ℕ) where
    abbrev pub token : List jwt.Part
    token =
        (build_token_pair jwt secret issued user_id tenant_id role version access_jti
          jti).refresh_token

    abbrev pub payload : Payload
    payload =
        record (new_payload issued user_id tenant_id role version TokenType.refresh jti 604800) {
          iat = some issued;
        }

    pub verify_token-token :
        (now : ℕ) → now < issued + 604800 → verify_token jwt secret now token ≡ ok payload
    unfolding build_token_pair
    verify_token-token now h =
        verify_token-sign_token jwt secret issued now
          (new_payload issued user_id tenant_id role version TokenType.refresh jti 604800) h

    -- how long a token is kept as revoked
    abbrev pub ttl : ℕ → ℕ
    ttl now = min (issued + 604800 - now) 604800

    module _ (a r : ℕ) where
      -- A token that is revoked is refused.
      pub refresh-live :
          (now : ℕ) (s : AuthStore redis.State)
          → now < issued + 604800
          → redis.live now (Key.revoked jti) s.cache ≡ true
          → is_ok (refresh redis db jwt secret compare hash a r now token s).0 ≡ false
      unfolding refresh
      refresh-live now s h live =
          rw (verify_token-token now h)
            (elim (Option-cases (holder redis db jwt secret compare hash payload s.accounts)) [
              | inl missing ↦ ground arith
              | inr (u, found) ↦ ground (
                arith,
                redis.set_nx_free now (Key.revoked jti) (Value.number 1) (ttl now) s.cache,
              )
            ])

      -- A renewal marks the token as revoked while it is valid.
      pub refresh-set_nx :
          (now later : ℕ) (s : AuthStore redis.State)
          → issued ≤ now
          → now < issued + 604800
          → later < issued + 604800
          → is_ok (refresh redis db jwt secret compare hash a r now token s).0 ≡ true
          → redis.live later
              (Key.revoked jti)
              (refresh redis db jwt secret compare hash a r now token s).1.cache
            ≡ true
      unfolding refresh
      refresh-set_nx now later s after h soon done =
          elim (Option-cases (holder redis db jwt secret compare hash payload s.accounts)) [
            | inl missing ↦ absurd (ground (arith, verify_token-token now h))
            | inr (u, found) ↦ ground (
              arith,
              verify_token-token now h,
              redis.set_nx_live now later (Key.revoked jti) (Value.number 1) (ttl now) s.cache,
            )
          ]

      pub refresh-expired :
          (now : ℕ) (s : AuthStore redis.State)
          → issued + 604800 ≤ now
          → is_ok (refresh redis db jwt secret compare hash a r now token s).0 ≡ false
      unfolding refresh build_token_pair
      refresh-expired now s old = ground (
        arith,
        verify_token-expired jwt secret issued now
            (new_payload issued user_id tenant_id role version TokenType.refresh jti 604800),
      )

    pub logout-set_ex :
        (now later : ℕ) (s : AuthStore redis.State)
        → issued ≤ now
        → now < issued + 604800
        → later < issued + 604800
        → is_ok (logout redis db jwt secret compare hash now token s).0 ≡ true
        → redis.live later
            (Key.revoked jti)
            (logout redis db jwt secret compare hash now token s).1.cache
          ≡ true
    unfolding logout
    logout-set_ex now later s after h soon done =
        elim (Option-cases
          (redis.set_ex now (Key.revoked jti) (Value.number 1) (ttl now) s.cache).0) [
            | inl failed ↦ absurd (ground (arith, verify_token-token now h))
            | inr (u, found) ↦ ground (
              arith,
              verify_token-token now h,
              redis.set_ex_live now later (Key.revoked jti) (Value.number 1) (ttl now) s.cache,
            )
          ]

    -- A row that the token is not for, or that has a later session version.
    abbrev pub IsNewer : Account → Type 0
    IsNewer u = (of_account user_id tenant_id u ≡ false) ⊎ (version < u.session_version)

    -- the same, or the session version of the token
    abbrev pub IsKnown : Account → Type 0
    IsKnown u = (of_account user_id tenant_id u ≡ false) ⊎ (version ≤ u.session_version)

    is_refused-IsNewer :
        (u : Account)
        → IsNewer u
        → of_account user_id tenant_id u ≡ true
        → is_refused redis db jwt secret compare hash payload u ≡ true
    is_refused-IsNewer u (inl other) h = ground arith
    is_refused-IsNewer u (inr later) h = ground arith

    refresh-IsNewer :
        (now a r : ℕ) (s : AuthStore redis.State)
        → All IsNewer s.accounts
        → is_ok (refresh redis db jwt secret compare hash a r now token s).0 ≡ false
    unfolding refresh holder
    refresh-IsNewer now a r s newer = elim (Bool-cases (ltb now (issued + 604800))) [
      | inr old ↦ refresh-expired a r now s (ground arith)
      | inl soon ↦
          elim (Option-cases (holder redis db jwt secret compare hash payload s.accounts)) [
            | inl missing ↦ ground (arith, verify_token-token now)
            | inr (u, found) ↦ ground (
              arith,
              verify_token-token now,
              is_refused-IsNewer u
                  (db.find_first_listed IsNewer (held_by payload) s.accounts u found newer),
              db.find_first_matches (held_by payload) s.accounts u found,
            )
          ]
    ]

    abbrev changed : ℕ → Account → Account
    changed new u = record u {
      password_hash = hash new;
      must_change_password = false;
      session_version = u.session_version + 1;
    }

    change_password-accounts :
        (current new size : ℕ) (s : AuthStore redis.State)
        → is_ok
            (change_password redis db jwt secret compare hash tenant_id user_id current new size
              s).0
          ≡ true
        → (change_password redis db jwt secret compare hash tenant_id user_id current new size
            s).1.accounts
          ≡ update_many (of_account user_id tenant_id) (changed new) s.accounts
    unfolding change_password update_account
    change_password-accounts current new size s done = ground arith

    -- Once a user has changed the password, a refresh token is never renewed whose session version
    -- is at most the one that the rows of the user had before.
    pub change_password-refresh :
        (now a r current new size : ℕ) (s : AuthStore redis.State)
        → All IsKnown s.accounts
        → is_ok
            (change_password redis db jwt secret compare hash tenant_id user_id current new size
              s).0
          ≡ true
        → is_ok
            (refresh redis db jwt secret compare hash a r now token
              (change_password redis db jwt secret compare hash tenant_id user_id current new size
                s).1).0
          ≡ false
    change_password-refresh now a r current new size s known done =
        refresh-IsNewer now a r
          (change_password redis db jwt secret compare hash tenant_id user_id current new size s).1
          (rw (change_password-accounts current new size s done) (
            All-update_many_step IsKnown IsNewer (of_account user_id tenant_id) (changed new)
              s.accounts
              (λ u fits h. elim h [
                | inl other ↦ absurd (ground arith)
                | inr v ↦ inr (ground arith)
              ])
              (λ u other h. inl other) known))
