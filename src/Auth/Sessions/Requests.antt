-- ===== src/Auth/Sessions/Requests.antt =====
-- Requests of the staff that come one after the other.
use mathlib.Core.Path.{subst}
use bonapp.Base.{
  Result, ℕ, ◌+◌, ◌-◌, ◌<◌, ◌≤◌, ◌≡◌, Bool, true, false, List, [], ◌∷◌, arith, ok, err, is_ok, ◌⊎◌,
  inl, inr, ◌==◌, ◌&&◌, Bool-cases, Option-cases, Result-cases, ltb, ==_iff, All,
}
use bonapp.Database.{Prisma, UserRole}
use bonapp.Auth.Cache.{Redis, Key, Value}
use bonapp.Auth.Accounts.{Account, AuthStore}
use bonapp.Auth.Tokens.{Jwt, Payload, verify_token}
use bonapp.Auth.Sessions.{
  login, refresh, logout, change_password, holder, min, is_current, reserve_login_attempt,
  update_account,
}
use bonapp.Auth.Sessions.Laws.{token, refresh-live, refresh-set_nx, refresh-expired, logout-set_ex}

-- A request with its moment and its arguments; the random ids stand first.
pub data Request (Part : Type 0) : Type 0 where
  login_request : ℕ → ℕ → ℕ → ℕ → ℕ → ℕ → ℕ → Request Part
  refresh_request : ℕ → ℕ → ℕ → List Part → Request Part
  logout_request : ℕ → List Part → Request Part
  password_request : ℕ → ℕ → ℕ → ℕ → ℕ → Request Part

module _ (redis : Redis) (db : Prisma) (jwt : Jwt) (secret : ℕ) (compare : ℕ → ℕ → Bool)
    (hash : ℕ → ℕ) where
  abbrev Store : Type 0
  Store = AuthStore redis.State

  abbrev pub serve : Request jwt.Part → Store → Store
  serve (Request.login_request a r now tenant email password ip) s =
      (login redis db jwt secret compare hash a r now tenant email password ip s).1
  serve (Request.refresh_request a r now t) s =
      (refresh redis db jwt secret compare hash a r now t s).1
  serve (Request.logout_request now t) s = (logout redis db jwt secret compare hash now t s).1
  serve (Request.password_request tenant id current new size) s =
      (change_password redis db jwt secret compare hash tenant id current new size s).1

  abbrev pub serve_all : List (Request jwt.Part) → Store → Store
  serve_all [] s = s
  serve_all (r ∷ requests) s = serve_all requests (serve r s)

  module _ (issued jti later : ℕ) where
    -- A token with the id `jti` is the one that was issued: it expires when that one does.
    abbrev pub IsSame : Result Payload → Type 0
    IsSame (err e) = Unit
    IsSame (ok p) = ((p.jti == jti) ≡ false) ⊎ (p.exp ≡ issued + 604800)

    -- The request comes after the issue and not after `later`.
    abbrev pub IsBetween : Request jwt.Part → Type 0
    IsBetween (Request.login_request a r now tenant email password ip) = Unit
    IsBetween (Request.refresh_request a r now t) =
        (now ≤ later) × IsSame (verify_token jwt secret now t)
    IsBetween (Request.logout_request now t) =
        (issued ≤ now) × IsSame (verify_token jwt secret now t)
    IsBetween (Request.password_request tenant id current new size) = Unit

    abbrev IsRevoked : Store → Type 0
    IsRevoked s = redis.live later (Key.revoked jti) s.cache ≡ true

    login-IsRevoked :
        (a r now tenant email password ip : ℕ) (s : Store)
        → IsRevoked s
        → IsRevoked (login redis db jwt secret compare hash a r now tenant email password ip s).1
    unfolding login reserve_login_attempt update_account
    login-IsRevoked a r now tenant email password ip s live =
        let key : Key = Key.staff_attempts ip in
        elim (Option-cases
          (db.find_first (λ (a : Account). is_current tenant a && a.email == email) s.accounts)) [
            | inl missing ↦
                ground (arith, redis.incr_ex_other now later key (Key.revoked jti) 60 s.cache)
            | inr (u, found) ↦ ground (
              arith,
              redis.incr_ex_other now later key (Key.revoked jti) 60 s.cache,
              redis.del_other later key (Key.revoked jti) (redis.incr_ex now key 60 s.cache).1,
            )
          ]

    change_password-IsRevoked :
        (tenant id current new size : ℕ) (s : Store)
        → IsRevoked s
        → IsRevoked
            (change_password redis db jwt secret compare hash tenant id current new size s).1
    unfolding change_password update_account
    change_password-IsRevoked tenant id current new size s live = ground arith

    revoke-kept :
        (now : ℕ) (p : Payload) (n : ℕ) (s : Store)
        → now ≤ later
        → IsRevoked s
        → redis.live later
            (Key.revoked jti)
            (redis.set_nx now (Key.revoked p.jti) (Value.number 1) n s.cache).1
          ≡ true
    revoke-kept now p n s h live = elim (Bool-cases (p.jti == jti)) [
      | inl same ↦ ground (
        arith,
        (==_iff p.jti jti).0 same,
        redis.set_nx_kept now later (Key.revoked jti) (Value.number 1) n s.cache,
      )
      | inr other ↦ ground (
        arith,
        redis.set_nx_other now later (Key.revoked p.jti) (Key.revoked jti) (Value.number 1) n
            s.cache,
      )
    ]

    refresh-IsRevoked :
        (a r now : ℕ) (t : List jwt.Part) (s : Store)
        → now ≤ later
        → IsRevoked s
        → IsRevoked (refresh redis db jwt secret compare hash a r now t s).1
    unfolding refresh
    refresh-IsRevoked a r now t s h live = elim (Result-cases (verify_token jwt secret now t)) [
      | inr (e, bad) ↦ ground arith
      | inl (p, good) ↦ elim (Option-cases (holder redis db jwt secret compare hash p s.accounts)) [
        | inl missing ↦ ground arith
        | inr (u, found) ↦ ground (arith, revoke-kept now p (min (p.exp - now) 604800) s h live)
      ]
    ]

    logout-IsRevoked :
        (now : ℕ) (t : List jwt.Part) (s : Store)
        → later < issued + 604800
        → issued ≤ now
        → IsSame (verify_token jwt secret now t)
        → IsRevoked s
        → IsRevoked (logout redis db jwt secret compare hash now t s).1
    unfolding logout
    logout-IsRevoked now t s soon after same live =
        elim (Result-cases (verify_token jwt secret now t)) [
          | inr (e, bad) ↦ ground arith
          | inl (p, good) ↦ elim (subst IsSame good same) [
            | inl other ↦ ground (
              arith,
              redis.set_ex_other now later (Key.revoked p.jti) (Key.revoked jti) (Value.number 1)
                  (min (p.exp - now) 604800) s.cache,
            )
            | inr exp ↦ elim (Bool-cases (p.jti == jti)) [
              | inl mine ↦ ground (
                arith,
                (==_iff p.jti jti).0 mine,
                redis.set_ex_kept now later (Key.revoked jti) (Value.number 1)
                    (min (p.exp - now) 604800) s.cache,
              )
              | inr other ↦ ground (
                arith,
                redis.set_ex_other now later (Key.revoked p.jti) (Key.revoked jti) (Value.number 1)
                    (min (p.exp - now) 604800) s.cache,
              )
            ]
          ]
        ]

    serve-IsRevoked :
        (r : Request jwt.Part) (s : Store)
        → later < issued + 604800
        → IsBetween r
        → IsRevoked s
        → IsRevoked (serve r s)
    serve-IsRevoked (Request.login_request a r now tenant email password ip) s soon fair live =
        login-IsRevoked a r now tenant email password ip s live
    serve-IsRevoked (Request.refresh_request a r now t) s soon fair live =
        refresh-IsRevoked a r now t s fair.0 live
    serve-IsRevoked (Request.logout_request now t) s soon fair live =
        logout-IsRevoked now t s soon fair.0 fair.1 live
    serve-IsRevoked (Request.password_request tenant id current new size) s soon fair live =
        change_password-IsRevoked tenant id current new size s live

    serve_all-IsRevoked :
        (requests : List (Request jwt.Part)) (s : Store)
        → later < issued + 604800
        → All IsBetween requests
        → IsRevoked s
        → IsRevoked (serve_all requests s)
    serve_all-IsRevoked [] s soon fair live = live
    serve_all-IsRevoked (r ∷ requests) s soon fair live =
        serve_all-IsRevoked requests (serve r s) soon fair.1 (serve-IsRevoked r s soon fair.0 live)

  module _ (issued user_id tenant_id : ℕ) (role : UserRole) (version access_jti jti : ℕ) where
    -- the refresh token that is issued
    abbrev pub issued_token : List jwt.Part
    issued_token =
        token redis db jwt secret compare hash issued user_id tenant_id role version access_jti jti

    abbrev pub is_renewed : ℕ → ℕ → ℕ → Store → Bool
    is_renewed a r now s = is_ok (refresh redis db jwt secret compare hash a r now issued_token s).0

    is_renewed-IsRevoked :
        (a r later : ℕ) (requests : List (Request jwt.Part)) (s : Store)
        → All (IsBetween issued jti later) requests
        → (later < issued + 604800 → redis.live later (Key.revoked jti) s.cache ≡ true)
        → is_renewed a r later (serve_all requests s) ≡ false
    is_renewed-IsRevoked a r later requests s fair live =
        elim (Bool-cases (ltb later (issued + 604800))) [
          | inr old ↦
              refresh-expired redis db jwt secret compare hash issued user_id tenant_id role version
                access_jti jti a r later (serve_all requests s) (ground arith)
          | inl soon ↦
              let now_soon : later < issued + 604800 = ground arith in
              refresh-live redis db jwt secret compare hash issued user_id tenant_id role version
                access_jti jti a r later (serve_all requests s) now_soon
                (serve_all-IsRevoked issued jti later requests s now_soon fair (live now_soon))
        ]

    -- A refresh token that was renewed once, at a moment not before its issue, is never renewed again,
    -- whatever requests are served in between, not after that moment, in which no token with its id
    -- expires at another moment.
    pub refresh-serve_all :
        (a r now a' r' later : ℕ) (requests : List (Request jwt.Part)) (s : Store)
        → issued ≤ now
        → All (IsBetween issued jti later) requests
        → is_renewed a r now s ≡ true
        → is_renewed a' r' later
            (serve_all requests (refresh redis db jwt secret compare hash a r now issued_token s).1)
          ≡ false
    refresh-serve_all a r now a' r' later requests s after fair done =
        is_renewed-IsRevoked a' r' later requests
          (refresh redis db jwt secret compare hash a r now issued_token s).1 fair
          (λ soon. elim (Bool-cases (ltb now (issued + 604800))) [
            | inr old ↦ absurd (
                ground (
                  arith,
                  refresh-expired redis db jwt secret compare hash issued user_id tenant_id role
                      version access_jti jti a r now s,
                ))
            | inl h ↦
                refresh-set_nx redis db jwt secret compare hash issued user_id tenant_id role
                  version access_jti jti a r now later s after (ground arith) soon done
          ])

    -- A refresh token that was given to `logout`, while the cache answered and not before its issue,
    -- is not renewed from then on, whatever requests are served in between, not after that moment, in
    -- which no token with its id expires at another moment.
    pub logout-serve_all :
        (now a r later : ℕ) (requests : List (Request jwt.Part)) (s : Store)
        → issued ≤ now
        → now ≤ later
        → All (IsBetween issued jti later) requests
        → is_ok (logout redis db jwt secret compare hash now issued_token s).0 ≡ true
        → is_renewed a r later
            (serve_all requests (logout redis db jwt secret compare hash now issued_token s).1)
          ≡ false
    logout-serve_all now a r later requests s after order fair done =
        is_renewed-IsRevoked a r later requests
          (logout redis db jwt secret compare hash now issued_token s).1 fair
          (λ soon.
            logout-set_ex redis db jwt secret compare hash issued user_id tenant_id role version
              access_jti jti now later s after (ground arith) soon done)
