-- ===== src/Auth/Cache.antt =====
-- `CacheService` (apps/api/src/cache/cache.service.ts) over Redis, which is a parameter: its commands,
-- and what they promise for a key that lives at a moment.
use bonapp.Base.{
  ℕ, ◌+◌, ◌<◌, ◌≤◌, ◌≡◌, Bool, true, false, Option, none, some, ◌==◌, ◌&&◌, Result, ok, err, Error,
}

-- The keys that the code builds.
pub data Key : Type 0 where
  pin_attempts login_attempts : ℕ → ℕ → Key
  totp_fails totp_challenge : ℕ → Key
  totp_used : ℕ → ℕ → Key
  revoked staff_attempts : ℕ → Key

abbrev pub same_key : Key → Key → Bool
same_key (Key.pin_attempts a b) (Key.pin_attempts c d) = a == c && b == d
same_key (Key.login_attempts a b) (Key.login_attempts c d) = a == c && b == d
same_key (Key.totp_fails a) (Key.totp_fails c) = a == c
same_key (Key.totp_challenge a) (Key.totp_challenge c) = a == c
same_key (Key.totp_used a b) (Key.totp_used c d) = a == c && b == d
same_key (Key.revoked a) (Key.revoked c) = a == c
same_key (Key.staff_attempts a) (Key.staff_attempts c) = a == c
same_key _ _ = false

-- `ChallengePayload`
pub record Challenge : Type 0 where
  pub is_setup : Bool
  pub user_id : ℕ
  pub tenant_id : ℕ

-- The values that are stored as JSON.
pub data Value : Type 0 where
  number : ℕ → Value
  challenge : Challenge → Value

abbrev pub as_challenge : Option Value → Option Challenge
as_challenge (some (Value.challenge c)) = some c
as_challenge _ = none

-- Redis. A command that fails returns none. `live` says whether a key exists at a moment.
pub record Redis : Type 1 where
  pub State : Type 0
  pub live : ℕ → Key → State → Bool
  pub get : ℕ → Key → State → Option (Option Value)
  pub getdel : ℕ → Key → State → Option (Option Value) × State
  pub set_ex : ℕ → Key → Value → ℕ → State → Option (Unit {0}) × State
  pub set_nx : ℕ → Key → Value → ℕ → State → Option Bool × State
  pub del : Key → State → State
  -- INCR, and EXPIRE for a key that is new
  pub incr_ex : ℕ → Key → ℕ → State → Option ℕ × State
  pub getdel_live :
      (now : ℕ) (k : Key) (v : Value) (s : State)
      → (getdel now k s).0 ≡ some (some v)
      → live now k s ≡ true
  pub getdel_gone :
      (now later : ℕ) (k : Key) (v : Value) (s : State)
      → (getdel now k s).0 ≡ some (some v)
      → live later k (getdel now k s).1 ≡ false
  pub getdel_other :
      (now later : ℕ) (k j : Key) (s : State)
      → same_key k j ≡ false
      → live later j (getdel now k s).1 ≡ live later j s
  pub set_ex_live :
      (now later : ℕ) (k : Key) (v : Value) (ttl : ℕ) (s : State)
      → (set_ex now k v ttl s).0 ≡ some tt
      → later < now + ttl
      → live later k (set_ex now k v ttl s).1 ≡ true
  pub set_ex_other :
      (now later : ℕ) (k j : Key) (v : Value) (ttl : ℕ) (s : State)
      → same_key k j ≡ false
      → live later j (set_ex now k v ttl s).1 ≡ live later j s
  -- whether the command succeeds or not
  pub set_ex_kept :
      (now later : ℕ) (k : Key) (v : Value) (ttl : ℕ) (s : State)
      → later < now + ttl
      → live later k s ≡ true
      → live later k (set_ex now k v ttl s).1 ≡ true
  pub set_nx_kept :
      (now later : ℕ) (k : Key) (v : Value) (ttl : ℕ) (s : State)
      → now ≤ later
      → live later k s ≡ true
      → live later k (set_nx now k v ttl s).1 ≡ true
  pub set_nx_free :
      (now : ℕ) (k : Key) (v : Value) (ttl : ℕ) (s : State)
      → (set_nx now k v ttl s).0 ≡ some true
      → live now k s ≡ false
  pub set_nx_live :
      (now later : ℕ) (k : Key) (v : Value) (ttl : ℕ) (s : State)
      → (set_nx now k v ttl s).0 ≡ some true
      → later < now + ttl
      → live later k (set_nx now k v ttl s).1 ≡ true
  pub set_nx_other :
      (now later : ℕ) (k j : Key) (v : Value) (ttl : ℕ) (s : State)
      → same_key k j ≡ false
      → live later j (set_nx now k v ttl s).1 ≡ live later j s
  pub del_other :
      (later : ℕ) (k j : Key) (s : State)
      → same_key k j ≡ false
      → live later j (del k s) ≡ live later j s
  pub incr_ex_other :
      (now later : ℕ) (k j : Key) (ttl : ℕ) (s : State)
      → same_key k j ≡ false
      → live later j (incr_ex now k ttl s).1 ≡ live later j s

-- A command that fails, where the service turns the failure into an exception.
abbrev pub or_unavailable : {A : Type 0} → Option A → Result A
or_unavailable none = err Error.unavailable
or_unavailable (some a) = ok a

module _ (redis : Redis) where
  unfoldable pub get_json : ℕ → Key → redis.State → Option Value
  get_json now k s = elim (redis.get now k s) [ none ↦ none | some v ↦ v ]

  unfoldable pub consume_json : ℕ → Key → redis.State → Result (Option Value) × redis.State
  consume_json now k s = let (v, s') = redis.getdel now k s in (or_unavailable v, s')

  unfoldable pub set_json_required :
      ℕ → Key → Value → ℕ → redis.State → Result (Unit {0}) × redis.State
  set_json_required now k v ttl s =
      let (done, s') = redis.set_ex now k v ttl s in (or_unavailable done, s')

  unfoldable pub set_json_if_absent : ℕ → Key → Value → ℕ → redis.State → Result Bool × redis.State
  set_json_if_absent now k v ttl s =
      let (set, s') = redis.set_nx now k v ttl s in (or_unavailable set, s')

  unfoldable pub increment : ℕ → Key → ℕ → redis.State → Result ℕ × redis.State
  increment now k ttl s = let (n, s') = redis.incr_ex now k ttl s in (or_unavailable n, s')
