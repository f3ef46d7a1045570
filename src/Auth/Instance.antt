-- ===== src/Auth/Instance.antt =====
-- A map with expiry times that meets the contract of Redis.
use bonapp.Base.{
  ℕ, ◌+◌, ◌<◌, ◌≤◌, ◌≡◌, refl, Bool, true, false, Option, none, some, arith, ltb, if◌then◌else◌,
  inl, inr, Bool-cases,
}
use bonapp.Auth.Cache.{Redis, Key, Value, same_key}

-- a value with the moment at which it expires
pub record Entry : Type 0 where
  pub value : Value
  pub expires : ℕ

abbrev pub Map : Type 0
Map = Key → Option Entry

abbrev pub is_live : ℕ → Option Entry → Bool
is_live now none = false
is_live now (some e) = ltb now e.expires

abbrev pub value_of : ℕ → Option Entry → Option Value
value_of now none = none
value_of now (some e) = if ltb now e.expires then some e.value else none

abbrev pub put : Key → Option Entry → Map → Map
put k e s j = if same_key k j then e else s j

abbrev pub entry : Value → ℕ → Entry
entry v expires = record { value = v; expires = expires }

-- the next count, and the entry that holds it
abbrev pub next_count : ℕ → ℕ → Option Entry → ℕ × Entry
next_count now ttl none = (1, entry (Value.number 1) (now + ttl))
next_count now ttl (some e) =
    if ltb now e.expires
    then (elim e.value [
      | Value.number n ↦ (n + 1, entry (Value.number (n + 1)) e.expires)
      | Value.challenge c ↦ (1, entry (Value.number 1) (now + ttl))
    ])
    else (1, entry (Value.number 1) (now + ttl))

pub same_key_refl : (k : Key) → same_key k k ≡ true
same_key_refl (Key.pin_attempts a b) = ground arith
same_key_refl (Key.login_attempts a b) = ground arith
same_key_refl (Key.totp_fails a) = ground arith
same_key_refl (Key.totp_challenge a) = ground arith
same_key_refl (Key.totp_used a b) = ground arith
same_key_refl (Key.revoked a) = ground arith
same_key_refl (Key.staff_attempts a) = ground arith

pub value_of-is_live :
    (now : ℕ) (e : Option Entry) (v : Value) → value_of now e ≡ some v → is_live now e ≡ true
value_of-is_live now none v h = absurd (ground arith)
value_of-is_live now (some e) v h = ground arith

abbrev pub try_put : ℕ → Key → Value → ℕ → Map → Option Bool × Map
try_put now k v ttl s =
    if is_live now (s k) then (some false, s) else (some true, put k (some (entry v (now + ttl))) s)

pub try_put-free :
    (now : ℕ) (k : Key) (v : Value) (ttl : ℕ) (s : Map)
    → (try_put now k v ttl s).0 ≡ some true
    → is_live now (s k) ≡ false
try_put-free now k v ttl s h = ground arith

pub try_put-live :
    (now later : ℕ) (k : Key) (v : Value) (ttl : ℕ) (s : Map)
    → (try_put now k v ttl s).0 ≡ some true
    → later < now + ttl
    → is_live later ((try_put now k v ttl s).1 k) ≡ true
try_put-live now later k v ttl s h soon =
    rw (try_put-free now k v ttl s h, same_key_refl k) (ground arith)

pub try_put-other :
    (now later : ℕ) (k j : Key) (v : Value) (ttl : ℕ) (s : Map)
    → same_key k j ≡ false
    → is_live later ((try_put now k v ttl s).1 j) ≡ is_live later (s j)
try_put-other now later k j v ttl s other = elim (Bool-cases (is_live now (s k))) [
  | inl taken ↦ rw taken refl
  | inr free ↦ rw (free, other) refl
]

is_live-earlier :
    (now later : ℕ) (e : Option Entry) → now ≤ later → is_live later e ≡ true → is_live now e ≡ true
is_live-earlier now later none h live = absurd (ground arith)
is_live-earlier now later (some e) h live = ground arith

pub try_put-kept :
    (now later : ℕ) (k : Key) (v : Value) (ttl : ℕ) (s : Map)
    → now ≤ later
    → is_live later (s k) ≡ true
    → is_live later ((try_put now k v ttl s).1 k) ≡ true
try_put-kept now later k v ttl s h live = rw (is_live-earlier now later (s k) h live) live

abbrev pub expiring_map : Redis
expiring_map = record {
  State = Map;
  live = λ now k s. is_live now (s k);
  get = λ now k s. some (value_of now (s k));
  getdel = λ now k s. (some (value_of now (s k)), put k none s);
  set_ex = λ now k v ttl s. (some tt, put k (some (entry v (now + ttl))) s);
  set_nx = try_put;
  del = λ k s. put k none s;
  incr_ex = λ now k ttl s. let (n, e) = next_count now ttl (s k) in (some n, put k (some e) s);
  getdel_live = λ now k v s h. value_of-is_live now (s k) v (ground arith);
  getdel_gone = λ now later k v s h. rw (same_key_refl k) refl;
  getdel_other = λ now later k j s other. rw other refl;
  set_ex_live = λ now later k v ttl s done soon. rw (same_key_refl k) (ground arith);
  set_ex_other = λ now later k j v ttl s other. rw other refl;
  set_ex_kept = λ now later k v ttl s soon live. rw (same_key_refl k) (ground arith);
  set_nx_kept = try_put-kept;
  set_nx_free = try_put-free;
  set_nx_live = try_put-live;
  set_nx_other = try_put-other;
  del_other = λ later k j s other. rw other refl;
  incr_ex_other = λ now later k j ttl s other. rw other refl;
}
