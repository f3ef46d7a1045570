-- ===== src/Pos/Network.antt =====
-- Which hosts and addresses the API asks for a POS (apps/api/src/onboarding/pos-network.ts):
-- `isPublicIpv4`, `selectPublicIpv4`, `isAllowedPosHost`. `isIP` of node:net is a parameter.
pub mod Blocks
pub mod Requests
pub mod Iiko
use bonapp.Base.{
  ℕ, suc, zero, ◌+◌, ◌/◌, ◌%◌, ◌≡◌, ◌<◌, Bool, true, false, Option, none, some, List, [], ◌∷◌, ◌++◌,
  map, if◌then◌else◌, ◌==◌, ◌&&◌, ◌||◌, not, leb, ltb, select, any, is_empty, Result, ok, err,
  Error, option_is, includes_text, split, number, to_lower,
}
use bonapp.Menu.Names.{trim}

-- a number from 0 to 255 in decimal digits, with no zero in front
abbrev pub octet_text : ℕ → List ℕ
octet_text n =
    if ltb n 10
    then (b'0' + n) ∷ []
    else if ltb n 100
    then (b'0' + n / 10) ∷ (b'0' + n % 10) ∷ []
    else (b'0' + n / 100) ∷ (b'0' + n / 10 % 10) ∷ (b'0' + n % 10) ∷ []

-- an IPv4 address in dotted decimal notation
unfoldable pub dotted : ℕ → ℕ → ℕ → ℕ → List ℕ
dotted a b c d =
    octet_text a ++ b'.' ∷ (octet_text b ++ b'.' ∷ (octet_text c ++ b'.' ∷ octet_text d))

-- The four octets of an address.
pub record Octets (s : List ℕ) : Type 0 where
  pub a : ℕ
  pub b : ℕ
  pub c : ℕ
  pub d : ℕ
  pub small_a : a < 256
  pub small_b : b < 256
  pub small_c : c < 256
  pub small_d : d < 256
  pub is_dotted : s ≡ dotted a b c d

-- `isIP` gives 4 for IPv4 addresses in dotted decimal notation only, with no leading zeros.
pub record Net : Type 0 where
  pub is_ip : List ℕ → ℕ
  pub is_ip_four : (s : List ℕ) → is_ip s ≡ 4 → Octets s

-- `xs[i]`, undefined out of range; a number that is none is NaN or undefined
abbrev pub at : List (Option ℕ) → ℕ → Option ℕ
at [] i = none
at (x ∷ xs) zero = x
at (x ∷ xs) (suc i) = at xs i

-- Comparisons with undefined and NaN are false.
abbrev pub at_least : Option ℕ → ℕ → Bool
at_least none k = false
at_least (some n) k = leb k n

abbrev pub at_most : Option ℕ → ℕ → Bool
at_most none k = false
at_most (some n) k = leb n k

-- the ranges that `isPublicIpv4` excludes
unfoldable pub is_special : Option ℕ → Option ℕ → Option ℕ → Bool
is_special a b c =
    option_is a 0
    || option_is a 10
    || option_is a 127
    || at_least a 224
    || option_is a 100 && at_least b 64 && at_most b 127
    || option_is a 169 && option_is b 254
    || option_is a 172 && at_least b 16 && at_most b 31
    || option_is a 192
      && (option_is b 168
          || option_is b 0 && option_is c 0
          || option_is b 0 && option_is c 2
          || option_is b 88 && option_is c 99
          || option_is b 168 && option_is c 0)
    || option_is a 198 && (option_is b 18 || option_is b 19 || option_is b 51 && option_is c 100)
    || option_is a 203 && option_is b 0 && option_is c 113

-- `lookup` of node:dns gives such entries.
pub record Entry : Type 0 where
  pub address : List ℕ
  pub family : ℕ

module _ (net : Net) where
  unfoldable pub is_public_ipv4 : List ℕ → Bool
  unfolding is_special
  is_public_ipv4 address =
      let octets = map number (split b'.' address) in
      if not (net.is_ip address == 4)
      then false
      else not (is_special (at octets 0) (at octets 1) (at octets 2))

  abbrev pub first_address : List Entry → Result (List ℕ)
  first_address [] = err Error.failure
  first_address (e ∷ _) = ok e.address

  unfoldable pub select_public_ipv4 : List Entry → Result (List ℕ)
  select_public_ipv4 addresses =
      let ipv4 = select (λ (e : Entry). e.family == 4) addresses in
      if any (λ (e : Entry). not (is_public_ipv4 e.address)) ipv4
      then err Error.failure
      else first_address ipv4

unfoldable pub is_allowed_pos_host : List ℕ → List ℕ → Bool
unfolding trim
is_allowed_pos_host host configured =
    let allowed =
      select (λ w. not (is_empty w)) (map (λ w. to_lower (trim w)) (split b',' configured)) in
    includes_text (to_lower host) allowed
