-- ===== src/Pos/Network/Blocks.antt =====
-- The addresses that are not public, as the blocks of IPv4 that are reserved, and `isPublicIpv4`
-- against them.
use bonapp.Base.{
  ℕ, ◌+◌, ◌*◌, ◌/◌, ◌^◌, ◌≡◌, ◌↔◌, ◌<◌, Bool, true, false, not, ◌&&◌, ◌||◌, some, List, [], ◌∷◌,
  ◌++◌, map, ◌==◌, arith, split, number, split-append, split-lacking, includes, leb,
}
use bonapp.Pos.Network.{Net, Octets, octet_text, dotted, is_special, is_public_ipv4}

-- The address as a number of 32 bits.
abbrev pub value_of : ℕ → ℕ → ℕ → ℕ → ℕ
value_of a b c d = a * 2 ^ 24 + b * 2 ^ 16 + c * 2 ^ 8 + d

-- The addresses whose first `32 - free` bits are those of the given one.
abbrev pub in_block : ℕ → ℕ → ℕ → Bool
in_block base free v = v / 2 ^ free == base / 2 ^ free

-- This network, 10/8, loopback, multicast and reserved (224/3), shared address space, link local,
-- 172.16/12, 192.168/16, protocol assignments, documentation, relays of 6to4, benchmarks.
abbrev pub is_reserved : ℕ → Bool
is_reserved v =
    in_block (value_of 0 0 0 0) 24 v
    || in_block (value_of 10 0 0 0) 24 v
    || in_block (value_of 127 0 0 0) 24 v
    || in_block (value_of 224 0 0 0) 29 v
    || in_block (value_of 100 64 0 0) 22 v
    || in_block (value_of 169 254 0 0) 16 v
    || in_block (value_of 172 16 0 0) 20 v
    || (in_block (value_of 192 168 0 0) 16 v
        || in_block (value_of 192 0 0 0) 8 v
        || in_block (value_of 192 0 2 0) 8 v
        || in_block (value_of 192 88 99 0) 8 v)
    || (in_block (value_of 198 18 0 0) 17 v || in_block (value_of 198 51 100 0) 8 v)
    || in_block (value_of 203 0 113 0) 8 v

octet-number : (n : ℕ) → n < 256 → number (octet_text n) ≡ some n
octet-number n h = ground arith

octet-lacks : (n : ℕ) → n < 256 → includes b'.' (octet_text n) ≡ false
octet-lacks n h = ground arith

split_dotted :
    (s : List ℕ) (o : Octets s)
    → map number (split b'.' s) ≡ some o.a ∷ some o.b ∷ some o.c ∷ some o.d ∷ []
unfolding dotted
split_dotted s o = rw o.is_dotted (
    simp (
      split-append b'.' (octet_text o.a)
          (octet_text o.b ++ b'.' ∷ (octet_text o.c ++ b'.' ∷ octet_text o.d))
          (octet-lacks o.a o.small_a),
      split-append b'.' (octet_text o.b) (octet_text o.c ++ b'.' ∷ octet_text o.d)
          (octet-lacks o.b o.small_b),
      split-append b'.' (octet_text o.c) (octet_text o.d) (octet-lacks o.c o.small_c),
      split-lacking b'.' (octet_text o.d) (octet-lacks o.d o.small_d),
      octet-number o.a o.small_a,
      octet-number o.b o.small_b,
      octet-number o.c o.small_c,
      octet-number o.d o.small_d,
    ))

module _ (a b c d : ℕ) (sa : a < 256) (sb : b < 256) (sc : c < 256) (sd : d < 256) where
  head_24 : (k : ℕ) → k < 256 → in_block (value_of k 0 0 0) 24 (value_of a b c d) ≡ (a == k)
  head_24 k h = ground arith

  classes : in_block (value_of 224 0 0 0) 29 (value_of a b c d) ≡ leb 224 a
  classes = ground arith

  shared :
      in_block (value_of 100 64 0 0) 22 (value_of a b c d) ≡ (a == 100 && leb 64 b && leb b 127)
  shared = ground arith

  head_16 :
      (k l : ℕ)
      → k < 256
      → l < 256
      → in_block (value_of k l 0 0) 16 (value_of a b c d) ≡ (a == k && b == l)
  head_16 k l h j = ground arith

  private :
      in_block (value_of 172 16 0 0) 20 (value_of a b c d) ≡ (a == 172 && leb 16 b && leb b 31)
  private = ground arith

  head_8 :
      (k l m : ℕ)
      → k < 256
      → l < 256
      → m < 256
      → in_block (value_of k l m 0) 8 (value_of a b c d) ≡ (a == k && b == l && c == m)
  head_8 k l m h j i = ground arith

  benchmark :
      in_block (value_of 198 18 0 0) 17 (value_of a b c d) ≡ (a == 198 && (b == 18 || b == 19))
  benchmark = ground arith

  special-reserved : is_special (some a) (some b) (some c) ≡ is_reserved (value_of a b c d)
  unfolding is_special
  special-reserved =
      rw
        (
          head_24 0 (omega arith),
          head_24 10 (omega arith),
          head_24 127 (omega arith),
          classes,
          shared,
          head_16 169 254 (omega arith) (omega arith),
          private,
          head_16 192 168 (omega arith) (omega arith),
          head_8 192 0 0 (omega arith) (omega arith) (omega arith),
          head_8 192 0 2 (omega arith) (omega arith) (omega arith),
          head_8 192 88 99 (omega arith) (omega arith) (omega arith),
          benchmark,
          head_8 198 51 100 (omega arith) (omega arith) (omega arith),
          head_8 203 0 113 (omega arith) (omega arith) (omega arith),
        )
        (ground arith)

abbrev pub address_value : {s : List ℕ} → Octets s → ℕ
address_value o = value_of o.a o.b o.c o.d

dotted-public :
    (net : Net) (s : List ℕ) (o : Octets s)
    → net.is_ip s ≡ 4
    → is_public_ipv4 net s ≡ not (is_reserved (address_value o))
unfolding is_public_ipv4
dotted-public net s o four = rw (
  split_dotted s o,
  four,
  special-reserved o.a o.b o.c o.d o.small_a o.small_b o.small_c o.small_d,
)

opposite : (p r : Bool) → p ≡ not r → (p ≡ true) ↔ (r ≡ false)
opposite p true e = ground arith
opposite p false e = ground arith

is_public_ipv4-is_ip : (net : Net) (s : List ℕ) → is_public_ipv4 net s ≡ true → net.is_ip s ≡ 4
unfolding is_public_ipv4
is_public_ipv4-is_ip net s accepted = ground arith

-- `isPublicIpv4` accepts a text exactly if it is an IPv4 address and its 32 bits lie in none of the
-- reserved blocks.
pub is_public_ipv4_iff :
    (net : Net) (s : List ℕ)
    → (is_public_ipv4 net s ≡ true)
      ↔ ((four : net.is_ip s ≡ 4) × (is_reserved (address_value (net.is_ip_four s four)) ≡ false))
is_public_ipv4_iff net s =
    let same = λ (four : net.is_ip s ≡ 4).
      opposite (is_public_ipv4 net s) (is_reserved (address_value (net.is_ip_four s four)))
        (dotted-public net s (net.is_ip_four s four) four) in
    (
      λ accepted. let four = is_public_ipv4-is_ip net s accepted in (four, (same four).0 accepted),
      λ (four, free). (same four).1 free,
    )
