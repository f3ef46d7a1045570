-- ===== src/Auth/Base32.antt =====
-- `base32Encode` and `base32Decode` (apps/api/src/auth/auth.service.ts), over bytes and the codes of
-- characters. `<<` keeps 32 bits; the bits that `>>` and `&` pick lie below them, so the sign does not
-- matter. Upper case is that of ASCII. A character that is not of base 32 makes the decoding fail
-- whatever was decoded before it, so all characters are looked up first.
pub mod RoundTrip
use bonapp.Base.{
  ℕ, zero, suc, ◌+◌, ◌-◌, ◌*◌, ◌/◌, ◌%◌, ◌^◌, Bool, true, false, Option, none, some, List, [], ◌∷◌,
  ◌++◌, map, is_empty, if◌then◌else◌, leb, ltb, ◌==◌, ◌&&◌, Result, ok, err, Error,
}

-- `(value << n) | low`, for `size = 2 ^ n` and `low` of `n` bits
abbrev pub push : ℕ → ℕ → ℕ → ℕ
push value size low = (value * size + low) % 4294967296

-- `(value >> bits) & (size - 1)`
abbrev pub pick : ℕ → ℕ → ℕ → ℕ
pick value bits size = value / 2 ^ bits % size

-- the `while (bits >= 5)`, on fuel; each turn takes 5 bits away, and `bits % 5` are left
unfoldable pub emitted : ℕ → ℕ → ℕ → List ℕ
emitted zero value bits = []
emitted (suc fuel) value bits =
    let rest = emitted fuel value (bits - 5) in
    if leb 5 bits then pick value (bits - 5) 32 ∷ rest else []

-- the loop over the bytes, from the pending bits on
unfoldable pub encode_from : ℕ → ℕ → List ℕ → List ℕ
unfolding emitted
encode_from value bits [] =
    if ltb 0 bits then pick (push value (2 ^ (5 - bits)) 0) 0 32 ∷ [] else []
encode_from value bits (byte ∷ bytes) =
    let v = push value 256 byte in
    emitted (bits + 8) v (bits + 8) ++ encode_from v ((bits + 8) % 5) bytes

-- the loop over the digits
unfoldable pub decode_from : ℕ → ℕ → List ℕ → List ℕ
decode_from value bits [] = []
decode_from value bits (digit ∷ digits) =
    let v = push value 32 digit in
    let more = decode_from v (bits - 3) digits in
    let less = decode_from v (bits + 5) digits in
    if leb 8 (bits + 5) then pick v (bits - 3) 256 ∷ more else less

-- `BASE32_CHARS[digit]`
abbrev pub char_of : ℕ → ℕ
char_of digit = if ltb digit 26 then b'A' + digit else digit - 26 + b'2'

-- `BASE32_CHARS.indexOf(char)`
abbrev pub index_of : ℕ → Option ℕ
index_of c =
    if leb b'A' c && leb c b'Z'
    then some (c - b'A')
    else if leb b'2' c && leb c b'7'
    then some (c - b'2' + 26)
    else none

abbrev pub to_upper_case : ℕ → ℕ
to_upper_case c = if leb b'a' c && leb c b'z' then c - 32 else c

-- `replace(/=+$/, '')`
abbrev pub strip_padding : List ℕ → List ℕ
strip_padding [] = []
strip_padding (c ∷ s) =
    let rest = strip_padding s in if c == b'=' && is_empty rest then [] else c ∷ rest

abbrev pub indices : List ℕ → Option (List ℕ)
indices [] = some []
indices (c ∷ s) = elim (index_of c) [
  | none ↦ none
  | some i ↦ elim (indices s) [ none ↦ none | some l ↦ some (i ∷ l) ]
]

unfoldable pub base32_encode : List ℕ → List ℕ
unfolding encode_from
base32_encode bytes = map char_of (encode_from 0 0 bytes)

unfoldable pub base32_decode : List ℕ → Result (List ℕ)
unfolding decode_from
base32_decode s = elim (indices (strip_padding (map to_upper_case s))) [
  | none ↦ err Error.failure
  | some digits ↦ ok (decode_from 0 0 digits)
]
