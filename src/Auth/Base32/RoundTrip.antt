-- ===== src/Auth/Base32/RoundTrip.antt =====
-- What is encoded is decoded again.
use bonapp.Base.{
  ℕ, zero, suc, ◌+◌, ◌-◌, ◌*◌, ◌%◌, ◌<◌, ◌≡◌, refl, ap, ◌∙◌, List, [], ◌∷◌, map, arith, All,
  All-append, ok, some, none, Option, Result, err, Error, ◌==◌, false, leb, ltb, Bool-cases, inl,
  inr,
}
use bonapp.Auth.Base32.{
  push, pick, emitted, encode_from, decode_from, char_of, index_of, to_upper_case, strip_padding,
  indices, base32_encode, base32_decode,
}

abbrev pub AreBytes : List ℕ → Type 0
AreBytes bytes = All (λ b. b < 256) bytes

cons : (a b : ℕ) (l l' : List ℕ) → a ≡ b → l ≡ l' → (a ∷ l) ≡ (b ∷ l')
cons a b l l' e h = ap (λ x. x ∷ l) e ∙ ap (λ x. b ∷ x) h

-- With `e` bits of a byte pending in the encoder, the other `8 - e` are in the decoder.
mutual
  unfolding encode_from decode_from emitted

  from_0 :
      (w v : ℕ) (bytes : List ℕ) → AreBytes bytes → decode_from w 0 (encode_from v 0 bytes) ≡ bytes
  from_0 w v [] h = refl
  from_0 w v (b ∷ bytes) h =
      let v' : ℕ = push v 256 b in
      from_3 (push w 32 (pick v' 3 32)) v' bytes h.1 ∙ ap (λ x. x ∷ bytes) (omega (arith, h.0))

  from_3 :
      (w v : ℕ) (bytes : List ℕ)
      → AreBytes bytes
      → decode_from w 5 (encode_from v 3 bytes) ≡ (w % 32 * 8 + v % 8) ∷ bytes
  from_3 w v [] h = ap (λ x. x ∷ []) (omega arith)
  from_3 w v (b ∷ bytes) h =
      let v' : ℕ = push v 256 b in
      let w' : ℕ = push w 32 (pick v' 6 32) in
      cons (pick w' 2 256) (w % 32 * 8 + v % 8) _ (b ∷ bytes) (omega (arith, h.0))
        (from_1 (push w' 32 (pick v' 1 32)) v' bytes h.1 ∙ ap (λ x. x ∷ bytes) (omega (arith, h.0)))

  from_1 :
      (w v : ℕ) (bytes : List ℕ)
      → AreBytes bytes
      → decode_from w 7 (encode_from v 1 bytes) ≡ (w % 128 * 2 + v % 2) ∷ bytes
  from_1 w v [] h = ap (λ x. x ∷ []) (omega arith)
  from_1 w v (b ∷ bytes) h =
      let v' : ℕ = push v 256 b in
      let w' : ℕ = push w 32 (pick v' 4 32) in
      cons (pick w' 4 256) (w % 128 * 2 + v % 2) _ (b ∷ bytes) (omega (arith, h.0))
        (from_4 w' v' bytes h.1 ∙ ap (λ x. x ∷ bytes) (omega (arith, h.0)))

  from_4 :
      (w v : ℕ) (bytes : List ℕ)
      → AreBytes bytes
      → decode_from w 4 (encode_from v 4 bytes) ≡ (w % 16 * 16 + v % 16) ∷ bytes
  from_4 w v [] h = ap (λ x. x ∷ []) (omega arith)
  from_4 w v (b ∷ bytes) h =
      let v' : ℕ = push v 256 b in
      let w' : ℕ = push w 32 (pick v' 7 32) in
      cons (pick w' 1 256) (w % 16 * 16 + v % 16) _ (b ∷ bytes) (omega (arith, h.0))
        (from_2 (push w' 32 (pick v' 2 32)) v' bytes h.1 ∙ ap (λ x. x ∷ bytes) (omega (arith, h.0)))

  from_2 :
      (w v : ℕ) (bytes : List ℕ)
      → AreBytes bytes
      → decode_from w 6 (encode_from v 2 bytes) ≡ (w % 64 * 4 + v % 4) ∷ bytes
  from_2 w v [] h = ap (λ x. x ∷ []) (omega arith)
  from_2 w v (b ∷ bytes) h =
      let v' : ℕ = push v 256 b in
      let w' : ℕ = push w 32 (pick v' 5 32) in
      let w'' : ℕ = push w' 32 (pick v' 0 32) in
      cons (pick w' 3 256) (w % 64 * 4 + v % 4) _ (b ∷ bytes) (omega (arith, h.0))
        (cons (pick w'' 0 256) b _ bytes (omega (arith, h.0)) (from_0 w'' v' bytes h.1))

abbrev AreDigits : List ℕ → Type 0
AreDigits digits = All (λ d. d < 32) digits

emitted-AreDigits : (fuel value bits : ℕ) → AreDigits (emitted fuel value bits)
unfolding emitted
emitted-AreDigits zero value bits = tt
emitted-AreDigits (suc fuel) value bits = elim (Bool-cases (leb 5 bits)) [
  | inl more ↦ rw more (omega arith, emitted-AreDigits fuel value (bits - 5))
  | inr done ↦ rw done tt
]

encode_from-AreDigits : (value bits : ℕ) (bytes : List ℕ) → AreDigits (encode_from value bits bytes)
unfolding encode_from
encode_from-AreDigits value bits [] = elim (Bool-cases (ltb 0 bits)) [
  | inl some_left ↦ rw some_left (omega arith, tt)
  | inr none_left ↦ rw none_left tt
]
encode_from-AreDigits value bits (byte ∷ bytes) =
    let v : ℕ = push value 256 byte in
    All-append (λ d. d < 32) (emitted (bits + 8) v (bits + 8))
      (encode_from v ((bits + 8) % 5) bytes) (emitted-AreDigits (bits + 8) v (bits + 8))
      (encode_from-AreDigits v ((bits + 8) % 5) bytes)

index_of-char_of : (d : ℕ) → d < 32 → index_of (char_of d) ≡ some d
index_of-char_of d h = ground arith

to_upper_case-char_of : (d : ℕ) → d < 32 → to_upper_case (char_of d) ≡ char_of d
to_upper_case-char_of d h = ground arith

char_of-padding : (d : ℕ) → d < 32 → (char_of d == b'=') ≡ false
char_of-padding d h = ground arith

indices-map : (ds : List ℕ) → AreDigits ds → indices (map char_of ds) ≡ some ds
indices-map [] h = refl
indices-map (d ∷ ds) h =
    ap
      (λ o. elim o as (λ x. Option (List ℕ)) [
        | none ↦ none
        | some i ↦ elim (indices (map char_of ds)) [ none ↦ none | some l ↦ some (i ∷ l) ]
      ])
      (index_of-char_of d h.0)
    ∙ ap (λ o. elim o as (λ x. Option (List ℕ)) [ none ↦ none | some l ↦ some (d ∷ l) ])
        (indices-map ds h.1)

map-map : (ds : List ℕ) → AreDigits ds → map to_upper_case (map char_of ds) ≡ map char_of ds
map-map [] h = refl
map-map (d ∷ ds) h =
    cons (to_upper_case (char_of d)) (char_of d) _ _ (to_upper_case-char_of d h.0) (map-map ds h.1)

strip_padding-map : (ds : List ℕ) → AreDigits ds → strip_padding (map char_of ds) ≡ map char_of ds
strip_padding-map [] h = refl
strip_padding-map (d ∷ ds) h =
    rw (char_of-padding d h.0) (ap (λ s. char_of d ∷ s) (strip_padding-map ds h.1))

-- What `base32Encode` makes of a list of bytes is decoded by `base32Decode` to the same bytes.
pub base32_decode-base32_encode :
    (bytes : List ℕ) → AreBytes bytes → base32_decode (base32_encode bytes) ≡ ok bytes
unfolding base32_encode base32_decode
base32_decode-base32_encode bytes h =
    let ds : List ℕ = encode_from 0 0 bytes in
    let small : AreDigits ds = encode_from-AreDigits 0 0 bytes in
    ap
      (λ (o : Option (List ℕ)). elim o as (λ x. Result (List ℕ)) [
        | none ↦ err Error.failure
        | some l ↦ ok (decode_from 0 0 l)
      ])
      (ap (λ s. indices (strip_padding s)) (map-map ds small)
        ∙ (ap indices (strip_padding-map ds small) ∙ indices-map ds small))
    ∙ ap ok (from_0 0 0 bytes h)
