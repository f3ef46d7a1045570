-- ===== src/Orders/Phone.antt =====
-- `normalizeBelarusPhone` (apps/api/src/orders/phone-number.ts), over the codes of the characters.
pub mod Laws
use bonapp.Base.{
  ℕ, suc, Bool, true, false, List, [], ◌∷◌, ◌++◌, if◌then◌else◌, ◌==◌, ◌&&◌, ◌||◌, leb, select, all,
  length, Result, ok, err, Error,
}

unfoldable pub is_digit : ℕ → Bool
is_digit c = leb b'0' c && leb c b'9'

-- `'375' + digits`
abbrev pub with_country : List ℕ → List ℕ
with_country digits = b'3' ∷ b'7' ∷ b'5' ∷ digits

-- `digits.startsWith('80')`
abbrev pub starts_with_80 : List ℕ → Bool
starts_with_80 (a ∷ b ∷ rest) = a == b'8' && b == b'0'
starts_with_80 _ = false

-- `digits.slice(2)`
abbrev pub slice_2 : List ℕ → List ℕ
slice_2 (a ∷ b ∷ rest) = rest
slice_2 _ = []

unfoldable pub normalized_digits : List ℕ → List ℕ
normalized_digits digits =
    if length digits == 9
    then with_country digits
    else if starts_with_80 digits && length digits == 11
    then with_country (slice_2 digits)
    else digits

-- `25`, `29`, `33` or `44`
abbrev pub is_operator : ℕ → ℕ → Bool
is_operator a b =
    a == b'2' && b == b'5'
    || a == b'2' && b == b'9'
    || a == b'3' && b == b'3'
    || a == b'4' && b == b'4'

-- `/^375(?:25|29|33|44)\d{7}$/`
unfoldable pub is_mobile : List ℕ → Bool
unfolding is_digit
is_mobile (a ∷ b ∷ c ∷ d ∷ e ∷ rest) =
    (a == b'3' && b == b'7' && c == b'5')
    && (is_operator d e && (length rest == 7 && all is_digit rest))
is_mobile _ = false

unfoldable pub normalize_belarus_phone : List ℕ → Result (List ℕ)
unfolding is_digit normalized_digits is_mobile
normalize_belarus_phone phone =
    let digits = normalized_digits (select is_digit phone) in
    if is_mobile digits then ok (b'+' ∷ digits) else err Error.bad_request
