-- ===== src/Orders/Phone/Laws.antt =====
-- A normalised number is in international form, and normalising it again changes nothing.
use bonapp.Base.{
  ℕ, ◌≡◌, refl, true, List, [], ◌∷◌, arith, length, all, select, ok, err, if◌then◌else◌, Error,
}
use bonapp.Orders.Phone.{is_digit, is_mobile, normalized_digits, normalize_belarus_phone}

select-all : (xs : List ℕ) → all is_digit xs ≡ true → select is_digit xs ≡ xs
select-all [] h = refl
select-all (x ∷ xs) h = ground (arith, select-all xs)

select-of_mobile : (xs : List ℕ) → is_mobile xs ≡ true → select is_digit xs ≡ xs
unfolding is_mobile
select-of_mobile (a ∷ b ∷ c ∷ d ∷ e ∷ rest) h = ground (arith, select-all rest)
select-of_mobile _ h = ground arith

length-of_mobile : (xs : List ℕ) → is_mobile xs ≡ true → length xs ≡ 12
unfolding is_mobile
length-of_mobile (a ∷ b ∷ c ∷ d ∷ e ∷ rest) h = ground arith
length-of_mobile _ h = ground arith

normalized-of_mobile : (xs : List ℕ) → is_mobile xs ≡ true → normalized_digits xs ≡ xs
unfolding normalized_digits
normalized-of_mobile xs h = ground (arith, length-of_mobile xs h)

accepted :
    (digits q : List ℕ)
    → (if is_mobile digits then ok (b'+' ∷ digits) else err Error.bad_request) ≡ ok q
    → (is_mobile digits ≡ true) × (q ≡ b'+' ∷ digits)
accepted digits q h = ground arith

normalize-of_mobile :
    (digits : List ℕ)
    → is_mobile digits ≡ true
    → normalize_belarus_phone (b'+' ∷ digits) ≡ ok (b'+' ∷ digits)
unfolding normalize_belarus_phone
normalize-of_mobile digits h = rw (select-of_mobile digits h, normalized-of_mobile digits h, h)

-- A number that is accepted is returned as thirteen characters, which are accepted again and come
-- back unchanged.
pub normalize_belarus_phone_idem :
    (phone q : List ℕ)
    → normalize_belarus_phone phone ≡ ok q
    → (length q ≡ 13) × (normalize_belarus_phone q ≡ ok q)
unfolding normalize_belarus_phone
normalize_belarus_phone_idem phone q h =
    let digits = normalized_digits (select is_digit phone) in
    let (mobile, same) = accepted digits q h in
    rw same (
      let size : length digits ≡ 12 = length-of_mobile digits mobile in omega arith,
      normalize-of_mobile digits mobile,
    )
