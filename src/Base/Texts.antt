-- ===== src/Base/Texts.antt =====
-- Texts as lists of character codes, with the methods of JavaScript's strings that several parts use:
-- `split` at one character, `toLowerCase` and `Number` for ASCII texts, and `===`.
use Prim.Native.Nat.{ℕ, ◌+◌, ◌-◌, ◌*◌}
use Prim.Native.Char.{code}
use Prim.Native.String.{String}
use mathlib.Core.Path.{◌≡◌, refl}
use mathlib.Core.Bool.{Bool, true, false, ◌&&◌}
use mathlib.Core.Option.{Option, none, some}
use mathlib.Core.List.{List, [], ◌∷◌, ◌++◌}
use native.Mathlib.Omega.{arith}
use bonapp.Base.Tests.{if◌then◌else◌, ◌==◌, leb}
use bonapp.Base.Lists.{all, includes}

-- The codes of a text of the source.
abbrev pub codes : String → List ℕ
codes String.[] = []
codes (String.◌∷◌ c s) = code c ∷ codes s

abbrev pub same_codes : List ℕ → List ℕ → Bool
same_codes [] [] = true
same_codes (a ∷ s) (b ∷ t) = a == b && same_codes s t
same_codes _ _ = false

-- `texts.includes(s)`
abbrev pub includes_text : List ℕ → List (List ℕ) → Bool
includes_text s [] = false
includes_text s (t ∷ texts) = if same_codes t s then true else includes_text s texts

abbrev pub before_first : ℕ → List (List ℕ) → List (List ℕ)
before_first c [] = (c ∷ []) ∷ []
before_first c (w ∷ words) = (c ∷ w) ∷ words

-- `s.split(sep)`
abbrev pub split : ℕ → List ℕ → List (List ℕ)
split sep [] = [] ∷ []
split sep (c ∷ s) = let rest = split sep s in if c == sep then [] ∷ rest else before_first c rest

pub split-lacking : (sep : ℕ) (w : List ℕ) → includes sep w ≡ false → split sep w ≡ w ∷ []
split-lacking sep [] h = refl
split-lacking sep (c ∷ w) h = ground (arith, split-lacking sep w)

pub split-append :
    (sep : ℕ) (w rest : List ℕ)
    → includes sep w ≡ false
    → split sep (w ++ sep ∷ rest) ≡ w ∷ split sep rest
split-append sep [] rest h = ground arith
split-append sep (c ∷ w) rest h = ground (arith, split-append sep w rest)

abbrev pub to_lower : List ℕ → List ℕ
to_lower [] = []
to_lower (c ∷ s) = (if leb b'A' c && leb c b'Z' then c + 32 else c) ∷ to_lower s

abbrev pub is_decimal : ℕ → Bool
is_decimal c = leb b'0' c && leb c b'9'

abbrev pub digits_value : ℕ → List ℕ → ℕ
digits_value n [] = n
digits_value n (c ∷ s) = digits_value (n * 10 + (c - b'0')) s

-- `Number(s)` of decimal digits; none stands for NaN, and for the other spellings of a number.
abbrev pub number : List ℕ → Option ℕ
number s = if all is_decimal s then some (digits_value 0 s) else none
