-- ===== src/Menu/Names.antt =====
-- `validateName`, `validatePrice` (apps/api/src/menu/menu-catalog.service.ts) and `trim`.
use bonapp.Base.{
  ℕ, Bool, Option, none, some, List, [], ◌∷◌, if◌then◌else◌, ◌&&◌, ◌||◌, leb, ltb, length, all,
  includes, is_empty, Error, require, throw_if, pure,
}
use bonapp.Menu.Rows.{Handler}

-- the white space of `trim`
abbrev pub is_white : ℕ → Bool
is_white c =
    leb 9 c && leb c 13
    || includes c (32 ∷ 160 ∷ 5760 ∷ 8232 ∷ 8233 ∷ 8239 ∷ 8287 ∷ 12288 ∷ 65279 ∷ [])
    || leb 8192 c && leb c 8202

abbrev pub trim_start : List ℕ → List ℕ
trim_start [] = []
trim_start (c ∷ s) = if is_white c then trim_start s else c ∷ s

abbrev pub trim_end : List ℕ → List ℕ
trim_end [] = []
trim_end (c ∷ s) = if is_white c && all is_white s then [] else c ∷ trim_end s

unfoldable pub trim : List ℕ → List ℕ
trim s = trim_end (trim_start s)

unfoldable pub validate_name : List ℕ → Handler (Unit {0})
validate_name name =
    throw_if (is_empty (trim name) || ltb 255 (length (trim name))) Error.bad_request

-- A price is none if it is negative or no integer.
unfoldable pub validate_price : Option ℕ → Handler ℕ
validate_price price = require price Error.bad_request

-- a name that may be left out
abbrev pub check_name : Option (List ℕ) → Handler (Unit {0})
check_name none = pure tt
check_name (some name) = validate_name name
