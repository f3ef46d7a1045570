-- ===== src/Database/Instance.antt =====
-- A choice of rows that meets Prisma's contract: the first row that satisfies the filter.
use bonapp.Base.{
  ◌≡◌, refl, Bool, true, false, Option, none, some, List, [], ◌∷◌, arith, if◌then◌else◌, any, All,
  Bool-cases, inl, inr,
}
use mathlib.Core.Path.{subst}
use bonapp.Database.Queries.{Prisma}

module _ {Row : Type 0} where
  abbrev first : (Row → Bool) → List Row → Option Row
  first filter [] = none
  first filter (r ∷ rows) = if filter r then some r else first filter rows

  pub first_matches :
      (filter : Row → Bool) (rows : List Row) (r : Row)
      → first filter rows ≡ some r
      → filter r ≡ true
  first_matches filter [] r e = cc
  first_matches filter (x ∷ rows) r e = ground (arith, first_matches filter rows r)

  pub first_listed :
      (P : Row → Type 0) (filter : Row → Bool) (rows : List Row) (r : Row)
      → first filter rows ≡ some r
      → All P rows
      → P r
  first_listed P filter [] r e h = cc
  first_listed P filter (x ∷ rows) r e h = elim (Bool-cases (filter x)) [
    | inl here ↦ let same : x ≡ r = ground arith in subst P same h.0
    | inr later ↦ first_listed P filter rows r (ground arith) h.1
  ]

  pub first-none :
      (filter : Row → Bool) (rows : List Row) → first filter rows ≡ none → any filter rows ≡ false
  first-none filter [] e = refl
  first-none filter (x ∷ rows) e = ground (arith, first-none filter rows)

abbrev pub first_row : Prisma
first_row = record {
  find_first = first;
  find_first_matches = first_matches;
  find_first_listed = first_listed;
  find_first_none = first-none;
}
