-- ===== src/Database/Found.antt =====
-- What a query finds after an update of the row that it found, where ids are unique.
use bonapp.Base.{
  ℕ, ◌≡◌, ap, sym, refl, ◌∙◌, Bool, true, some, List, [], ◌∷◌, All, any, arith, inl, inr,
  Option-cases, All-weaken,
}
use bonapp.Database.Queries.{Prisma, update_many, All-update_many_step}
use bonapp.Database.Keys.{HasKeys, IsOnly, find_first-IsOnly}

module _ {Row : Type 0} where
  any-listed :
      (filter : Row → Bool) (rows : List Row)
      → All (λ r. filter r ≡ true → any filter rows ≡ true) rows
  any-listed filter [] = tt
  any-listed filter (r ∷ rows) = (
    λ e. ground arith,
    All-weaken (λ x. filter x ≡ true → any filter rows ≡ true)
        (λ x. filter x ≡ true → any filter (r ∷ rows) ≡ true) rows (λ x h e. ground (arith, h e))
        (any-listed filter rows),
  )

  pub find_first-any :
      (db : Prisma) (filter : Row → Bool) (rows : List Row) (o : Row)
      → db.find_first filter rows ≡ some o
      → any filter rows ≡ true
  find_first-any db filter rows o found =
      db.find_first_listed (λ r. filter r ≡ true → any filter rows ≡ true) filter rows o found
        (any-listed filter rows) (db.find_first_matches filter rows o found)

  -- An update that leaves a test alone leaves alone whether some row passes it.
  pub any-update_many :
      (test filter : Row → Bool) (data' : Row → Row) (rows : List Row)
      → ((r : Row) → test (data' r) ≡ test r)
      → any test (update_many filter data' rows) ≡ any test rows
  unfolding update_many
  any-update_many test filter data' [] same = refl
  any-update_many test filter data' (r ∷ rows) same =
      ground (arith, same r, any-update_many test filter data' rows same)

  -- A query by a test that an update leaves alone, where the update reaches what the test fits.
  module _ (id : Row → ℕ) (db : Prisma) (test filter : Row → Bool) (data' : Row → Row)
      (same : (r : Row) → test (data' r) ≡ test r)
      (covers : (r : Row) → test r ≡ true → filter r ≡ true)
      (by_id : (r x : Row) → test r ≡ true → test x ≡ true → id x ≡ id r) where
    updated_only :
        (rows : List Row) (o : Row)
        → test o ≡ true
        → IsOnly id rows o
        → All (λ x. test x ≡ true → x ≡ data' o) (update_many filter data' rows)
    updated_only rows o fits only =
        All-update_many_step (λ x. id x ≡ id o → x ≡ o) (λ x. test x ≡ true → x ≡ data' o) filter
          data' rows (λ x e h f. ap data' (h (by_id o x fits (sym (same x) ∙ f))))
          (λ x e h f. absurd (ground (arith, covers x f))) only

    -- The row that an update by key has changed is found again, with its new values.
    pub find_first-updated :
        (rows : List Row) (o : Row)
        → HasKeys id rows
        → db.find_first test rows ≡ some o
        → db.find_first test (update_many filter data' rows) ≡ some (data' o)
    find_first-updated rows o keys found =
        elim (Option-cases (db.find_first test (update_many filter data' rows))) [
          | inl lost ↦ absurd (
              ground (
                arith,
                db.find_first_none test (update_many filter data' rows) lost,
                any-update_many test filter data' rows same,
                find_first-any db test rows o found,
              ))
          | inr (x, again) ↦
              again
              ∙ ap some (
                  db.find_first_listed (λ y. test y ≡ true → y ≡ data' o) test
                    (update_many filter data' rows) x again
                    (updated_only rows o (db.find_first_matches test rows o found)
                      (find_first-IsOnly id db test rows o keys found))
                    (db.find_first_matches test (update_many filter data' rows) x again))
        ]

  pub find_first-update_many :
      (id : Row → ℕ) (db : Prisma) (filter : Row → Bool) (data' : Row → Row)
      → ((r : Row) → filter (data' r) ≡ filter r)
      → ((r x : Row) → filter r ≡ true → filter x ≡ true → id x ≡ id r)
      → (rows : List Row) (o : Row) → HasKeys id rows
      → db.find_first filter rows ≡ some o
      → db.find_first filter (update_many filter data' rows) ≡ some (data' o)
  find_first-update_many id db filter data' same by_id =
      find_first-updated id db filter filter data' same (λ r e. e) by_id
