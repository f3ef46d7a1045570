-- ===== src/Database/Queries.antt =====
-- The queries. Which row `findFirst` returns is Prisma's choice, and a parameter; what an UPDATE
-- leaves of a table is a function of its `where` and `data`.
use bonapp.Base.{
  ◌⊎◌, inl, inr, ℕ, suc, ◌≡◌, refl, Bool, true, false, Option, none, some, List, [], ◌∷◌, ◌++◌,
  if◌then◌else◌, any, All, Result, ok, err, Error, Keeps,
}
use bonapp.Database.Tables.{Store, Event}

-- `findFirst` returns a row of the table that satisfies the filter, or null if there is none.
pub record Prisma : Type 1 where
  pub find_first : {Row : Type 0} → (Row → Bool) → List Row → Option Row
  pub find_first_matches :
      {Row : Type 0} (filter : Row → Bool) (rows : List Row) (r : Row)
      → find_first filter rows ≡ some r
      → filter r ≡ true
  pub find_first_listed :
      {Row : Type 0} (P : Row → Type 0) (filter : Row → Bool) (rows : List Row) (r : Row)
      → find_first filter rows ≡ some r
      → All P rows
      → P r
  pub find_first_none :
      {Row : Type 0} (filter : Row → Bool) (rows : List Row)
      → find_first filter rows ≡ none
      → any filter rows ≡ false

module _ {Row : Type 0} where
  -- `updateMany`: the rows afterwards, and `count`
  unfoldable pub update_many : (Row → Bool) → (Row → Row) → List Row → List Row
  update_many filter data' [] = []
  update_many filter data' (r ∷ rows) =
      (if filter r then data' r else r) ∷ update_many filter data' rows

  unfoldable pub count : (Row → Bool) → List Row → ℕ
  count filter [] = 0
  count filter (r ∷ rows) = if filter r then suc (count filter rows) else count filter rows

  -- What holds of every row still does if the update keeps it where its filter holds.
  pub All-update_many :
      (P : Row → Type 0) (filter : Row → Bool) (data' : Row → Row) (rows : List Row)
      → ((r : Row) → filter r ≡ true → P r → P (data' r))
      → All P rows
      → All P (update_many filter data' rows)
  unfolding update_many
  All-update_many P filter data' [] keep h = tt
  All-update_many P filter data' (r ∷ rows) keep h =
      (one (filter r) refl, All-update_many P filter data' rows keep h.1)
    where
      one : (b : Bool) → filter r ≡ b → P (if b then data' r else r)
      one true e = keep r e h.0
      one false e = h.0

  -- What holds of every row becomes what the update makes of it.
  pub All-update_many_step :
      (P Q : Row → Type 0) (filter : Row → Bool) (data' : Row → Row) (rows : List Row)
      → ((r : Row) → filter r ≡ true → P r → Q (data' r))
      → ((r : Row) → filter r ≡ false → P r → Q r)
      → All P rows
      → All Q (update_many filter data' rows)
  unfolding update_many
  All-update_many_step P Q filter data' [] set keep h = tt
  All-update_many_step P Q filter data' (r ∷ rows) set keep h =
      (one (filter r) refl, All-update_many_step P Q filter data' rows set keep h.1)
    where
      one : (b : Bool) → filter r ≡ b → Q (if b then data' r else r)
      one true e = set r e h.0
      one false e = keep r e h.0

  -- After an update, a row that the filter fits has what the new values have.
  pub All-update_many_set :
      (Good : Row → Type 0) (filter : Row → Bool) (data' : Row → Row) (rows : List Row)
      → ((r : Row) → filter r ≡ true → Good (data' r))
      → All (λ r. (filter r ≡ false) ⊎ Good r) (update_many filter data' rows)
  unfolding update_many
  All-update_many_set Good filter data' [] good = tt
  All-update_many_set Good filter data' (r ∷ rows) good =
      (one (filter r) refl, All-update_many_set Good filter data' rows good)
    where
      one :
          (b : Bool)
          → filter r ≡ b
          → (filter (if b then data' r else r) ≡ false) ⊎ Good (if b then data' r else r)
      one true e = inr (good r e)
      one false e = inl e

written :
    (P : Store → Type 0) (b : Bool) (s s' : Store)
    → P s
    → P s'
    → P (if◌then◌else◌ {A = Result (Unit {0}) × Store} b (ok tt, s') (err Error.failure, s)).1
written P true s s' h k = k
written P false s s' h k = h

-- `updateMany` on one table of the store, for a lens given by its two parts.
module _ {Row : Type 0} (get : Store → List Row) (put : List Row → Store → Store) where
  -- `update` by a unique key: it throws where no row has the key
  abbrev pub update_unique : (Row → Bool) → (Row → Row) → Store → Result (Unit {0}) × Store
  update_unique key data' s =
      if any key (get s)
      then (ok tt, put (update_many key data' (get s)) s)
      else (err Error.failure, s)

  -- A property of the store that the write keeps is kept, also where no row has the key.
  pub update_unique-Keeps :
      {P : Store → Type 0} (key : Row → Bool) (data' : Row → Row)
      → ((s : Store) → P s → P (put (update_many key data' (get s)) s))
      → Keeps P (update_unique key data')
  update_unique-Keeps {P} key data' k = record {
    keep = λ s h. written P (any key (get s)) s _ h (k s h);
  }

-- a message or a job, in the order of sending
abbrev pub emit : Event → Store → Result (Unit {0}) × Store
emit e s = (ok tt, record s { events = s.events ++ e ∷ [] })
