-- ===== src/Database/Keys.antt =====
-- The primary key `id`: no two rows of a table share it, and an update leaves it alone.
use mathlib.Core.Path.{subst}
use bonapp.Base.{
  ◌++◌, All-append, ℕ, ◌≡◌, refl, sym, ◌∙◌, ◌≢◌, Bool, true, false, some, List, [], ◌∷◌, All,
  if◌then◌else◌,
}
use bonapp.Database.Queries.{Prisma, update_many, All-update_many}

module _ {Row : Type 0} (id : Row → ℕ) where
  abbrev pub HasKeys : List Row → Type 0
  HasKeys [] = Unit
  HasKeys (r ∷ rows) = All (λ x. id x ≢ id r) rows × HasKeys rows

  -- A row is the only one with its id.
  abbrev pub IsOnly : List Row → Row → Type 0
  IsOnly rows r = All (λ x. id x ≡ id r → x ≡ r) rows

  IsOnly-head : (r : Row) (rows : List Row) → All (λ x. id x ≢ id r) rows → IsOnly rows r
  IsOnly-head r [] h = tt
  IsOnly-head r (x ∷ rows) h = ((λ e. absurd (h.0 e)), IsOnly-head r rows h.1)

  IsOnly-tail :
      (r : Row) (rows later : List Row)
      → All (λ x. id x ≢ id r) later
      → All (IsOnly rows) later
      → All (IsOnly (r ∷ rows)) later
  IsOnly-tail r rows [] h k = tt
  IsOnly-tail r rows (x ∷ later) h k =
      (((λ e. absurd (h.0 (sym e))), k.0), IsOnly-tail r rows later h.1 k.1)

  pub HasKeys-IsOnly : (rows : List Row) → HasKeys rows → All (IsOnly rows) rows
  HasKeys-IsOnly [] h = tt
  HasKeys-IsOnly (r ∷ rows) h =
      (((λ e. refl), IsOnly-head r rows h.0), IsOnly-tail r rows rows h.0 (HasKeys-IsOnly rows h.1))

  -- The row that a query returns is the only one with its id.
  pub find_first-IsOnly :
      (db : Prisma) (filter : Row → Bool) (rows : List Row) (r : Row)
      → HasKeys rows
      → db.find_first filter rows ≡ some r
      → IsOnly rows r
  find_first-IsOnly db filter rows r h e =
      db.find_first_listed (IsOnly rows) filter rows r e (HasKeys-IsOnly rows h)

  -- A row with a new key behind the others.
  pub HasKeys-append :
      (rows : List Row) (r : Row)
      → HasKeys rows
      → All (λ x. id x ≢ id r) rows
      → HasKeys (rows ++ r ∷ [])
  HasKeys-append [] r h fresh = (tt, tt)
  HasKeys-append (x ∷ rows) r h fresh = (
    All-append (λ y. id y ≢ id x) rows (r ∷ []) h.0 ((λ e. fresh.0 (sym e)), tt),
    HasKeys-append rows r h.1 fresh.1,
  )

  module _ (filter : Row → Bool) (data' : Row → Row) (keep : (r : Row) → id (data' r) ≡ id r) where
    id_kept : (r : Row) (b : Bool) → id (if b then data' r else r) ≡ id r
    id_kept r true = keep r
    id_kept r false = refl

    others_kept :
        (k : ℕ) (rows : List Row)
        → All (λ x. id x ≢ k) rows
        → All (λ x. id x ≢ k) (update_many filter data' rows)
    others_kept k rows h =
        All-update_many (λ x. id x ≢ k) filter data' rows (λ r _ ne e. ne (sym (keep r) ∙ e)) h

    pub update_many-HasKeys :
        (rows : List Row) → HasKeys rows → HasKeys (update_many filter data' rows)
    unfolding update_many
    update_many-HasKeys [] h = tt
    update_many-HasKeys (r ∷ rows) h = (
      subst (λ k. All (λ x. id x ≢ k) (update_many filter data' rows)) (sym (id_kept r (filter r)))
          (others_kept (id r) rows h.0),
      update_many-HasKeys rows h.1,
    )

  -- An update by the key of a row that holds keeps what its new value has.
  pub All-update_only :
      (P : Row → Type 0) (filter : Row → Bool) (data' : Row → Row) (rows : List Row) (o : Row)
      → ((r : Row) → filter r ≡ true → id r ≡ id o)
      → IsOnly rows o
      → P (data' o)
      → All P rows
      → All P (update_many filter data' rows)
  unfolding update_many
  All-update_only P filter data' [] o same only new h = tt
  All-update_only P filter data' (r ∷ rows) o same only new h =
      (one (filter r) refl, All-update_only P filter data' rows o same only.1 new h.1)
    where
      one : (b : Bool) → filter r ≡ b → P (if b then data' r else r)
      one true e = subst (λ x. P (data' x)) (sym (only.0 (same r e))) new
      one false e = h.0
