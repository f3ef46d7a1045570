-- ===== src/Staff/Shifts/Single.antt =====
-- A restaurant has at most one open shift.
use mathlib.Core.Path.{subst}
use bonapp.Base.{
  ==_iff, Result-cases, ℕ, ◌≡◌, ◌≤◌, ◌+◌, refl, Bool, false, none, some, List, [], ◌∷◌, ◌++◌, arith,
  any, inl, inr, Option-cases, Bool-cases, ◌&&◌, ◌==◌,
}
use bonapp.Database.{Prisma, Store, Shift, is_open, update_many, count}
use bonapp.Staff.Shifts.{
  Pending, conclude, Register, is_open_shift, open_tx, open_shift, new_shift, closed_at, started_at,
  begin_close_tx, finish_close_tx, close, of_shift, confirm,
}

module _ {Row : Type 0} (filter : Row → Bool) where
  count-none : (rows : List Row) → any filter rows ≡ false → count filter rows ≡ 0
  unfolding count
  count-none [] e = refl
  count-none (r ∷ rows) e = ground (arith, count-none rows)

  count-append :
      (rows more : List Row) → count filter (rows ++ more) ≡ count filter rows + count filter more
  unfolding count
  count-append [] more = ground arith
  count-append (r ∷ rows) more = ground (arith, count-append rows more)

  -- An update after which no row that the filter refused is let in counts no more rows.
  count-update_many :
      (key : Row → Bool) (data' : Row → Row) (rows : List Row)
      → ((r : Row) → filter r ≡ false → filter (data' r) ≡ false)
      → count filter (update_many key data' rows) ≤ count filter rows
  unfolding count update_many
  count-update_many key data' [] keep = ground arith
  count-update_many key data' (r ∷ rows) keep =
      ground (arith, keep r, count-update_many key data' rows keep)

-- The restaurant has at most one open shift.
abbrev pub HasSingle : ℕ → Store → Type 0
HasSingle t s = count (is_open_shift t) s.shifts ≤ 1

module _ (db : Prisma) (register : Register) (t : ℕ) where
  update-HasSingle :
      (key : Shift → Bool) (now : ℕ) (s : Store)
      → HasSingle t s
      → count (is_open_shift t) (update_many key (closed_at now) s.shifts) ≤ 1
  update-HasSingle key now s h = ground (
    arith,
    count-update_many (is_open_shift t) key (closed_at now) s.shifts (λ sh e. ground arith),
  )

  start-HasSingle :
      (key : Shift → Bool) (now : ℕ) (s : Store)
      → HasSingle t s
      → count (is_open_shift t) (update_many key (started_at now) s.shifts) ≤ 1
  start-HasSingle key now s h =
      ground (arith, count-update_many (is_open_shift t) key (started_at now) s.shifts (λ sh e. e))

  -- The restaurant `u` whose shift opens may be another one.
  open-HasSingle :
      (u id cashier now z : ℕ) (s : Store)
      → db.find_first (is_open_shift u) s.shifts ≡ none
      → HasSingle t s
      → count (is_open_shift t) (s.shifts ++ new_shift id u cashier now z ∷ []) ≤ 1
  unfolding count
  open-HasSingle u id cashier now z s none_open h = elim (Bool-cases (u == t)) [
    | inl own ↦ ground (
      arith,
      count-append (is_open_shift t) s.shifts (new_shift id u cashier now z ∷ []),
      subst (λ k. count (is_open_shift k) s.shifts ≡ 0) ((==_iff u t).0 own)
          (count-none (is_open_shift u) s.shifts
            (db.find_first_none (is_open_shift u) s.shifts none_open)),
    )
    | inr other ↦
        ground (arith, count-append (is_open_shift t) s.shifts (new_shift id u cashier now z ∷ []))
  ]

  open_tx-HasSingle :
      (u id cashier now : ℕ) (s : Store)
      → HasSingle t s
      → HasSingle t (open_tx db register id u cashier now s).1
  unfolding open_tx
  open_tx-HasSingle u id cashier now s h =
      elim (Option-cases (db.find_first (is_open_shift u) s.shifts)) [
        | inl none_open ↦ elim (Result-cases register.open_shift) [
          | inl (z, opened) ↦ ground (arith, open-HasSingle u id cashier now z s none_open h)
          | inr (e, failed) ↦ ground arith
        ]
        | inr (sh, found) ↦ ground arith
      ]

  pub begin_close_tx-HasSingle :
      (u now : ℕ) (s : Store) → HasSingle t s → HasSingle t (begin_close_tx db register u now s).1
  unfolding begin_close_tx
  begin_close_tx-HasSingle u now s h =
      elim (Option-cases (db.find_first (is_open_shift u) s.shifts)) [
        | inl missing ↦ ground arith
        | inr (sh, found) ↦ ground (arith, start-HasSingle (of_shift sh.id u) now s h)
      ]

  finish_close_tx-HasSingle :
      (u id now z : ℕ) (s : Store)
      → HasSingle t s
      → HasSingle t (finish_close_tx db register u id now z s).1
  unfolding finish_close_tx
  finish_close_tx-HasSingle u id now z s h =
      elim (Option-cases
        (db.find_first (λ (sh : Shift). of_shift id u sh && is_open sh.status) s.shifts)) [
          | inl missing ↦ ground arith
          | inr (sh, found) ↦ ground (arith, update-HasSingle (of_shift sh.id u) now s h)
        ]

  pub conclude-HasSingle :
      (u later : ℕ) (p : Pending) (s : Store)
      → HasSingle t s
      → HasSingle t (conclude db register u later p s).1
  unfolding conclude
  conclude-HasSingle u later p s h = elim (Result-cases (confirm db register p)) [
    | inr (e, failed) ↦ ground arith
    | inl (none, asked) ↦ ground arith
    | inl (some z, asked) ↦ ground (arith, finish_close_tx-HasSingle u p.shift.id later z s h)
  ]

-- Opening a shift keeps at most one open shift for a restaurant, whichever restaurant it is for and
-- whatever the cash register answers.
pub open_shift-HasSingle :
    (db : Prisma) (register : Register) (t u id cashier now : ℕ) (s : Store)
    → HasSingle t s
    → HasSingle t (open_shift db register id u cashier now s).1
unfolding open_shift
open_shift-HasSingle db register t u id cashier now s h =
    ground (arith, open_tx-HasSingle db register t u id cashier now s h)

-- Closing a shift keeps it as well.
pub close-HasSingle :
    (db : Prisma) (register : Register) (t u now later : ℕ) (s : Store)
    → HasSingle t s
    → HasSingle t (close db register u now later s).1
unfolding close
close-HasSingle db register t u now later s h =
    elim (Result-cases (begin_close_tx db register u now s).0) [
      | inr (e, failed) ↦ ground arith
      | inl (p, begun) ↦ ground (
        arith,
        conclude-HasSingle db register t u later p (begin_close_tx db register u now s).1
            (begin_close_tx-HasSingle db register t u now s h),
      )
    ]
