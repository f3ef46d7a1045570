-- ===== src/Menu/Ordering/Sets.antt =====
-- Lists of ids as sets: their size, and when two of them have the same members.
use bonapp.Base.{
  Unique, ℕ, suc, ◌≤◌, ◌≡◌, refl, true, false, List, [], ◌∷◌, arith, includes, length, select, not,
  ◌==◌, Bool-cases, inl, inr, any, ==_iff, All,
}
use bonapp.Menu.Ordering.{set_size}

-- Every member of the first list is one of the second.
abbrev pub IsWithin : List ℕ → List ℕ → Type 0
IsWithin ids l = All (λ k. includes k l ≡ true) ids

abbrev pub remove : ℕ → List ℕ → List ℕ
remove k l = select (λ j. not (j == k)) l

includes-remove : (j k : ℕ) (l : List ℕ) → (j == k) ≡ false → includes j (remove k l) ≡ includes j l
includes-remove j k [] h = refl
includes-remove j k (x ∷ l) h = ground (arith, includes-remove j k l)

remove-absent : (k : ℕ) (l : List ℕ) → includes k l ≡ false → remove k l ≡ l
remove-absent k [] h = refl
remove-absent k (x ∷ l) h = ground (arith, remove-absent k l)

set_size-remove :
    (k : ℕ) (l : List ℕ) → includes k l ≡ true → set_size l ≡ suc (set_size (remove k l))
unfolding set_size
set_size-remove k [] h = absurd (ground arith)
set_size-remove k (x ∷ l) h = elim (Bool-cases (x == k)) [
  | inr other ↦ ground (arith, set_size-remove k l, includes-remove x k l)
  | inl same ↦ elim (Bool-cases (includes k l)) [
    | inl again ↦ ground (arith, set_size-remove k l, (==_iff x k).0 same)
    | inr last ↦ ground (arith, remove-absent k l last, (==_iff x k).0 same)
  ]
]

IsWithin-remove :
    (k : ℕ) (ids l : List ℕ) → includes k ids ≡ false → IsWithin ids l → IsWithin ids (remove k l)
IsWithin-remove k [] l h w = tt
IsWithin-remove k (j ∷ ids) l h w =
    (ground (arith, includes-remove j k l), IsWithin-remove k ids l (ground arith) w.1)

-- A list without repetitions is at most as long as a set that holds it.
pub length-set_size : (ids l : List ℕ) → Unique ids → IsWithin ids l → length ids ≤ set_size l
length-set_size [] l u w = omega arith
length-set_size (k ∷ ids) l u w = omega (
  arith,
  set_size-remove k l w.0,
  length-set_size ids (remove k l) u.1 (IsWithin-remove k ids l u.0 w.1),
)

-- If it has the size of the set, every member of the set is in it.
pub includes-set_size :
    (k : ℕ) (ids l : List ℕ)
    → Unique ids
    → IsWithin ids l
    → length ids ≡ set_size l
    → includes k l ≡ true
    → includes k ids ≡ true
includes-set_size k ids l u w e h = elim (Bool-cases (includes k ids)) [
  | inl member ↦ member
  | inr other ↦ absurd (omega (arith, length-set_size (k ∷ ids) l (other, u) (h, w)))
]

pub set_size-length : (ids : List ℕ) → set_size ids ≤ length ids
unfolding set_size
set_size-length [] = omega arith
set_size-length (k ∷ ids) = ground (arith, set_size-length ids)

pub set_size-Unique : (ids : List ℕ) → set_size ids ≡ length ids → Unique ids
unfolding set_size
set_size-Unique [] h = tt
set_size-Unique (k ∷ ids) h =
    (ground (arith, set_size-length ids), set_size-Unique ids (ground (arith, set_size-length ids)))

pub any-IsWithin : (ids l : List ℕ) → any (λ k. not (includes k l)) ids ≡ false → IsWithin ids l
any-IsWithin [] l h = tt
any-IsWithin (k ∷ ids) l h = (ground arith, any-IsWithin ids l (ground arith))
