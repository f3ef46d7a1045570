-- ===== src/Menu/Ordering/Laws.antt =====
-- What an accepted order does.
use bonapp.Base.{
  Unique, Result-cases, All-map_step, ℕ, ◌≡◌, true, false, some, List, [], ◌∷◌, arith, includes,
  length, not, Bool-cases, inl, inr, any, All, sym, ◌⊎◌, map, is_ok, All-weaken,
}
use mathlib.Core.Path.{subst}
use bonapp.Menu.Rows.{Item, MenuStore, in_category}
use bonapp.Menu.Ordering.{set_size, is_wrong_order, place_all, category_ids, reorder_items}
use bonapp.Menu.Ordering.Sets.{includes-set_size, set_size-Unique, any-IsWithin}
use bonapp.Menu.Ordering.Placing.{nth, placed, placed-kept, placed-nth, place_all-items, minus_zero}

module _ (tenant category : ℕ) where
  -- An item of the category is listed among the ids of the category.
  abbrev IsListed : List Item → Item → Type 0
  IsListed items i =
      (in_category tenant category i ≡ false)
      ⊎ ((in_category tenant category i ≡ true)
          × (includes i.id (category_ids tenant category items) ≡ true))

  IsListed-later : (j i : Item) (items : List Item) → IsListed items i → IsListed (j ∷ items) i
  IsListed-later j i items (inl other) = inl other
  IsListed-later j i items (inr (mine, listed)) =
      elim (Bool-cases (in_category tenant category j)) [
        | inl inside ↦ inr (mine, rw inside (ground arith))
        | inr outside ↦ inr (mine, rw outside listed)
      ]

  items-IsListed : (items : List Item) → All (IsListed items) items
  items-IsListed [] = tt
  items-IsListed (j ∷ items) = (
    first (Bool-cases (in_category tenant category j)),
    All-weaken (IsListed items) (IsListed (j ∷ items)) items (λ i. IsListed-later j i items)
        (items-IsListed items),
  )
    where
      first :
          (in_category tenant category j ≡ true) ⊎ (in_category tenant category j ≡ false)
          → IsListed (j ∷ items) j
      first (inl inside) = inr (inside, rw inside (ground arith))
      first (inr outside) = inl outside

  -- Where an item of the category stands in the order.
  abbrev pub IsPlaced : List ℕ → Item → Type 0
  IsPlaced ids i = (in_category tenant category i ≡ false) ⊎ (nth ids i.sort_order ≡ some i.id)

  right-size : (ids l : List ℕ) → is_wrong_order l ids ≡ false → set_size ids ≡ length ids
  unfolding is_wrong_order
  right-size ids l h = ground arith

  right-length : (ids l : List ℕ) → is_wrong_order l ids ≡ false → length ids ≡ set_size l
  unfolding is_wrong_order
  right-length ids l h = ground arith

  right-within :
      (ids l : List ℕ) → is_wrong_order l ids ≡ false → any (λ k. not (includes k l)) ids ≡ false
  unfolding is_wrong_order
  right-within ids l h = ground arith

  placed-IsPlaced :
      (ids : List ℕ) (items : List Item)
      → is_wrong_order (category_ids tenant category items) ids ≡ false
      → (i : Item) → IsListed items i
      → IsPlaced ids (placed tenant 0 ids i)
  placed-IsPlaced ids items right i (inl other) =
      inl (let k = placed-kept tenant 0 ids i in rw (k.1, k.2) other)
  placed-IsPlaced ids items right i (inr (mine, listed)) =
      let u : Unique ids =
        set_size-Unique ids (right-size ids (category_ids tenant category items) right) in
      let w =
        includes-set_size i.id ids (category_ids tenant category items) u
          (any-IsWithin ids (category_ids tenant category items)
            (right-within ids (category_ids tenant category items) right))
          (right-length ids (category_ids tenant category items) right) listed in
      inr (
        rw (placed-kept tenant 0 ids i).0 (
          subst (λ m. nth ids m ≡ some i.id) (minus_zero (placed tenant 0 ids i).sort_order)
            (placed-nth tenant 0 ids i (ground arith) u w).1))

  reorder_items-items :
      (ids : List ℕ) (s : MenuStore)
      → is_ok (reorder_items tenant category ids s).0 ≡ true
      → (is_wrong_order (category_ids tenant category s.items) ids ≡ false)
        × ((reorder_items tenant category ids s).1.items ≡ map (placed tenant 0 ids) s.items)
  unfolding reorder_items
  reorder_items-items ids s h =
      elim (Bool-cases (is_wrong_order (category_ids tenant category s.items) ids)) [
        | inl wrong ↦ absurd (ground arith)
        | inr right ↦ (
          right,
          elim (Result-cases (place_all tenant 0 ids s).0) [
            | inl (a, done) ↦ ground (arith, place_all-items tenant 0 ids s)
            | inr (e, failed) ↦ absurd (ground arith)
          ],
        )
      ]

  -- An accepted order gives every item of the category the place of its id in the list as its sort
  -- order.
  pub reorder_items-IsPlaced :
      (ids : List ℕ) (s : MenuStore)
      → is_ok (reorder_items tenant category ids s).0 ≡ true
      → All (IsPlaced ids) (reorder_items tenant category ids s).1.items
  reorder_items-IsPlaced ids s h =
      let k = reorder_items-items ids s h in
      subst (All (IsPlaced ids)) (sym k.1) (
        All-map_step (IsListed s.items) (IsPlaced ids) (placed tenant 0 ids) s.items
          (placed-IsPlaced ids s.items k.0) (items-IsListed s.items))
