-- ===== src/Menu/Ordering/Placing.antt =====
-- What the updates of an order do to one row.
use bonapp.Base.{
  Unique, Result, ok, err, ap, ◌∙◌, ℕ, suc, ◌-◌, ◌≤◌, ◌≡◌, refl, true, false, Option, some, none,
  List, [], ◌∷◌, arith, includes, ◌==◌, Bool-cases, inl, inr, if◌then◌else◌, any, ==_iff, sym, map,
  is_ok,
}
use mathlib.Core.Path.{subst}
use bonapp.Database.{update_many}
use bonapp.Menu.Rows.{Item, MenuStore, of_item}
use bonapp.Menu.Ordering.{place, place_all}

-- `ids[n]`
abbrev pub nth : List ℕ → ℕ → Option ℕ
nth [] n = none
nth (k ∷ ids) n = if n == 0 then some k else nth ids (n - 1)

minus : (n m : ℕ) → suc n ≤ m → m - n - 1 ≡ m - suc n
minus n m h = omega arith

pub minus_zero : (n : ℕ) → n - 0 ≡ n
minus_zero n = omega arith

module _ (tenant : ℕ) where
  -- what the updates of one row come to
  unfoldable pub placed : ℕ → List ℕ → Item → Item
  placed n [] i = i
  placed n (k ∷ ids) i =
      placed (suc n) ids (if of_item tenant k i then record i { sort_order = n } else i)

  map-placed :
      (n k : ℕ) (ids : List ℕ) (items : List Item)
      → map
          (placed (suc n) ids)
          (update_many (of_item tenant k) (λ (i : Item). record i { sort_order = n }) items)
        ≡ map (placed n (k ∷ ids)) items
  unfolding update_many placed
  map-placed n k ids [] = refl
  map-placed n k ids (i ∷ items) = rw (map-placed n k ids items) refl

  map-none : (n : ℕ) (items : List Item) → items ≡ map (placed n []) items
  unfolding placed
  map-none n [] = refl
  map-none n (i ∷ items) = ground (arith, map-none n items)

  abbrev set_order : ℕ → Item → Item
  set_order n i = record i { sort_order = n }

  place_all-missing :
      (n k : ℕ) (ids : List ℕ) (s : MenuStore)
      → any (of_item tenant k) s.items ≡ false
      → is_ok (place_all tenant n (k ∷ ids) s).0 ≡ false
  unfolding place_all
  place_all-missing n k ids s h = rw (is_ok, place_all, h) refl

  place-found :
      (n k : ℕ) (s : MenuStore)
      → any (of_item tenant k) s.items ≡ true
      → place tenant n k s
        ≡ (ok tt, record s { items = update_many (of_item tenant k) (set_order n) s.items })
  place-found n k s h = rw (place, h) refl

  place_all-found :
      (n k : ℕ) (ids : List ℕ) (s : MenuStore)
      → any (of_item tenant k) s.items ≡ true
      → place_all tenant n (k ∷ ids) s
        ≡ place_all tenant
            (suc n)
            ids
            (record s { items = update_many (of_item tenant k) (set_order n) s.items })
  unfolding place_all
  place_all-found n k ids s h =
      ap
        (λ r. elim r.0 as (λ x. Result (Unit {0}) × MenuStore) [
          | ok a ↦ place_all tenant (suc n) ids r.1
          | err e ↦ (err e, r.1)
        ])
        (place-found n k s h)

  pub place_all-items :
      (n : ℕ) (ids : List ℕ) (s : MenuStore)
      → is_ok (place_all tenant n ids s).0 ≡ true
      → (place_all tenant n ids s).1.items ≡ map (placed n ids) s.items
  unfolding place_all
  place_all-items n [] s h = map-none n s.items
  place_all-items n (k ∷ ids) s h = elim (Bool-cases (any (of_item tenant k) s.items)) [
    | inr missing ↦ absurd (cc (h, place_all-missing n k ids s missing))
    | inl found ↦
        let s' : MenuStore = record s {
          items = update_many (of_item tenant k) (set_order n) s.items;
        } in
        ap (λ r. r.1.items) (place_all-found n k ids s found)
        ∙ (place_all-items (suc n) ids s'
              (ap (λ r. is_ok r.0) (sym (place_all-found n k ids s found)) ∙ h)
            ∙ map-placed n k ids s.items)
  ]

  placed-absent : (n : ℕ) (ids : List ℕ) (i : Item) → includes i.id ids ≡ false → placed n ids i ≡ i
  unfolding placed
  placed-absent n [] i h = refl
  placed-absent n (k ∷ ids) i h = ground (arith, placed-absent (suc n) ids i)

  of_item-same :
      (k : ℕ) (i : Item) → i.tenant_id ≡ tenant → (i.id == k) ≡ true → of_item tenant k i ≡ true
  of_item-same k i t e = ground arith

  of_item-other : (k : ℕ) (i : Item) → (i.id == k) ≡ false → of_item tenant k i ≡ false
  of_item-other k i e = ground arith

  includes-same :
      (k : ℕ) (i : Item) (ids : List ℕ)
      → (i.id == k) ≡ true
      → includes k ids ≡ false
      → includes i.id ids ≡ false
  includes-same k i ids e h = subst (λ j. includes j ids ≡ false) (sym ((==_iff i.id k).0 e)) h

  later :
      (n k : ℕ) (ids : List ℕ) (m id : ℕ)
      → (suc n ≤ m) × (nth ids (m - suc n) ≡ some id)
      → (n ≤ m) × (nth (k ∷ ids) (m - n) ≡ some id)
  later n k ids m id h = (omega (arith, h.0), ground (arith, h.0, h.1, minus n m h.0))

  placed-step :
      (n k : ℕ) (ids : List ℕ) (i : Item)
      → placed n (k ∷ ids) i ≡ placed (suc n) ids (if of_item tenant k i then set_order n i else i)
  unfolding placed
  placed-step n k ids i = refl

  pub placed-nth :
      (n : ℕ) (ids : List ℕ) (i : Item)
      → i.tenant_id ≡ tenant
      → Unique ids
      → includes i.id ids ≡ true
      → (n ≤ (placed n ids i).sort_order) × (nth ids ((placed n ids i).sort_order - n) ≡ some i.id)
  placed-nth n [] i t u h = cc
  placed-nth n (k ∷ ids) i t u h = elim (Bool-cases (i.id == k)) [
    | inl same ↦
        rw
          (
            placed-step n k ids i,
            of_item-same k i t same,
            placed-absent (suc n) ids (set_order n i) (includes-same k i ids same u.0),
          )
          ((omega arith), ground (arith, (==_iff i.id k).0 same))
    | inr other ↦
        rw (placed-step n k ids i, of_item-other k i other)
          (later n k ids (placed (suc n) ids i).sort_order i.id
            (placed-nth (suc n) ids i t u.1 (ground arith)))
  ]

  pub placed-kept :
      (n : ℕ) (ids : List ℕ) (i : Item)
      → ((placed n ids i).id ≡ i.id)
        × ((placed n ids i).tenant_id ≡ i.tenant_id)
        × ((placed n ids i).category_id ≡ i.category_id)
  unfolding placed
  placed-kept n [] i = (refl, refl, refl)
  placed-kept n (k ∷ ids) i = elim (Bool-cases (of_item tenant k i)) [
    | inl fits ↦ rw (placed-step n k ids i, fits) (placed-kept (suc n) ids (set_order n i))
    | inr other ↦ rw (placed-step n k ids i, other) (placed-kept (suc n) ids i)
  ]
