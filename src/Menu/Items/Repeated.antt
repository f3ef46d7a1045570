-- ===== src/Menu/Items/Repeated.antt =====
-- A request to create an item may be sent again.
use bonapp.Base.{
  ap, sym, ◌∙◌, ℕ, ◌≡◌, refl, Bool, true, false, some, none, List, [], ◌∷◌, ◌++◌, arith, ok, any,
  All, All-append, ◌⊎◌, inl, inr, Option-cases, Bool-cases, ◌==◌, is_empty, ltb, length, ◌||◌,
}
use bonapp.Database.{Prisma}
use bonapp.Menu.Rows.{Item, MenuStore, of_item, of_category}
use bonapp.Menu.Names.{trim, validate_name, validate_price}
use bonapp.Menu.Items.{
  CreateItemDto, create_item, add_item, find_item, insert_item, new_item, last_in,
}

module _ (db : Prisma) (tenant id : ℕ) where
  -- Only the new item has the id.
  abbrev IsNew : Item → Item → Type 0
  IsNew new i = (of_item tenant id i ≡ false) ⊎ (i ≡ new)

  others-IsNew :
      (new : Item) (items : List Item)
      → any (λ (j : Item). j.id == id) items ≡ false
      → All (IsNew new) items
  others-IsNew new [] h = tt
  others-IsNew new (j ∷ items) h = (inl (ground arith), others-IsNew new items (ground arith))

  any-last :
      (new : Item) (items : List Item)
      → of_item tenant id new ≡ true
      → any (of_item tenant id) (items ++ new ∷ []) ≡ true
  any-last new [] h = ground arith
  any-last new (j ∷ items) h = ground (arith, any-last new items)

  find_first-last :
      (new : Item) (items : List Item)
      → of_item tenant id new ≡ true
      → any (λ (j : Item). j.id == id) items ≡ false
      → db.find_first (of_item tenant id) (items ++ new ∷ []) ≡ some new
  find_first-last new items h free =
      elim (Option-cases (db.find_first (of_item tenant id) (items ++ new ∷ []))) [
        | inl missing ↦ absurd (
            cc (
              any-last new items h,
              db.find_first_none (of_item tenant id) (items ++ new ∷ []) missing,
            ))
        | inr (r, found) ↦
            elim (db.find_first_listed (IsNew new) (of_item tenant id) (items ++ new ∷ []) r found (
              All-append (IsNew new) items (new ∷ []) (others-IsNew new items free)
                (inr refl, tt))) [
                  | inl other ↦ absurd (
                      cc (
                        other,
                        db.find_first_matches (of_item tenant id) (items ++ new ∷ []) r found,
                      ))
                  | inr same ↦ ground arith
                ]
      ]

  abbrev is_bad_name : List ℕ → Bool
  is_bad_name name = is_empty (trim name) || ltb 255 (length (trim name))

  -- The request passes the checks of its name and its price.
  abbrev IsValid : CreateItemDto → Type 0
  IsValid dto = (is_bad_name dto.name ≡ false) × (p : ℕ) × (dto.price ≡ some p)

  create_item-IsValid :
      (new_id : ℕ) (dto : CreateItemDto) (s : MenuStore) (i : Item)
      → (create_item db new_id tenant dto s).0 ≡ ok i
      → IsValid dto
  unfolding create_item validate_name validate_price
  create_item-IsValid new_id dto s i h = elim (Option-cases dto.price) [
    | inl missing ↦ absurd (ground arith)
    | inr (p, given) ↦ (ground arith, p, given)
  ]

  create_item-known :
      (new_id : ℕ) (dto : CreateItemDto) (s : MenuStore) (i : Item)
      → IsValid dto
      → find_item db tenant dto.id s ≡ some i
      → create_item db new_id tenant dto s ≡ (ok i, s)
  unfolding create_item validate_name validate_price
  create_item-known new_id dto s i valid found = ground (arith, valid.0, valid.2)

  create_item-add_item :
      (new_id : ℕ) (dto : CreateItemDto) (s : MenuStore) (p : ℕ)
      → IsValid dto
      → dto.price ≡ some p
      → find_item db tenant dto.id s ≡ none
      → create_item db new_id tenant dto s ≡ add_item db new_id tenant dto p s
  unfolding create_item validate_name validate_price
  create_item-add_item new_id dto s p valid given missing = ground (arith, valid.0, given)

  add_item-find_item :
      (new_id : ℕ) (dto : CreateItemDto) (s : MenuStore) (p : ℕ) (i : Item)
      → dto.id ≡ some id
      → find_item db tenant dto.id s ≡ none
      → (add_item db new_id tenant dto p s).0 ≡ ok i
      → find_item db tenant dto.id (add_item db new_id tenant dto p s).1 ≡ some i
  unfolding add_item insert_item find_item
  add_item-find_item new_id dto s p i named missing h =
      let new : Item = new_item new_id tenant dto p (last_in tenant dto.category_id s) in
      elim (Bool-cases (any (λ (j : Item). j.id == id) s.items)) [
        | inl taken ↦ absurd (ground arith)
        | inr free ↦ elim (Bool-cases (any (of_category tenant dto.category_id) s.categories)) [
          | inr unknown ↦ absurd (ground arith)
          | inl known ↦ ground (arith, find_first-last new s.items)
        ]
      ]

  -- An item that a request with an id has created, or found, is what the same request answers with
  -- when it is sent again, and it changes nothing then.
  pub create_item-create_item :
      (new_id new_id' : ℕ) (dto : CreateItemDto) (s : MenuStore) (i : Item)
      → dto.id ≡ some id
      → (create_item db new_id tenant dto s).0 ≡ ok i
      → create_item db new_id' tenant dto (create_item db new_id tenant dto s).1
        ≡ (ok i, (create_item db new_id tenant dto s).1)
  create_item-create_item new_id new_id' dto s i named h =
      let valid : IsValid dto = create_item-IsValid new_id dto s i h in
      create_item-known new_id' dto (create_item db new_id tenant dto s).1 i valid
        (elim (Option-cases (find_item db tenant dto.id s)) [
          | inr (j, found) ↦ ground (arith, create_item-known new_id dto s j valid found)
          | inl missing ↦
              let e = create_item-add_item new_id dto s valid.1 valid valid.2 missing in
              rw e (
                add_item-find_item new_id dto s valid.1 i named missing (ap (λ r. r.0) (sym e) ∙ h))
        ])
