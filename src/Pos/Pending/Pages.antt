-- ===== src/Pos/Pending/Pages.antt =====
-- The pages put together.
use mathlib.Core.Path.{subst}
use bonapp.Base.{
  ℕ, zero, suc, ◌+◌, ◌<◌, ◌≡◌, refl, sym, ap, ◌∙◌, true, false, Option, none, some, List, [], ◌∷◌,
  ◌++◌, map, if◌then◌else◌, arith, ◌==◌, ◌||◌, includes, Unique, length, length-append, Bool-cases,
  Option-cases, inl, inr, ==_iff, All, select,
}
use bonapp.Database.{Store, Order, Event}
use bonapp.Pos.Pending.{
  PosTenant, is_connected, take, after, rows_after, last, enqueue_all, pending_ids, recover_pages,
  recover_tenants, recover_pending_pos_orders,
}

drop : ℕ → List ℕ → List ℕ
drop zero ids = ids
drop (suc n) [] = []
drop (suc n) (k ∷ ids) = drop n ids

take-drop : (n : ℕ) (ids : List ℕ) → take n ids ++ drop n ids ≡ ids
unfolding drop
take-drop zero ids = refl
take-drop (suc n) [] = refl
take-drop (suc n) (k ∷ ids) = ap (λ l. k ∷ l) (take-drop n ids)

last-includes : (k : ℕ) (ids : List ℕ) → last ids ≡ some k → includes k ids ≡ true
last-includes k [] h = absurd (ground arith)
last-includes k (j ∷ []) h = ground arith
last-includes k (j ∷ i ∷ ids) h = ground (arith, last-includes k (i ∷ ids))

includes-append : (k : ℕ) (a b : List ℕ) → includes k (a ++ b) ≡ includes k a || includes k b
includes-append k [] b = refl
includes-append k (j ∷ a) b = ground (arith, includes-append k a b)

-- What stands behind the last id of a first part is the second part.
after-last : (k : ℕ) (a b : List ℕ) → Unique (a ++ b) → last a ≡ some k → after k (a ++ b) ≡ b
after-last k [] b u h = absurd (ground arith)
after-last k (j ∷ []) b u h = ground arith
after-last k (j ∷ i ∷ a) b u h =
    ground (
      arith,
      after-last k (i ∷ a) b u.1,
      last-includes k (i ∷ a) h,
      includes-append k (i ∷ a) b,
      u.0,
    )

last-none : (k : ℕ) (ids : List ℕ) → last (k ∷ ids) ≡ none → ⊥
last-none k [] h = ground arith
last-none k (j ∷ ids) h = last-none j ids h

last-length : (ids : List ℕ) → last ids ≡ none → length ids ≡ 0
last-length [] h = refl
last-length (k ∷ ids) h = absurd (last-none k ids h)

rows_after-last : (a b : List ℕ) → Unique (a ++ b) → rows_after (last a) (a ++ b) ≡ b
rows_after-last [] b u = refl
rows_after-last (j ∷ a) b u = elim (Option-cases (last (j ∷ a))) [
  | inl empty ↦ absurd (last-none j a empty)
  | inr (k, found) ↦ rw found (after-last k (j ∷ a) b u found)
]

last-append : (a b : List ℕ) (k : ℕ) → last b ≡ some k → last (a ++ b) ≡ some k
last-append [] b k h = h
last-append (j ∷ []) [] k h = absurd (ground arith)
last-append (j ∷ []) (i ∷ b) k h = h
last-append (j ∷ i ∷ a) b k h = last-append (i ∷ a) b k h

append_assoc : {A : Type 0} (a b c : List A) → (a ++ b) ++ c ≡ a ++ (b ++ c)
append_assoc [] b c = refl
append_assoc (x ∷ a) b c = ap (λ l. x ∷ l) (append_assoc a b c)

map-append : {A B : Type 0} (f : A → B) (a b : List A) → map f (a ++ b) ≡ map f a ++ map f b
map-append f [] b = refl
map-append f (x ∷ a) b = ap (λ l. f x ∷ l) (map-append f a b)

take-drop-length : (n : ℕ) (ids : List ℕ) → length (take n ids) + length (drop n ids) ≡ length ids
take-drop-length n ids = sym (length-append (take n ids) (drop n ids)) ∙ ap length (take-drop n ids)

take-short : (n : ℕ) (ids : List ℕ) → (length (take n ids) == n) ≡ false → take n ids ≡ ids
take-short zero ids h = absurd (ground arith)
take-short (suc n) [] h = refl
take-short (suc n) (k ∷ ids) h = ap (λ l. k ∷ l) (take-short n ids (ground arith))

module _ (order_by : List Order → List Order) (tenant : ℕ) where
  enqueue_all-enqueue_all :
      (a b : List ℕ) (s : Store) → enqueue_all b (enqueue_all a s) ≡ enqueue_all (a ++ b) s
  enqueue_all-enqueue_all a b s =
      ap (λ l. record s { events = l })
        (append_assoc s.events (map Event.pos_order_enqueued a) (map Event.pos_order_enqueued b)
          ∙ ap (λ l. s.events ++ l) (sym (map-append Event.pos_order_enqueued a b)))

  last-take :
      (done rest : List ℕ)
      → (length (take 100 rest) == 100) ≡ true
      → last (done ++ take 100 rest) ≡ last (take 100 rest)
  last-take done rest full = elim (Option-cases (last (take 100 rest))) [
    | inl empty ↦ absurd (ground (arith, last-length (take 100 rest) empty))
    | inr (k, found) ↦ last-append done (take 100 rest) k found ∙ sym found
  ]

  -- one turn of the loop, on the rows behind the cursor
  abbrev turn : ℕ → List ℕ → Store → Option Store
  turn fuel rest s =
      if length (take 100 rest) == 100
      then recover_pages order_by fuel tenant (last (take 100 rest)) (enqueue_all (take 100 rest) s)
      else some (enqueue_all (take 100 rest) s)

  recover_pages-turn :
      (fuel : ℕ) (cursor : Option ℕ) (rest : List ℕ) (s : Store)
      → rows_after cursor (pending_ids order_by tenant s) ≡ rest
      → recover_pages order_by (suc fuel) tenant cursor s ≡ turn fuel rest s
  unfolding recover_pages
  recover_pages-turn fuel cursor rest s e = ap (λ r. turn fuel r s) e

  behind :
      (done rest : List ℕ) (s : Store)
      → pending_ids order_by tenant s ≡ done ++ rest
      → Unique (done ++ rest)
      → rows_after (last done) (pending_ids order_by tenant s) ≡ rest
  behind done rest s e u = ap (rows_after (last done)) e ∙ rows_after-last done rest u

  -- The loop from a cursor on: `done` are the rows up to it.
  recover_pages-all :
      (fuel : ℕ) (done rest : List ℕ) (s : Store)
      → pending_ids order_by tenant s ≡ done ++ rest
      → Unique (done ++ rest)
      → length rest < fuel
      → recover_pages order_by fuel tenant (last done) s ≡ some (enqueue_all rest s)
  recover_pages-all zero done rest s e u enough = absurd (omega arith)
  recover_pages-all (suc fuel) done rest s e u enough =
      elim (Bool-cases (length (take 100 rest) == 100)) [
        | inr short ↦
            recover_pages-turn fuel (last done) rest s (behind done rest s e u)
            ∙ rw (short, take-short 100 rest short) refl
        | inl full ↦
            let page : List ℕ = take 100 rest in
            let same : (done ++ page) ++ drop 100 rest ≡ done ++ rest =
              append_assoc done page (drop 100 rest) ∙ ap (λ l. done ++ l) (take-drop 100 rest) in
            recover_pages-turn fuel (last done) rest s (behind done rest s e u)
            ∙ (rw full refl
                ∙ (ap (λ c. recover_pages order_by fuel tenant c (enqueue_all page s))
                      (sym (last-take done rest full))
                    ∙ (recover_pages-all fuel (done ++ page) (drop 100 rest) (enqueue_all page s)
                          (e ∙ sym same) (subst Unique (sym same) u)
                          (omega (
                            arith,
                            take-drop-length 100 rest,
                            (==_iff (length page) 100).0 full,
                            enough,
                          ))
                        ∙ ap some (
                            enqueue_all-enqueue_all page (drop 100 rest) s
                            ∙ ap (λ l. enqueue_all l s) (take-drop 100 rest)))))
      ]

append_nil : {A : Type 0} (a : List A) → a ++ [] ≡ a
append_nil [] = refl
append_nil (x ∷ a) = ap (λ l. x ∷ l) (append_nil a)

module _ (order_by : List Order → List Order) where
  -- The orders that wait at each of the restaurants, in the order of the restaurants.
  abbrev pub all_pending : List PosTenant → Store → List ℕ
  all_pending [] s = []
  all_pending (t ∷ tenants) s = pending_ids order_by t.id s ++ all_pending tenants s

  abbrev pub HasUniqueIds : List PosTenant → Store → Type 0
  HasUniqueIds tenants s = All (λ (t : PosTenant). Unique (pending_ids order_by t.id s)) tenants

  all_pending-enqueue_all :
      (ids : List ℕ) (tenants : List PosTenant) (s : Store)
      → all_pending tenants (enqueue_all ids s) ≡ all_pending tenants s
  all_pending-enqueue_all ids [] s = refl
  all_pending-enqueue_all ids (t ∷ tenants) s =
      ap (λ l. pending_ids order_by t.id s ++ l) (all_pending-enqueue_all ids tenants s)

  recover_tenants-all :
      (tenants : List PosTenant) (s : Store)
      → HasUniqueIds tenants s
      → recover_tenants order_by tenants s ≡ some (enqueue_all (all_pending tenants s) s)
  unfolding recover_tenants
  recover_tenants-all [] s u = ap (λ l. some (record s { events = l })) (sym (append_nil s.events))
  recover_tenants-all (t ∷ tenants) s u =
      let ids : List ℕ = pending_ids order_by t.id s in
      ap
        (λ o. elim o as (λ x. Option Store) [
          | none ↦ none
          | some s' ↦ recover_tenants order_by tenants s'
        ])
        (recover_pages-all order_by t.id (suc (length ids)) [] ids s refl u.0 (omega arith))
      ∙ (recover_tenants-all tenants (enqueue_all ids s) u.1
          ∙ (ap (λ l. some (enqueue_all l (enqueue_all ids s)))
                (all_pending-enqueue_all ids tenants s)
              ∙ ap some (enqueue_all-enqueue_all order_by t.id ids (all_pending tenants s) s)))

  -- If the orders that wait at each restaurant with a POS have different ids, the recovery ends, on
  -- a fuel of one page more for each restaurant than it has such orders, and it has put exactly these
  -- orders into the queue, each of them once, in the order of the restaurants and of their rows.
  pub recover_pending_pos_orders-all :
      (tenants : List PosTenant) (s : Store)
      → HasUniqueIds (select is_connected tenants) s
      → recover_pending_pos_orders order_by tenants s
        ≡ some (enqueue_all (all_pending (select is_connected tenants) s) s)
  unfolding recover_pending_pos_orders
  recover_pending_pos_orders-all tenants s u = recover_tenants-all (select is_connected tenants) s u
