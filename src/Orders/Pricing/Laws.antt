-- ===== src/Orders/Pricing/Laws.antt =====
-- Which modifiers an ordered item may have, and what it costs.
use bonapp.Base.{
  some, includes, ℕ, ◌+◌, ◌≤◌, ◌≡◌, refl, true, false, Bool, List, [], ◌∷◌, ◌++◌, arith, All, all,
  any, select, ok, map, inl, inr, Option-cases, if◌then◌else◌, ◌||◌, ◌&&◌, ◌==◌,
}
use bonapp.Database.{Prisma, MenuItem, ModifierGroup, Modifier, OrderItem}
use bonapp.Orders.Pricing.{
  RequestedItem, AllowedOption, active_groups, groups, legacy_options, group_options, option_of,
  allowed, is_allowed, has_duplicates, group_ok, modifiers_price, price_item, on_sale, selected_in,
}

-- An independent reading: some active group of the item has the modifier, in its older list or as an
-- active option.
abbrev pub has_modifier : ℕ → ModifierGroup → Bool
has_modifier id g =
    g.is_active
    && (any (λ (m : Modifier). m.id == id) g.modifiers
        || any (λ (m : Modifier). m.is_active && m.id == id) g.modifier_options)

abbrev pub offers : MenuItem → ℕ → Bool
offers m id = any (has_modifier id) (m.legacy_groups ++ m.modifier_groups)

module _ {A : Type 0} (p : A → Bool) where
  any-append : (xs ys : List A) → any p (xs ++ ys) ≡ (any p xs || any p ys)
  any-append [] ys = refl
  any-append (x ∷ xs) ys = ground (arith, any-append xs ys)

is_allowed-map :
    (g id : ℕ) (ms : List Modifier)
    → is_allowed (map (option_of g) ms) id ≡ any (λ (m : Modifier). m.id == id) ms
is_allowed-map g id [] = refl
is_allowed-map g id (m ∷ ms) = ground (arith, is_allowed-map g id ms)

any-select :
    (id : ℕ) (ms : List Modifier)
    → any (λ (m : Modifier). m.id == id) (select (λ (m : Modifier). m.is_active) ms)
      ≡ any (λ (m : Modifier). m.is_active && m.id == id) ms
any-select id [] = refl
any-select id (m ∷ ms) = ground (arith, any-select id ms)

legacy_options-offers :
    (id : ℕ) (gs : List ModifierGroup)
    → is_allowed (legacy_options gs) id ≡ true
    → any (has_modifier id) gs ≡ true
unfolding legacy_options
legacy_options-offers id [] h = h
legacy_options-offers id (g ∷ gs) h = ground (
  arith,
  any-append (λ (o : AllowedOption). o.id == id)
      (if g.is_active then map (option_of g.id) g.modifiers else []) (legacy_options gs),
  is_allowed-map g.id id g.modifiers,
  legacy_options-offers id gs,
)

group_options-offers :
    (id : ℕ) (seen : List ℕ) (gs : List ModifierGroup)
    → is_allowed (group_options (active_groups seen gs)) id ≡ true
    → any (has_modifier id) gs ≡ true
unfolding group_options active_groups
group_options-offers id seen [] h = h
group_options-offers id seen (g ∷ gs) h = ground (
  arith,
  any-append (λ (o : AllowedOption). o.id == id)
      (map (option_of g.id) (select (λ (m : Modifier). m.is_active) g.modifier_options))
      (group_options (active_groups (g.id ∷ seen) gs)),
  is_allowed-map g.id id (select (λ (m : Modifier). m.is_active) g.modifier_options),
  any-select id g.modifier_options,
  group_options-offers id (g.id ∷ seen) gs,
)

allowed-offers : (m : MenuItem) (id : ℕ) → is_allowed (allowed m) id ≡ true → offers m id ≡ true
unfolding allowed
allowed-offers m id h = ground (
  arith,
  any-append (λ (o : AllowedOption). o.id == id) (legacy_options m.legacy_groups)
      (group_options (groups m)),
  any-append (has_modifier id) m.legacy_groups m.modifier_groups,
  legacy_options-offers id m.legacy_groups,
  group_options-offers id [] (m.legacy_groups ++ m.modifier_groups),
)

all-offers :
    (m : MenuItem) (ids : List ℕ)
    → all (is_allowed (allowed m)) ids ≡ true
    → All (λ id. offers m id ≡ true) ids
all-offers m [] h = tt
all-offers m (id ∷ ids) h = (allowed-offers m id (ground arith), all-offers m ids (ground arith))

-- How many of the selected modifiers a group may have.
pub record InBounds (options : List AllowedOption) (ids : List ℕ) (g : ModifierGroup) : Type 0 where
  pub required : g.is_required ≡ true → 1 ≤ selected_in options g.id ids
  pub enough : g.min_selection ≤ selected_in options g.id ids
  pub not_more : (most : ℕ) → g.max_selection ≡ some most → selected_in options g.id ids ≤ most

group_ok-InBounds :
    (options : List AllowedOption) (ids : List ℕ) (g : ModifierGroup)
    → group_ok options ids g ≡ true
    → InBounds options ids g
unfolding group_ok
group_ok-InBounds options ids g h = record {
  required = λ r. ground arith;
  enough = ground arith;
  not_more = λ most e. ground arith;
}

-- It holds of each active group that is the first one with its id.
abbrev pub OfEachFirst : (ModifierGroup → Type 0) → List ℕ → List ModifierGroup → Type 0
OfEachFirst P seen [] = Unit
OfEachFirst P seen (g ∷ gs) =
    (includes g.id seen ≡ false → g.is_active ≡ true → P g) × OfEachFirst P (g.id ∷ seen) gs

all-InBounds :
    (options : List AllowedOption) (ids seen : List ℕ) (gs : List ModifierGroup)
    → all (group_ok options ids) (active_groups seen gs) ≡ true
    → OfEachFirst (InBounds options ids) seen gs
unfolding active_groups
all-InBounds options ids seen [] h = tt
all-InBounds options ids seen (g ∷ gs) h = (
  λ unseen active. group_ok-InBounds options ids g (ground arith),
  all-InBounds options ids (g.id ∷ seen) gs (ground arith),
)

module _ (db : Prisma) (tenant new_id : ℕ) (menu : List MenuItem) (r : RequestedItem) where
  -- What an accepted position has to satisfy.
  pub record IsPriced (i : OrderItem) (m : MenuItem) : Type 0 where
    pub found : db.find_first (on_sale tenant r.menu_item_id) menu ≡ some m
    pub own_id : m.id ≡ r.menu_item_id
    pub own : m.tenant_id ≡ tenant
    pub active : m.is_active ≡ true
    pub not_listed : m.is_in_stop_list ≡ false
    pub not_stopped : m.is_stopped ≡ false
    pub item : i.item_id ≡ m.id
    pub quantity : i.quantity ≡ r.quantity
    pub selected : i.selected_modifiers ≡ r.selected_modifiers
    pub distinct : has_duplicates r.selected_modifiers ≡ false
    pub offered : All (λ id. offers m id ≡ true) r.selected_modifiers
    pub in_bounds :
        OfEachFirst
          (InBounds (allowed m) r.selected_modifiers)
          []
          (m.legacy_groups ++ m.modifier_groups)
    pub price : i.unit_price_byn ≡ m.price_byn + modifiers_price (allowed m) r.selected_modifiers

  -- A position is accepted only for a dish that is found on the menu of the restaurant under the
  -- requested id, active, and neither in the stop list nor stopped; its modifiers are distinct, each is
  -- offered by an active group of the dish, each active group (of several with one id the first) has as
  -- many as it asks for, at least one if it is required, and the price of one piece is that of the dish
  -- and of its modifiers.
  pub price_item-IsPriced :
      (i : OrderItem) → price_item db tenant menu new_id r ≡ ok i → (m : MenuItem) × IsPriced i m
  unfolding price_item
  price_item-IsPriced i h =
      elim (Option-cases (db.find_first (on_sale tenant r.menu_item_id) menu)) [
        | inl missing ↦ absurd (ground arith)
        | inr (m, found) ↦
            let sold = db.find_first_matches (on_sale tenant r.menu_item_id) menu m found in
            (
              m,
              record {
                found = found;
                own_id = ground arith;
                own = ground arith;
                active = ground arith;
                not_listed = ground arith;
                not_stopped = ground arith;
                item = ground arith;
                quantity = ground arith;
                selected = ground arith;
                distinct = ground arith;
                offered = all-offers m r.selected_modifiers (ground arith);
                in_bounds =
                    all-InBounds (allowed m) r.selected_modifiers []
                      (m.legacy_groups ++ m.modifier_groups) (ground arith);
                price = ground arith;
              },
            )
      ]
