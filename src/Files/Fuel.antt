-- ===== src/Files/Fuel.antt =====
-- The fuel of a walk: the height of the tree below a directory is enough.
use fieldlink.Prelude.{
  ℕ, zero, suc, String, Bool, true, false, ◌&&◌, List, [], ◌∷◌, none, some, ◌≡◌, ◌≢◌, ◌⊎◌, inl, inr,
  All, All-map, Bool-cases, arith, Option-cases,
}
use fieldlink.Files.{Services, View, Item}
use fieldlink.Files.Walk.{
  DirEntry, Listing, listed, failed, out_of_fuel, behind, and_then, is_kept, entry_of, visit_item,
  walk_items, walk,
}

module _ {P : Type 0} (fs : View P) where
  -- The tree below a directory is less than `n` directories high.
  abbrev pub HasHeight : ℕ → P → Type 0
  HasHeight zero dir = ⊥
  HasHeight (suc n) dir =
      (fs.read_dir dir ≡ none)
      ⊎ ((items : List Item) × (fs.read_dir dir ≡ some items)
          × All (λ item. (item.is_dir ≡ false) ⊎ HasHeight n (fs.join dir item.name)) items)

map_right : {A B C : Type 0} → (B → C) → A ⊎ B → A ⊎ C
map_right f (inl a) = inl a
map_right f (inr b) = inr (f b)

abbrev Ends : Listing → Type 0
Ends (listed es) = Unit
Ends failed = Unit
Ends out_of_fuel = ⊥

behind-Ends : (es : List DirEntry) (l : Listing) → Ends l → Ends (behind es l)
behind-Ends es (listed fs) h = tt
behind-Ends es failed h = tt
behind-Ends es out_of_fuel h = h

and_then-Ends : (l m : Listing) → Ends l → Ends m → Ends (and_then l m)
and_then-Ends (listed es) m h k = behind-Ends es m k
and_then-Ends failed m h k = tt
and_then-Ends out_of_fuel m h k = h

Ends→neq : (l : Listing) → Ends l → l ≢ out_of_fuel
Ends→neq (listed es) h p = cc
Ends→neq failed h p = cc
Ends→neq out_of_fuel h p = h

not_dir : (r b : Bool) → (r && b) ≡ true → b ≡ false → ⊥
not_dir r b h k = ground arith

module _ {P : Type 0} (lib : Services) (fs : View P) (path_of : P → String) (glob : String)
    (recursive : Bool) where
  visit_item-Ends :
      (visit : P → Listing) (dir : P) (item : Item)
      → (item.is_dir ≡ false) ⊎ Ends (visit (fs.join dir item.name))
      → Ends (visit_item lib fs path_of glob recursive visit dir item)
  unfolding visit_item
  visit_item-Ends visit dir item h =
      elim (Bool-cases (is_kept lib fs path_of glob recursive item)) [
        | inr a ↦ rw (a, visit_item) tt
        | inl a ↦ elim (Option-cases item.info) [
          | inl b ↦ rw (a, b, visit_item) tt
          | inr (info, b) ↦ elim (Bool-cases (recursive && item.is_dir)) [
            | inr c ↦ rw (a, b, c, visit_item) tt
            | inl c ↦ elim h [
              | inl d ↦ absurd (not_dir recursive item.is_dir c d)
              | inr d ↦
                  rw (a, b, c, visit_item)
                    (behind-Ends (entry_of lib fs path_of glob recursive dir item info ∷ [])
                      (visit (fs.join dir item.name)) d)
            ]
          ]
        ]
      ]

  walk_items-Ends :
      (visit : P → Listing) (dir : P) (items : List Item)
      → All (λ item. (item.is_dir ≡ false) ⊎ Ends (visit (fs.join dir item.name))) items
      → Ends (walk_items lib fs path_of glob recursive visit dir items)
  unfolding walk_items
  walk_items-Ends visit dir [] h = tt
  walk_items-Ends visit dir (item ∷ items) (p, h) =
      and_then-Ends (visit_item lib fs path_of glob recursive visit dir item)
        (walk_items lib fs path_of glob recursive visit dir items)
        (visit_item-Ends visit dir item p) (walk_items-Ends visit dir items h)

  walk-Ends :
      (fuel : ℕ) (dir : P)
      → HasHeight fs fuel dir
      → Ends (walk lib fs path_of glob recursive fuel dir)
  unfolding walk
  walk-Ends zero dir h = h
  walk-Ends (suc fuel) dir (inl a) = rw (a, walk) tt
  walk-Ends (suc fuel) dir (inr (items, a, below)) =
      rw (a, walk)
        (walk_items-Ends (walk lib fs path_of glob recursive fuel) dir items
          (All-map (λ item. map_right (walk-Ends fuel (fs.join dir item.name))) items below))

  -- A walk ends on any fuel that is more than the height of the tree below its directory.
  pub walk-HasHeight :
      (fuel : ℕ) (dir : P)
      → HasHeight fs fuel dir
      → walk lib fs path_of glob recursive fuel dir ≢ out_of_fuel
  walk-HasHeight fuel dir h =
      Ends→neq (walk lib fs path_of glob recursive fuel dir) (walk-Ends fuel dir h)
