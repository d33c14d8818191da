-- ===== src/Files/Listing.antt =====
-- What a walk lists: exactly the entries that can be reached through the directories it enters.
use fieldlink.Prelude.{
  ℕ, zero, suc, ℤ, String, Bool, true, ◌&&◌, List, [], ◌∷◌, ◌++◌, some, ◌≡◌, refl, sym, subst, ◌↔◌,
  inl, inr, All, All-append, All-map, All-Some, Some, Some-append_left, Some-append_right,
  Bool-cases, Option-cases,
}
use fieldlink.Files.{Services, View, Item}
use fieldlink.Files.Walk.{
  DirEntry, Listing, listed, failed, out_of_fuel, behind, and_then, is_kept, entry_of, visit_item,
  walk_items, walk,
}

-- The one way to list: both parts have been listed.
behind-listed :
    (xs : List DirEntry) (l : Listing) (es : List DirEntry)
    → behind xs l ≡ listed es
    → (ys : List DirEntry) × (l ≡ listed ys) × (xs ++ ys ≡ es)
behind-listed xs (listed ys) es h = (ys, refl, cc (h))
behind-listed xs failed es h = absurd (cc (h))
behind-listed xs out_of_fuel es h = absurd (cc (h))

and_then-listed :
    (l m : Listing) (es : List DirEntry)
    → and_then l m ≡ listed es
    → (xs : List DirEntry) × (l ≡ listed xs)
      × (ys : List DirEntry) × (m ≡ listed ys)
      × (xs ++ ys ≡ es)
and_then-listed (listed xs) m es h =
    let (ys, k, same) = behind-listed xs m es h in (xs, refl, ys, k, same)
and_then-listed failed m es h = absurd (cc (h))
and_then-listed out_of_fuel m es h = absurd (cc (h))

module _ {P : Type 0} (lib : Services) (fs : View P) (path_of : P → String) (glob : String)
    (recursive : Bool) where
  -- An item that the walk keeps in a directory: it passes the glob and has its Info.
  pub record IsKeptIn (dir : P) (item : Item) (info : ℤ × String) : Type 0 where
    pub items : List Item
    pub readable : fs.read_dir dir ≡ some items
    pub there : Some (λ x. x ≡ item) items
    pub kept : is_kept lib fs path_of glob recursive item ≡ true
    pub informed : item.info ≡ some info

  -- An entry for an item in the directory, or in one below it that the walk enters.
  pub data IsReached (e : DirEntry) : P → Type 0 where
    here :
        (dir : P) (item : Item) (info : ℤ × String)
        → IsKeptIn dir item info
        → e ≡ entry_of lib fs path_of glob recursive dir item info
        → IsReached e dir
    below :
        (dir : P) (item : Item) (info : ℤ × String)
        → IsKeptIn dir item info
        → (recursive && item.is_dir) ≡ true
        → IsReached e (fs.join dir item.name)
        → IsReached e dir

  visit_item-All :
      (visit : P → Listing) (dir : P) (item : Item) (items : List Item) (es : List DirEntry)
      → ((ds : List DirEntry)
          → visit (fs.join dir item.name) ≡ listed ds
          → All (λ e. IsReached e (fs.join dir item.name)) ds)
      → fs.read_dir dir ≡ some items
      → Some (λ x. x ≡ item) items
      → visit_item lib fs path_of glob recursive visit dir item ≡ listed es
      → All (λ e. IsReached e dir) es
  unfolding visit_item
  visit_item-All visit dir item items es sound readable there h =
      elim (Bool-cases (is_kept lib fs path_of glob recursive item)) [
        | inr a ↦
            let same : [] ≡ es = cc (rw (a, visit_item) at h) in
            subst (All (λ e. IsReached e dir)) same tt
        | inl a ↦ elim (Option-cases item.info) [
          | inl b ↦
              let same : [] ≡ es = cc (rw (a, b, visit_item) at h) in
              subst (All (λ e. IsReached e dir)) same tt
          | inr (info, b) ↦
              let kept : IsKeptIn dir item info = record {
                items = items;
                readable = readable;
                there = there;
                kept = a;
                informed = b;
              } in
              elim (Bool-cases (recursive && item.is_dir)) [
                | inr c ↦
                    let same : entry_of lib fs path_of glob recursive dir item info ∷ [] ≡ es =
                      cc (rw (a, b, c, visit_item) at h) in
                    subst (All (λ e. IsReached e dir)) same (here dir item info kept refl, tt)
                | inl c ↦
                    let (ds, k, same) =
                      behind-listed (entry_of lib fs path_of glob recursive dir item info ∷ [])
                        (visit (fs.join dir item.name)) es (rw (a, b, c, visit_item) at h) in
                    subst (All (λ e. IsReached e dir)) same (
                      here dir item info kept refl,
                      All-map (λ e r. below dir item info kept c r) ds (sound ds k),
                    )
              ]
        ]
      ]

  walk_items-All :
      (visit : P → Listing) (dir : P) (items rest : List Item) (es : List DirEntry)
      → ((d : P) (ds : List DirEntry) → visit d ≡ listed ds → All (λ e. IsReached e d) ds)
      → fs.read_dir dir ≡ some items
      → ((item : Item) → Some (λ x. x ≡ item) rest → Some (λ x. x ≡ item) items)
      → walk_items lib fs path_of glob recursive visit dir rest ≡ listed es
      → All (λ e. IsReached e dir) es
  unfolding walk_items
  walk_items-All visit dir items [] es sound readable within h =
      let same : [] ≡ es = cc (h) in subst (All (λ e. IsReached e dir)) same tt
  walk_items-All visit dir items (item ∷ rest) es sound readable within h =
      let (xs, k, ys, m, same) =
        and_then-listed (visit_item lib fs path_of glob recursive visit dir item)
          (walk_items lib fs path_of glob recursive visit dir rest) es h in
      subst (All (λ e. IsReached e dir)) same (
        All-append (λ e. IsReached e dir) xs ys
          (visit_item-All visit dir item items xs (sound (fs.join dir item.name)) readable
            (within item (inl refl)) k)
          (walk_items-All visit dir items rest ys sound readable (λ x p. within x (inr p)) m))

  walk-All :
      (fuel : ℕ) (dir : P) (es : List DirEntry)
      → walk lib fs path_of glob recursive fuel dir ≡ listed es
      → All (λ e. IsReached e dir) es
  unfolding walk
  walk-All zero dir es h = absurd (cc (h))
  walk-All (suc fuel) dir es h = elim (Option-cases (fs.read_dir dir)) [
    | inl a ↦ absurd (cc (rw (a, walk) at h))
    | inr (items, a) ↦
        walk_items-All (walk lib fs path_of glob recursive fuel) dir items items es
          (λ d ds k. walk-All fuel d ds k) a (λ item p. p) (rw (a, walk) at h)
  ]

  -- What the loop lists for one item it lists for all.
  walk_items-Some :
      (visit : P → Listing) (dir : P) (items : List Item) (item : Item) (es : List DirEntry)
      → Some (λ x. x ≡ item) items
      → walk_items lib fs path_of glob recursive visit dir items ≡ listed es
      → (xs : List DirEntry) × (visit_item lib fs path_of glob recursive visit dir item ≡ listed xs)
        × ((e : DirEntry) → Some (λ x. x ≡ e) xs → Some (λ x. x ≡ e) es)
  unfolding walk_items
  walk_items-Some visit dir [] item es p h = absurd p
  walk_items-Some visit dir (first ∷ items) item es p h =
      let (xs, k, ys, m, same) =
        and_then-listed (visit_item lib fs path_of glob recursive visit dir first)
          (walk_items lib fs path_of glob recursive visit dir items) es h in
      elim p [
        | inl q ↦ (
          xs,
          subst (λ x. visit_item lib fs path_of glob recursive visit dir x ≡ listed xs) q k,
          λ e r. subst (Some (λ x. x ≡ e)) same (Some-append_left (λ x. x ≡ e) xs ys r),
        )
        | inr q ↦
            let (zs, n, f) = walk_items-Some visit dir items item ys q m in
            (
              zs,
              n,
              λ e r. subst (Some (λ x. x ≡ e)) same (Some-append_right (λ x. x ≡ e) xs ys (f e r)),
            )
      ]

  -- The item's own entry is the first that it gives.
  visit_item-first :
      (visit : P → Listing) (dir : P) (item : Item) (info : ℤ × String) (xs : List DirEntry)
      → is_kept lib fs path_of glob recursive item ≡ true
      → item.info ≡ some info
      → visit_item lib fs path_of glob recursive visit dir item ≡ listed xs
      → Some (λ x. x ≡ entry_of lib fs path_of glob recursive dir item info) xs
  unfolding visit_item
  visit_item-first visit dir item info xs a b h = elim (Bool-cases (recursive && item.is_dir)) [
    | inr c ↦
        let same : entry_of lib fs path_of glob recursive dir item info ∷ [] ≡ xs =
          cc (rw (a, b, c, visit_item) at h) in
        subst (Some (λ x. x ≡ entry_of lib fs path_of glob recursive dir item info)) same (inl refl)
    | inl c ↦
        let (ds, k, same) =
          behind-listed (entry_of lib fs path_of glob recursive dir item info ∷ [])
            (visit (fs.join dir item.name)) xs (rw (a, b, c, visit_item) at h) in
        subst (Some (λ x. x ≡ entry_of lib fs path_of glob recursive dir item info)) same (inl refl)
  ]

  walk-Some :
      (fuel : ℕ) (dir : P) (es : List DirEntry) (e : DirEntry)
      → walk lib fs path_of glob recursive fuel dir ≡ listed es
      → IsReached e dir
      → Some (λ x. x ≡ e) es
  unfolding walk visit_item
  walk-Some zero dir es e h r = absurd (cc (h))
  walk-Some (suc fuel) dir es e h (here _ item info kept same) =
      let (xs, k, f) =
        walk_items-Some (walk lib fs path_of glob recursive fuel) dir kept.items item es kept.there
          (rw (kept.readable, walk) at h) in
      f e (
        subst (λ d. Some (λ x. x ≡ d) xs) (sym same)
          (visit_item-first (walk lib fs path_of glob recursive fuel) dir item info xs kept.kept
            kept.informed k))
  walk-Some (suc fuel) dir es e h (below _ item info kept entered r) =
      let (xs, k, f) =
        walk_items-Some (walk lib fs path_of glob recursive fuel) dir kept.items item es kept.there
          (rw (kept.readable, walk) at h) in
      let (ds, m, same) =
        behind-listed (entry_of lib fs path_of glob recursive dir item info ∷ [])
          (walk lib fs path_of glob recursive fuel (fs.join dir item.name)) xs
          (rw (kept.kept, kept.informed, entered, visit_item) at k) in
      f e (subst (Some (λ x. x ≡ e)) same (inr (walk-Some fuel (fs.join dir item.name) ds e m r)))

  -- A walk that ends without an error lists an entry exactly when the entry can be reached: it is of an
  -- item that passes the glob and has its Info, in the directory or in one below it that is entered.
  pub walk_iff :
      (fuel : ℕ) (dir : P) (es : List DirEntry) (e : DirEntry)
      → walk lib fs path_of glob recursive fuel dir ≡ listed es
      → Some (λ x. x ≡ e) es ↔ IsReached e dir
  walk_iff fuel dir es e h = (
    λ p. All-Some (λ x. IsReached x dir) es e (walk-All fuel dir es h) p,
    λ r. walk-Some fuel dir es e h r,
  )
