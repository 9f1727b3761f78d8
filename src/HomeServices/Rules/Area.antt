-- ===== src/HomeServices/Rules/Area.antt =====
-- Which area an address falls in.
use v2_backend.HomeServices.Rules.{
  AreaRule, insert_by_km, sort_by_km, covering, match_area, measured, area_by_pincode,
}
use v2_backend.HomeServices.Model.{Point}
use v2_backend.Common.{
  ℕ, ◌≡◌, List, some, ◌∷◌, All, ◌≤◌, Bool-cases, [], leb, inl, inr, arith, Option, select, ◌++◌,
  true, ◌⊎◌, none, refl, Text,
}

module _ (distance : Point → Point → ℕ) where
  -- The area's pin is so far from the point, within its radius.
  abbrev pub IsCovering : Point → AreaRule → ℕ → Type 0
  IsCovering at a km = (pin : Point) × (a.pin ≡ some pin) × (distance at pin ≡ km) × (km ≤ a.radius)

  abbrev IsSorted : List (AreaRule × ℕ) → Type 0
  IsSorted [] = Unit
  IsSorted (m ∷ rest) = All (λ n. m.1 ≤ n.1) rest × IsSorted rest

  module _ (P : AreaRule × ℕ → Type 0) where
    All-insert_by_km :
        (m : AreaRule × ℕ) (l : List (AreaRule × ℕ))
        → P m
        → All P l
        → All P (insert_by_km distance m l)
    unfolding insert_by_km
    All-insert_by_km m [] p h = (p, tt)
    All-insert_by_km m (n ∷ l) p h = elim (Bool-cases (leb m.1 n.1)) [
      | inl e ↦ rw e (p, h)
      | inr e ↦ rw e (h.0, All-insert_by_km m l p h.1)
    ]

    All-sort_by_km : (l : List (AreaRule × ℕ)) → All P l → All P (sort_by_km distance l)
    unfolding sort_by_km
    All-sort_by_km [] h = tt
    All-sort_by_km (m ∷ l) h = All-insert_by_km m (sort_by_km distance l) h.0 (All-sort_by_km l h.1)

    All-of_insert_by_km :
        (m : AreaRule × ℕ) (l : List (AreaRule × ℕ))
        → All P (insert_by_km distance m l)
        → P m × All P l
    unfolding insert_by_km
    All-of_insert_by_km m [] h = (h.0, tt)
    All-of_insert_by_km m (n ∷ l) h = elim (Bool-cases (leb m.1 n.1)) [
      | inl e ↦ rw e at h
      | inr e ↦
          let (here, later) : P n × All P (insert_by_km distance m l) = rw e at h in
          let (first, rest) = All-of_insert_by_km m l later in (first, (here, rest))
    ]

    All-of_sort_by_km : (l : List (AreaRule × ℕ)) → All P (sort_by_km distance l) → All P l
    unfolding sort_by_km
    All-of_sort_by_km [] h = tt
    All-of_sort_by_km (m ∷ l) h =
        let (first, rest) = All-of_insert_by_km m (sort_by_km distance l) h in
        (first, All-of_sort_by_km l rest)

    All-append : (k l : List (AreaRule × ℕ)) → All P k → All P l → All P (k ++ l)
    All-append [] l h i = i
    All-append (m ∷ k) l h i = (h.0, All-append k l h.1 i)

    All-of_append : (k l : List (AreaRule × ℕ)) → All P (k ++ l) → All P k × All P l
    All-of_append [] l h = (tt, h)
    All-of_append (m ∷ k) l h = let (x, y) = All-of_append k l h.1 in ((h.0, x), y)

  All-le_trans :
      (a b : ℕ) (l : List (AreaRule × ℕ)) → a ≤ b → All (λ n. b ≤ n.1) l → All (λ n. a ≤ n.1) l
  All-le_trans a b [] h i = tt
  All-le_trans a b (m ∷ l) h i = (omega arith, All-le_trans a b l h i.1)

  insert_by_km-IsSorted :
      (m : AreaRule × ℕ) (l : List (AreaRule × ℕ))
      → IsSorted l
      → IsSorted (insert_by_km distance m l)
  unfolding insert_by_km
  insert_by_km-IsSorted m [] h = (tt, tt)
  insert_by_km-IsSorted m (n ∷ l) h = elim (Bool-cases (leb m.1 n.1)) [
    | inl e ↦ rw e ((ground arith, All-le_trans m.1 n.1 l (ground arith) h.0), h)
    | inr e ↦
        rw e
          (All-insert_by_km (λ x. n.1 ≤ x.1) m l (ground arith) h.0, insert_by_km-IsSorted m l h.1)
  ]

  sort_by_km-IsSorted : (l : List (AreaRule × ℕ)) → IsSorted (sort_by_km distance l)
  unfolding sort_by_km
  sort_by_km-IsSorted [] = tt
  sort_by_km-IsSorted (m ∷ l) =
      insert_by_km-IsSorted m (sort_by_km distance l) (sort_by_km-IsSorted l)

  IsCovering-one :
      (at : Point) (a : AreaRule) (o : Option Point)
      → a.pin ≡ o
      → All
          (λ m. IsCovering at m.0 m.1)
          (select (λ m. leb m.1 m.0.radius) (measured distance at a o))
  IsCovering-one at a none e = tt
  IsCovering-one at a (some pin) e = elim (Bool-cases (leb (distance at pin) a.radius)) [
    | inl within ↦ rw within ((pin, e, refl, ground arith), tt)
    | inr beyond ↦ rw beyond tt
  ]

  covering_sound :
      (at : Point) (areas : List AreaRule)
      → All (λ m. IsCovering at m.0 m.1) (covering distance at areas)
  unfolding covering
  covering_sound at [] = tt
  covering_sound at (a ∷ areas) =
      All-append (λ m. IsCovering at m.0 m.1) _ (covering distance at areas)
        (IsCovering-one at a a.pin refl) (covering_sound at areas)

  module _ (P : AreaRule × ℕ → Type 0) where
    covering_of_one :
        (at : Point) (a : AreaRule) (o : Option Point)
        → a.pin ≡ o
        → All P (select (λ m. leb m.1 m.0.radius) (measured distance at a o))
        → (km : ℕ) → IsCovering at a km
        → P (a, km)
    covering_of_one at a none e h km (pin, f, _, _) = ground arith
    covering_of_one at a (some q) e h km (pin, f, d, within) =
        let same : q ≡ pin = ground arith in
        let far : distance at q ≡ km = rw same d in
        let test : leb km a.radius ≡ true = ground arith in (rw (far, test) at h).0

    covering_complete :
        (at : Point) (areas : List AreaRule)
        → All P (covering distance at areas)
        → All (λ a. (km : ℕ) → IsCovering at a km → P (a, km)) areas
    unfolding covering
    covering_complete at [] h = tt
    covering_complete at (a ∷ areas) h =
        let (x, y) =
          All-of_append P (select (λ m. leb m.1 m.0.radius) (measured distance at a a.pin))
            (covering distance at areas) h in
        (covering_of_one at a a.pin refl x, covering_complete at areas y)

  -- The area matched to a pinned address covers it and none that covers it is nearer, or none covers it
  -- and the area is the first whose pincode the address names.
  pub match_area_nearest :
      (areas : List AreaRule) (text : Text) (at : Point) (a : AreaRule)
      → match_area distance areas text (some at) ≡ some a
      → ((km : ℕ) × IsCovering at a km
          × All (λ b. (far : ℕ) → IsCovering at b far → km ≤ far) areas)
        ⊎ (All (λ b. (far : ℕ) → ¬ (IsCovering at b far)) areas
            × (area_by_pincode areas text ≡ some a))
  unfolding match_area
  match_area_nearest areas text at a e = go (sort_by_km distance (covering distance at areas)) refl
    where
      go :
          (l : List (AreaRule × ℕ))
          → sort_by_km distance (covering distance at areas) ≡ l
          → ((km : ℕ) × IsCovering at a km
              × All (λ b. (far : ℕ) → IsCovering at b far → km ≤ far) areas)
            ⊎ (All (λ b. (far : ℕ) → ¬ (IsCovering at b far)) areas
                × (area_by_pincode areas text ≡ some a))
      go [] s = inr (
        covering_complete (λ m. ⊥) at areas
            (All-of_sort_by_km (λ m. ⊥) (covering distance at areas) (rw s tt)),
        ground arith,
      )
      go (m ∷ l) s =
          let sound : All (λ m. IsCovering at m.0 m.1) (m ∷ l) = rw s at (
            All-sort_by_km (λ m. IsCovering at m.0 m.1) (covering distance at areas)
              (covering_sound at areas)) in
          let sorted : IsSorted (m ∷ l) =
            rw s at (sort_by_km-IsSorted (covering distance at areas)) in
          let least : All (λ n. m.1 ≤ n.1) (covering distance at areas) =
            All-of_sort_by_km (λ n. m.1 ≤ n.1) (covering distance at areas)
              (rw s (omega arith, sorted.0)) in
          let first : m.0 ≡ a = ground arith in
          inl (m.1, rw (← first) sound.0, covering_complete (λ n. m.1 ≤ n.1) at areas least)
