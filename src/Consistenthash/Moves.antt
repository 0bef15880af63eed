-- ===== src/Consistenthash/Moves.antt =====
-- What a new node changes.
use go_redis.Base.{
  ℕ, ◌≤◌, ◌<◌, ◌≡◌, refl, sym, ap, ◌∙◌, subst, ◌≢◌, ◌⊎◌, inl, inr, true, false, some, List, [], ◌∷◌,
  ◌++◌, arith, Bytes, length, All, All-append, leb, ◌==◌, ==_refl, Bool-cases,
}
use go_redis.Consistenthash.{
  HashFunc, NodeMap, is_empty, node_at, insert_int, sort_ints, search_from, add_all, add_nodes,
  node_of, pick_node,
}
use go_redis.Consistenthash.Owner.{
  IsSorted, IsNext, IsValid, All-get, All-sort_ints, search_from_lem, sort_ints-IsSorted, not_last,
  suc-==_zero,
}

-- The hash that `PickNode` reads.
abbrev IsTurn : ℕ → List ℕ → ℕ → Type 0
IsTurn h xs x = IsNext h xs x ⊎ (All (λ y. y < h) xs × All (λ y. x ≤ y) xs)

abbrev Within : List ℕ → ℕ → Type 1
Within xs x = (P : ℕ → Type 0) → All P xs → P x

turn_unique :
    (h : ℕ) (xs : List ℕ) (x y : ℕ)
    → Within xs x
    → Within xs y
    → IsTurn h xs x
    → IsTurn h xs y
    → x ≡ y
turn_unique h xs x y p q (inl (a, b)) (inl (c, d)) = let e = p _ d in let f = q _ b in grind arith
turn_unique h xs x y p q (inl (a, b)) (inr (c, d)) = let e = p _ c in absurd (omega arith)
turn_unique h xs x y p q (inr (a, b)) (inl (c, d)) = let e = q _ a in absurd (omega arith)
turn_unique h xs x y p q (inr (a, b)) (inr (c, d)) = let e = p _ d in let f = q _ b in omega arith

module _ (P : ℕ → Type 0) where
  All-of-insert_int : (x : ℕ) (ys : List ℕ) → All P (insert_int x ys) → P x × All P ys
  unfolding insert_int
  All-of-insert_int x [] (p, h) = (p, tt)
  All-of-insert_int x (y ∷ ys) h = elim (Bool-cases (leb x y)) [
    | inl e ↦ let (p, (q, r)) = rw e at h in (p, (q, r))
    | inr e ↦ let (q, r) = rw e at h in let (p, s) = All-of-insert_int x ys r in (p, (q, s))
  ]

  All-of-sort_ints : (xs : List ℕ) → All P (sort_ints xs) → All P xs
  unfolding sort_ints
  All-of-sort_ints [] h = tt
  All-of-sort_ints (x ∷ xs) h =
      let (p, r) = All-of-insert_int x (sort_ints xs) h in (p, All-of-sort_ints xs r)

  All-front : (xs ys : List ℕ) → All P (xs ++ ys) → All P xs
  All-front [] ys h = tt
  All-front (x ∷ xs) ys (p, h) = (p, All-front xs ys h)

module _ (hash : HashFunc) where
  -- What PickNode reads: a hash of the ring, whose turn it is, and then its name.
  picked :
      (x : ℕ) (xs : List ℕ) (names : List (ℕ × Bytes)) (key : Bytes)
      → IsSorted (x ∷ xs)
      → let m : NodeMap = record { node_hashs = x ∷ xs; node_hash_map = names } in
        (y : ℕ) × (pick_node hash m key ≡ node_of m (some y))
        × Within (x ∷ xs) y
        × IsTurn (hash key) (x ∷ xs) y
  unfolding pick_node is_empty
  picked x xs names key s =
      let m : NodeMap = record { node_hashs = x ∷ xs; node_hash_map = names } in
      let idx = search_from (hash key) (x ∷ xs) in
      elim (search_from_lem (hash key) (x ∷ xs) s) [
        | inl (f, b) ↦ (
          x,
          rw (f, ==_refl (length (x ∷ xs)), suc-==_zero (length xs)),
          λ P a. a.0,
          inr (b, (omega arith, s.0)),
        )
        | inr (y, l, g, next) ↦ (
          y,
          rw (not_last idx (length (x ∷ xs)) l, suc-==_zero (length xs), g),
          λ P a. All-get P (x ∷ xs) idx y a g,
          inl next,
        )
      ]

  picked-ring :
      (xs : List ℕ) (names : List (ℕ × Bytes)) (key : Bytes)
      → IsSorted xs
      → xs ≢ []
      → let m : NodeMap = record { node_hashs = xs; node_hash_map = names } in
        (y : ℕ) × (pick_node hash m key ≡ node_of m (some y)) × Within xs y × IsTurn (hash key) xs y
  picked-ring [] names key s some_node = absurd (some_node refl)
  picked-ring (x ∷ xs) names key s some_node = picked x xs names key s

  All-or : (P : ℕ → Type 0) (h : ℕ) (xs : List ℕ) → All P xs → All (λ z. (z ≡ h) ⊎ P z) xs
  All-or P h [] a = tt
  All-or P h (x ∷ xs) (p, a) = (inr p, All-or P h xs a)

  not_nil : (xs : List ℕ) → xs ≢ [] → ¬ All (λ _. ⊥) xs
  not_nil [] ne a = ne refl
  not_nil (x ∷ xs) ne a = a.0

  node_of-new :
      (hs : List ℕ) (names : List (ℕ × Bytes)) (h y : ℕ) (n : Bytes)
      → (h == y) ≡ true
      → node_of (record { node_hashs = hs; node_hash_map = (h, n) ∷ names }) (some y) ≡ some n
  unfolding node_of node_at
  node_of-new hs names h y n p = rw (p, node_of)

  node_of-old :
      (hs xs : List ℕ) (names : List (ℕ × Bytes)) (h y : ℕ) (n : Bytes)
      → (h == y) ≡ false
      → node_of (record { node_hashs = hs; node_hash_map = (h, n) ∷ names }) (some y)
        ≡ node_of (record { node_hashs = xs; node_hash_map = names }) (some y)
  unfolding node_of node_at
  node_of-old hs xs names h y n p = rw (p, node_of)

  -- A node that is added to a valid ring with a node takes keys to itself and moves no key between
  -- the others: PickNode then returns the new node, or the node that it returned before.
  pub add_nodes-moves :
      (m : NodeMap) (c : ℕ) (rest key : Bytes)
      → IsValid hash m
      → m.node_hashs ≢ []
      → let after = pick_node hash (add_nodes hash m ((c ∷ rest) ∷ [])) key in
        (after ≡ some (c ∷ rest)) ⊎ (after ≡ pick_node hash m key)
  unfolding add_nodes add_all
  add_nodes-moves m c rest key v some_node =
      let n = c ∷ rest in
      let h = hash n in
      let xs = m.node_hashs in
      let all : (P : ℕ → Type 0) → All P (sort_ints (xs ++ h ∷ [])) → All P xs =
        λ P a. All-front P xs (h ∷ []) (All-of-sort_ints P (xs ++ h ∷ []) a) in
      let ne : sort_ints (xs ++ h ∷ []) ≢ [] =
        λ e. not_nil xs some_node (all (λ _. ⊥) (subst (All (λ _. ⊥)) (sym e) tt)) in
      let (y, e, w, t) =
        picked-ring (sort_ints (xs ++ h ∷ [])) ((h, n) ∷ m.node_hash_map) key
          (sort_ints-IsSorted (xs ++ h ∷ [])) ne in
      let (x, f, u, s) = picked-ring xs m.node_hash_map key v.sorted some_node in
      elim (Bool-cases (h == y)) [
        | inl p ↦ inl (e ∙ node_of-new (sort_ints (xs ++ h ∷ [])) m.node_hash_map h y n p)
        | inr p ↦
            let within : Within xs y = λ P a.
              elim (w (λ z. (z ≡ h) ⊎ P z)
                (All-sort_ints (λ z. (z ≡ h) ⊎ P z) (xs ++ h ∷ [])
                  (All-append (λ z. (z ≡ h) ⊎ P z) xs (h ∷ []) (All-or P h xs a) (inl refl, tt)))) [
                    | inl q ↦ absurd (ground (arith, p, q))
                    | inr q ↦ q
                  ] in
            let turn : IsTurn (hash key) xs y = elim t [
              | inl (a, b) ↦ inl (a, all _ b)
              | inr (a, b) ↦ inr (all _ a, all _ b)
            ] in
            let same : y ≡ x = turn_unique (hash key) xs y x within u turn s in
            inr (
              e
              ∙ node_of-old (sort_ints (xs ++ h ∷ [])) xs m.node_hash_map h y n p
              ∙ ap (λ z. node_of m (some z)) same
              ∙ sym f)
      ]
