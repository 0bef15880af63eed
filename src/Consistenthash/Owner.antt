-- ===== src/Consistenthash/Owner.antt =====
-- Which node a key belongs to.
use go_redis.Base.{
  ℕ, zero, suc, ◌≤◌, ◌<◌, ◌≡◌, refl, sym, ap, subst, ◌≢◌, ◌⊎◌, inl, inr, false, Option, some, List,
  [], ◌∷◌, ◌++◌, arith, Bytes, length, get_elem?, All, All-append, leb, ◌==◌, leb→le, ==_refl,
  Bool-cases,
}
use go_redis.Consistenthash.{
  HashFunc, NodeMap, new_node_map, is_empty, node_at, insert_int, sort_ints, search_from, add_all,
  add_nodes, node_of, pick_node,
}

abbrev pub IsSorted : List ℕ → Type 0
IsSorted [] = Unit
IsSorted (x ∷ xs) = All (λ y. x ≤ y) xs × IsSorted xs

module _ (P : ℕ → Type 0) where
  pub All-get : (xs : List ℕ) (i y : ℕ) → All P xs → get_elem? xs i ≡ some y → P y
  All-get [] i y h e = cc
  All-get (x ∷ xs) zero y (p, h) e = ground (arith, e)
  All-get (x ∷ xs) (suc i) y (p, h) e = All-get xs i y h e

  pub All-insert_int : (x : ℕ) (ys : List ℕ) → P x → All P ys → All P (insert_int x ys)
  unfolding insert_int
  All-insert_int x [] p h = (p, tt)
  All-insert_int x (y ∷ ys) p (q, h) = elim (Bool-cases (leb x y)) [
    | inl e ↦ rw e (p, (q, h))
    | inr e ↦ rw e (q, All-insert_int x ys p h)
  ]

  pub All-sort_ints : (xs : List ℕ) → All P xs → All P (sort_ints xs)
  unfolding sort_ints
  All-sort_ints [] h = tt
  All-sort_ints (x ∷ xs) (p, h) = All-insert_int x (sort_ints xs) p (All-sort_ints xs h)

All-le : (x y : ℕ) (ys : List ℕ) → x ≤ y → All (λ z. y ≤ z) ys → All (λ z. x ≤ z) ys
All-le x y [] l h = tt
All-le x y (z ∷ zs) l (p, h) = (omega arith, All-le x y zs l h)

insert_int-IsSorted : (x : ℕ) (ys : List ℕ) → IsSorted ys → IsSorted (insert_int x ys)
unfolding insert_int
insert_int-IsSorted x [] h = (tt, tt)
insert_int-IsSorted x (y ∷ ys) (a, h) = elim (Bool-cases (leb x y)) [
  | inl e ↦ rw e ((leb→le x y e, All-le x y ys (leb→le x y e) a), (a, h))
  | inr e ↦
      let l : y ≤ x = ground (arith, e) in
      rw e (All-insert_int (λ z. y ≤ z) x ys l a, insert_int-IsSorted x ys h)
]

pub sort_ints-IsSorted : (xs : List ℕ) → IsSorted (sort_ints xs)
unfolding sort_ints
sort_ints-IsSorted [] = tt
sort_ints-IsSorted (x ∷ xs) = insert_int-IsSorted x (sort_ints xs) (sort_ints-IsSorted xs)

-- What a search in sorted hashes finds: that all are less, or the least one that is not.
abbrev pub IsNext : ℕ → List ℕ → ℕ → Type 0
IsNext h xs x = (h ≤ x) × All (λ y. (y < h) ⊎ (x ≤ y)) xs

All-next : (h x : ℕ) (xs : List ℕ) → All (λ y. x ≤ y) xs → All (λ y. (y < h) ⊎ (x ≤ y)) xs
All-next h x [] a = tt
All-next h x (y ∷ ys) (l, a) = (inr l, All-next h x ys a)

abbrev pub Found : ℕ → List ℕ → Type 0
Found h xs =
    (x : ℕ) × (search_from h xs < length xs)
    × (get_elem? xs (search_from h xs) ≡ some x)
    × IsNext h xs x

pub search_from_lem :
    (h : ℕ) (xs : List ℕ)
    → IsSorted xs
    → ((search_from h xs ≡ length xs) × All (λ y. y < h) xs) ⊎ Found h xs
unfolding search_from
search_from_lem h [] s = inl (refl, tt)
search_from_lem h (x ∷ xs) (a, s) = elim (Bool-cases (leb h x)) [
  | inl e ↦
      rw e (inr (x, omega arith, refl, (leb→le h x e, (inr (omega arith), All-next h x xs a))))
  | inr e ↦
      let l : x < h = ground (arith, e) in
      rw e (elim (search_from_lem h xs s) [
        | inl (f, b) ↦ inl (ap suc f, (l, b))
        | inr (y, f, g, (n, b)) ↦ inr (y, omega arith, g, (n, (inl l, b)))
      ])
]

pub suc-==_zero : (n : ℕ) → (suc n == 0) ≡ false
suc-==_zero n = ground arith

pub not_last : (i n : ℕ) → i < n → (i == n) ≡ false
not_last i n l = ground (arith, l)

module _ (hash : HashFunc) where
  -- The hash stands for a node of that hash, by its name.
  abbrev pub IsNamed : List (ℕ × Bytes) → ℕ → Type 0
  IsNamed m x = (n : Bytes) × (node_at m x ≡ some n) × (hash n ≡ x) × (n ≢ [])

  pub record IsValid (m : NodeMap) : Type 0 where
    pub sorted : IsSorted m.node_hashs
    pub names : All (IsNamed m.node_hash_map) m.node_hashs

  more-IsNamed :
      (m : List (ℕ × Bytes)) (n : Bytes) (xs : List ℕ)
      → n ≢ []
      → All (IsNamed m) xs
      → All (IsNamed ((hash n, n) ∷ m)) xs
  unfolding node_at
  more-IsNamed m n [] ne h = tt
  more-IsNamed m n (x ∷ xs) ne ((k, e, f, g), h) = (
    elim (Bool-cases (hash n == x)) [
      | inl p ↦ (n, rw p, ground (arith, p), ne)
      | inr p ↦ (k, rw p e, f, g)
    ],
    more-IsNamed m n xs ne h,
  )

  add_all-names :
      (m : NodeMap) (keys : List Bytes)
      → All (IsNamed m.node_hash_map) m.node_hashs
      → All (IsNamed (add_all hash m keys).node_hash_map) (add_all hash m keys).node_hashs
  unfolding add_all node_at
  add_all-names m [] h = h
  add_all-names m ([] ∷ keys) h = add_all-names m keys h
  add_all-names m ((c ∷ key) ∷ keys) h =
      let n = c ∷ key in
      let m' : NodeMap = record {
        node_hashs = m.node_hashs ++ hash n ∷ [];
        node_hash_map = (hash n, n) ∷ m.node_hash_map;
      } in
      add_all-names m' keys (
        All-append (IsNamed m'.node_hash_map) m.node_hashs (hash n ∷ [])
          (more-IsNamed m.node_hash_map n m.node_hashs (λ e. cc) h)
          ((n, rw (==_refl (hash n)), refl, λ e. cc), tt))

  -- AddNodes keeps a ring valid: its hashes are sorted, each with the name of a node of that hash.
  pub add_nodes-IsValid :
      (m : NodeMap) (keys : List Bytes) → IsValid m → IsValid (add_nodes hash m keys)
  unfolding add_nodes
  add_nodes-IsValid m keys v = record {
    sorted = sort_ints-IsSorted (add_all hash m keys).node_hashs;
    names =
        All-sort_ints (IsNamed (add_all hash m keys).node_hash_map) (add_all hash m keys).node_hashs
          (add_all-names m keys v.names);
  }

  pub new_node_map-IsValid : IsValid new_node_map
  new_node_map-IsValid = record { sorted = tt; names = tt }

  -- The node's hash is the next on the ring: the least that is not less than the key's, or the
  -- least of all if every hash is less.
  abbrev pub IsOwner : List ℕ → Bytes → Bytes → Type 0
  IsOwner xs key n =
      IsNext (hash key) xs (hash n) ⊎ (All (λ y. y < hash key) xs × All (λ y. hash n ≤ y) xs)

  -- What a read of the ring at the owner's hash gives.
  IsNamed-node_of :
      (m : NodeMap) (o : Option ℕ) (x : ℕ)
      → o ≡ some x
      → IsNamed m.node_hash_map x
      → (n : Bytes) × (node_of m o ≡ some n) × (hash n ≡ x) × (n ≢ [])
  unfolding node_of
  IsNamed-node_of m o x e (n, at, h, ne) = (n, rw (e, node_of, at), h, ne)

  IsNext-same : (xs : List ℕ) (h x y : ℕ) → y ≡ x → IsNext h xs x → IsNext h xs y
  IsNext-same xs h x y e n = subst (IsNext h xs) (sym e) n

  pick-found :
      (x : ℕ) (xs : List ℕ) (names : List (ℕ × Bytes)) (key : Bytes)
      → IsValid (record { node_hashs = x ∷ xs; node_hash_map = names })
      → let m : NodeMap = record { node_hashs = x ∷ xs; node_hash_map = names } in
        (n : Bytes) × (pick_node hash m key ≡ some n) × (n ≢ []) × IsOwner (x ∷ xs) key n
  unfolding pick_node is_empty
  pick-found x xs names key v =
      let m : NodeMap = record { node_hashs = x ∷ xs; node_hash_map = names } in
      let idx = search_from (hash key) (x ∷ xs) in
      elim (search_from_lem (hash key) (x ∷ xs) v.sorted) [
        | inl (f, b) ↦
            let (n, e, h, ne) = IsNamed-node_of m (some x) x refl v.names.0 in
            (
              n,
              rw (f, ==_refl (length (x ∷ xs)), suc-==_zero (length xs)) e,
              ne,
              inr (b, subst (λ z. All (λ y. z ≤ y) (x ∷ xs)) (sym h) (omega arith, v.sorted.0)),
            )
        | inr (y, l, g, next) ↦
            let (n, e, h, ne) =
              IsNamed-node_of m (get_elem? (x ∷ xs) idx) y g
                (All-get (IsNamed names) (x ∷ xs) idx y v.names g) in
            (
              n,
              rw (not_last idx (length (x ∷ xs)) l, suc-==_zero (length xs)) e,
              ne,
              inl (IsNext-same (x ∷ xs) (hash key) y (hash n) h next),
            )
      ]

  pick-ring :
      (xs : List ℕ) (names : List (ℕ × Bytes)) (key : Bytes)
      → IsValid (record { node_hashs = xs; node_hash_map = names })
      → xs ≢ []
      → let m : NodeMap = record { node_hashs = xs; node_hash_map = names } in
        (n : Bytes) × (pick_node hash m key ≡ some n) × (n ≢ []) × IsOwner xs key n
  pick-ring [] names key v some_node = absurd (some_node refl)
  pick-ring (x ∷ xs) names key v some_node = pick-found x xs names key v

  pub pick_node-IsOwner :
      (m : NodeMap) (key : Bytes)
      → IsValid m
      → m.node_hashs ≢ []
      → (n : Bytes) × (pick_node hash m key ≡ some n) × (n ≢ []) × IsOwner m.node_hashs key n
  pick_node-IsOwner m key v some_node = pick-ring m.node_hashs m.node_hash_map key v some_node
