-- ===== src/Cluster/Owners.antt =====
-- Which node a command of one key goes to: the same one from every node.
use mathlib.Core.List.{Permᴰ, Memᴰ}
use go_redis.Base.{
  ℕ, zero, suc, ◌≡◌, refl, sym, ap, ◌∙◌, subst, inl, inr, some, List, [], ◌∷◌, ◌++◌, append_assoc,
  append-nil, arith, Bytes, length, get_elem?, All, ◌==◌, if◌then◌else◌, ==_iff, Bool-cases,
}
use go_redis.Consistenthash.Owner.{IsNamed, new_node_map-IsValid, add_nodes-IsValid}
use go_redis.Cluster.Broadcast.{All-Permᴰ}
use go_redis.Cluster.Relay.{make_cluster}
use go_redis.Consistenthash.{
  HashFunc, NodeMap, new_node_map, is_empty, node_at, insert_int, sort_ints, search_from, node_of,
  add_all, add_nodes, pick_node,
}

insert_int-insert_int :
    (x y : ℕ) (zs : List ℕ) → insert_int x (insert_int y zs) ≡ insert_int y (insert_int x zs)
unfolding insert_int
insert_int-insert_int x y [] = ground arith
insert_int-insert_int x y (z ∷ zs) = ground (arith, insert_int-insert_int x y zs)

-- The hashes of the names, an empty name skipped.
unfoldable pub hashes : HashFunc → List Bytes → List ℕ
hashes hash [] = []
hashes hash ([] ∷ keys) = hashes hash keys
hashes hash ((c ∷ key) ∷ keys) = hash (c ∷ key) ∷ hashes hash keys

module _ (hash : HashFunc) where
  sort_ints-first :
      (k : Bytes) (xs ys : List Bytes)
      → sort_ints (hashes hash xs) ≡ sort_ints (hashes hash ys)
      → sort_ints (hashes hash (k ∷ xs)) ≡ sort_ints (hashes hash (k ∷ ys))
  unfolding sort_ints hashes
  sort_ints-first [] xs ys e = e
  sort_ints-first (c ∷ k) xs ys e = ap (insert_int (hash (c ∷ k))) e

  sort_ints-two :
      (a b : Bytes) (xs : List Bytes)
      → sort_ints (hashes hash (a ∷ b ∷ xs)) ≡ sort_ints (hashes hash (b ∷ a ∷ xs))
  unfolding sort_ints hashes
  sort_ints-two [] [] xs = refl
  sort_ints-two [] (d ∷ j) xs = refl
  sort_ints-two (c ∷ k) [] xs = refl
  sort_ints-two (c ∷ k) (d ∷ j) xs =
      insert_int-insert_int (hash (c ∷ k)) (hash (d ∷ j)) (sort_ints (hashes hash xs))

  sort_ints-hashes :
      {xs ys : List Bytes} → Permᴰ xs ys → sort_ints (hashes hash xs) ≡ sort_ints (hashes hash ys)
  sort_ints-hashes Permᴰ.nil = refl
  sort_ints-hashes (Permᴰ.cons {a = a} {l₁ = l} {l₂ = k} e p) =
      sort_ints-first a l k (sort_ints-hashes p) ∙ ap (λ b. sort_ints (hashes hash (b ∷ k))) e
  sort_ints-hashes (Permᴰ.swap {a = a} {b = b} {a' = c} {l = l} e f) =
      sort_ints-two a b l
      ∙ (ap (λ d. sort_ints (hashes hash (d ∷ a ∷ l))) f
          ∙ ap (λ d. sort_ints (hashes hash (c ∷ d ∷ l))) e)
  sort_ints-hashes (Permᴰ.trans p q) = sort_ints-hashes p ∙ sort_ints-hashes q

  add_all-hashes :
      (m : NodeMap) (keys : List Bytes)
      → (add_all hash m keys).node_hashs ≡ m.node_hashs ++ hashes hash keys
  unfolding add_all hashes
  add_all-hashes m [] = sym (append-nil m.node_hashs)
  add_all-hashes m ([] ∷ keys) = add_all-hashes m keys
  add_all-hashes m ((c ∷ key) ∷ keys) =
      add_all-hashes
        (record {
          node_hashs = m.node_hashs ++ hash (c ∷ key) ∷ [];
          node_hash_map = (hash (c ∷ key), c ∷ key) ∷ m.node_hash_map;
        })
        keys
      ∙ append_assoc m.node_hashs (hash (c ∷ key) ∷ []) (hashes hash keys)

  -- The name stands under its own hash and has the property.
  abbrev pub IsEntry : (Bytes → Type 0) → ℕ × Bytes → Type 0
  IsEntry P e = P e.1 × (hash e.1 ≡ e.0)

  add_all-IsEntry :
      (P : Bytes → Type 0) (m : NodeMap) (keys : List Bytes)
      → All P keys
      → All (IsEntry P) m.node_hash_map
      → All (IsEntry P) (add_all hash m keys).node_hash_map
  unfolding add_all
  add_all-IsEntry P m [] h e = e
  add_all-IsEntry P m ([] ∷ keys) (p, h) e = add_all-IsEntry P m keys h e
  add_all-IsEntry P m ((c ∷ key) ∷ keys) (p, h) e =
      add_all-IsEntry P
        (record {
          node_hashs = m.node_hashs ++ hash (c ∷ key) ∷ [];
          node_hash_map = (hash (c ∷ key), c ∷ key) ∷ m.node_hash_map;
        })
        keys h ((p, refl), e)

  pub node_at-IsEntry :
      (P : Bytes → Type 0) (m : List (ℕ × Bytes)) (x : ℕ) (n : Bytes)
      → All (IsEntry P) m
      → node_at m x ≡ some n
      → P n × (hash n ≡ x)
  unfolding node_at
  node_at-IsEntry P [] x n h e = cc
  node_at-IsEntry P ((y, k) ∷ m) x n ((p, q), h) e = elim (Bool-cases (y == x)) [
    | inl same ↦
        let is : k ≡ n = ground (arith, same, e) in
        (subst P is p, ap hash (sym is) ∙ (q ∙ (==_iff y x).0 same))
    | inr other ↦ node_at-IsEntry P m x n h (ground (arith, other, e))
  ]

  pick-same :
      (hs : List ℕ) (m k : List (ℕ × Bytes)) (xs : List ℕ) (i : ℕ)
      → All (λ x. node_at m x ≡ node_at k x) xs
      → node_of (record { node_hashs = hs; node_hash_map = m }) (get_elem? xs i)
        ≡ node_of (record { node_hashs = hs; node_hash_map = k }) (get_elem? xs i)
  unfolding node_of
  pick-same hs m k [] i h = refl
  pick-same hs m k (x ∷ xs) zero (e, h) = rw (node_of, e) refl
  pick-same hs m k (x ∷ xs) (suc i) (e, h) = pick-same hs m k xs i h

  -- Rings with the same hashes and the same names pick the same node.
  pick_node-same :
      (m k : NodeMap) (key : Bytes)
      → m.node_hashs ≡ k.node_hashs
      → All (λ x. node_at m.node_hash_map x ≡ node_at k.node_hash_map x) m.node_hashs
      → pick_node hash m key ≡ pick_node hash k key
  unfolding pick_node is_empty
  pick_node-same m k key e h =
      let idx = search_from (hash key) m.node_hashs in
      let i = if idx == length m.node_hashs then 0 else idx in
      ap (λ o. if length m.node_hashs == 0 then some [] else o)
        (pick-same m.node_hashs m.node_hash_map k.node_hash_map m.node_hashs i h)
      ∙ ap (λ hs. pick_node hash (record { node_hashs = hs; node_hash_map = k.node_hash_map }) key)
          e

  pub add_nodes-hashes :
      (ks : List Bytes) → (add_nodes hash new_node_map ks).node_hashs ≡ sort_ints (hashes hash ks)
  unfolding add_nodes
  add_nodes-hashes ks = ap sort_ints (add_all-hashes new_node_map ks)

  pub add_nodes-IsEntry :
      (P : Bytes → Type 0) (ks : List Bytes)
      → All P ks
      → All (IsEntry P) (add_nodes hash new_node_map ks).node_hash_map
  unfolding add_nodes
  add_nodes-IsEntry P ks h = add_all-IsEntry P new_node_map ks h tt

  -- No two of the names have one hash.
  abbrev pub AreApart : List Bytes → Type 0
  AreApart ks = (a b : Bytes) → Memᴰ a ks → Memᴰ b ks → hash a ≡ hash b → a ≡ b

  node_at-agree :
      (P : Bytes → Type 0) (apart : (a b : Bytes) → P a → P b → hash a ≡ hash b → a ≡ b)
      (m k : List (ℕ × Bytes)) (xs : List ℕ)
      → All (IsEntry P) m
      → All (IsEntry P) k
      → All (IsNamed hash m) xs
      → All (IsNamed hash k) xs
      → All (λ x. node_at m x ≡ node_at k x) xs
  node_at-agree P apart m k [] hm hk nm nk = tt
  node_at-agree P apart m k (x ∷ xs) hm hk ((a, ea, _, _), nm) ((b, eb, _, _), nk) =
      let (pa, xa) = node_at-IsEntry P m x a hm ea in
      let (pb, xb) = node_at-IsEntry P k x b hk eb in
      (
        ea ∙ (ap some (apart a b pa pb (xa ∙ sym xb)) ∙ sym eb),
        node_at-agree P apart m k xs hm hk nm nk,
      )

All-mem : {A : Type 0} (P : A → Type 0) (xs : List A) → ((x : A) → Memᴰ x xs → P x) → All P xs
All-mem P [] h = tt
All-mem P (x ∷ xs) h = (h x (Memᴰ.head refl), All-mem P xs (λ y m. h y (Memᴰ.tail m)))

-- The nodes added in two orders make rings that pick the same node for each key, if no two names
-- have the same hash.
add_nodes-agree :
    (hash : HashFunc) (ks js : List Bytes) (key : Bytes)
    → Permᴰ ks js
    → AreApart hash js
    → pick_node hash (add_nodes hash new_node_map ks) key
      ≡ pick_node hash (add_nodes hash new_node_map js) key
add_nodes-agree hash ks js key p apart =
    let m = add_nodes hash new_node_map ks in
    let k = add_nodes hash new_node_map js in
    let P : Bytes → Type 0 = λ n. Memᴰ n js in
    let here : All P js = All-mem P js (λ x mem. mem) in
    let e : m.node_hashs ≡ k.node_hashs =
      add_nodes-hashes hash ks ∙ (sort_ints-hashes hash p ∙ sym (add_nodes-hashes hash js)) in
    let vm = add_nodes-IsValid hash new_node_map ks (new_node_map-IsValid hash) in
    let vk = add_nodes-IsValid hash new_node_map js (new_node_map-IsValid hash) in
    pick_node-same hash m k key e (
      node_at-agree hash P apart m.node_hash_map k.node_hash_map m.node_hashs
        (add_nodes-IsEntry hash P ks (All-Permᴰ P p here)) (add_nodes-IsEntry hash P js here)
        vm.names (subst (All (IsNamed hash k.node_hash_map)) (sym e) vk.names))

-- Every node of a cluster sends a key to the same node, whatever the order of the peers in its
-- configuration, if no two nodes' names have the same hash.
pub make_cluster-agree :
    (hash : HashFunc) (a b : Bytes) (a_peers b_peers : List Bytes) (key : Bytes)
    → Permᴰ (a_peers ++ a ∷ []) (b_peers ++ b ∷ [])
    → AreApart hash (b_peers ++ b ∷ [])
    → pick_node hash (make_cluster hash a a_peers).peer_picker key
      ≡ pick_node hash (make_cluster hash b b_peers).peer_picker key
unfolding make_cluster
make_cluster-agree hash a b a_peers b_peers key p apart =
    add_nodes-agree hash (a_peers ++ a ∷ []) (b_peers ++ b ∷ []) key p apart
