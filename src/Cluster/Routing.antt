-- ===== src/Cluster/Routing.antt =====
-- A command of one key reaches a node of the cluster.
use go_redis.Base.{
  ℕ, ◌≡◌, refl, sym, ◌∙◌, subst, ◌≢◌, ◌⊎◌, inl, inr, true, Option, none, some, List, [], ◌∷◌, ◌++◌,
  arith, Bytes, bytes_eq, bytes_eq_refl, bytes_eq→eq, bytes_eq_iff, length, get_elem?, All, ◌==◌,
  if◌then◌else◌, Bool-cases, Option-cases,
}
use go_redis.Dict
use go_redis.Dict.{Dict, Order}
use go_redis.Reply.{Reply}
use go_redis.Utils.{to_lower}
use go_redis.Consistenthash.{
  HashFunc, NodeMap, new_node_map, is_empty, node_at, insert_int, sort_ints, search_from, node_of,
  add_nodes, pick_node,
}
use go_redis.Consistenthash.Owner.{new_node_map-IsValid, add_nodes-IsValid, pick_node-IsOwner}
use go_redis.Database.Db.{Entity}
use go_redis.Cluster.Relay.{
  Peers, ClusterDatabase, State, make_cluster, relay, exec_local, send_to, has_pool, relay_failed,
}
use go_redis.Cluster.Router.{
  default_func, make_router, Visit, run_default, exec_cluster, recovered, run_func, with_node,
  relay_answer,
}
use go_redis.Cluster.Owners.{hashes, add_nodes-hashes, IsEntry, add_nodes-IsEntry, node_at-IsEntry}

-- The name is this node's, or a pool was made for it.
abbrev pub IsReached : Bytes → List Bytes → Bytes → Type 0
IsReached self peers n = (n ≡ self) ⊎ (has_pool peers n ≡ true)

has_pool-first :
    (p : Bytes) (peers : List Bytes) (n : Bytes)
    → has_pool peers n ≡ true
    → has_pool (p ∷ peers) n ≡ true
unfolding has_pool
has_pool-first p peers n e = ground (arith, e)

has_pool_self : (p : Bytes) (peers : List Bytes) → has_pool (p ∷ peers) p ≡ true
unfolding has_pool
has_pool_self p peers = rw (bytes_eq_refl p) refl

more-IsReached :
    (self p : Bytes) (peers ks : List Bytes)
    → All (IsReached self peers) ks
    → All (IsReached self (p ∷ peers)) ks
more-IsReached self p peers [] h = tt
more-IsReached self p peers (k ∷ ks) (inl e, h) = (inl e, more-IsReached self p peers ks h)
more-IsReached self p peers (k ∷ ks) (inr e, h) =
    (inr (has_pool-first p peers k e), more-IsReached self p peers ks h)

All-IsReached :
    (self : Bytes) (peers : List Bytes) → All (IsReached self peers) (peers ++ self ∷ [])
All-IsReached self [] = (inl refl, tt)
All-IsReached self (p ∷ peers) = (
  inr (has_pool_self p peers),
  more-IsReached self p peers (peers ++ self ∷ []) (All-IsReached self peers),
)

insert_int-cons : (x : ℕ) (ys : List ℕ) → insert_int x ys ≢ []
unfolding insert_int
insert_int-cons x [] e = cc
insert_int-cons x (y ∷ ys) e = ground (arith, e)

sort_ints-cons : (x : ℕ) (xs : List ℕ) → sort_ints (x ∷ xs) ≢ []
unfolding sort_ints
sort_ints-cons x xs = insert_int-cons x (sort_ints xs)

module _ (hash : HashFunc) where
  node_of-IsEntry :
      (P : Bytes → Type 0) (m : NodeMap) (o : Option ℕ) (n : Bytes)
      → All (IsEntry hash P) m.node_hash_map
      → node_of m o ≡ some n
      → n ≢ []
      → P n
  unfolding node_of
  node_of-IsEntry P m none n h e ne = cc
  node_of-IsEntry P m (some x) n h e ne = elim (Option-cases (node_at m.node_hash_map x)) [
    | inl e' ↦ absurd (ne (ground (arith, e, e')))
    | inr (k, at) ↦
        let is : k ≡ n = ground (arith, e, at) in
        subst P is (node_at-IsEntry hash P m.node_hash_map x k h at).0
  ]

  pick_node-IsEntry :
      (P : Bytes → Type 0) (m : NodeMap) (key n : Bytes)
      → All (IsEntry hash P) m.node_hash_map
      → pick_node hash m key ≡ some n
      → n ≢ []
      → P n
  unfolding pick_node
  pick_node-IsEntry P m key n h e ne =
      let idx = search_from (hash key) m.node_hashs in
      let i = if idx == length m.node_hashs then 0 else idx in
      elim (Bool-cases (is_empty m)) [
        | inl empty ↦ absurd (ne (ground (arith, e, empty)))
        | inr some_node ↦
            node_of-IsEntry P m (get_elem? m.node_hashs i) n h (ground (arith, e, some_node)) ne
      ]

  hashes-cons :
      (ks : List Bytes) (c : ℕ) (self : Bytes)
      → sort_ints (hashes hash (ks ++ (c ∷ self) ∷ [])) ≢ []
  unfolding hashes
  hashes-cons [] c self = sort_ints-cons (hash (c ∷ self)) []
  hashes-cons ([] ∷ ks) c self = hashes-cons ks c self
  hashes-cons ((d ∷ k) ∷ ks) c self =
      sort_ints-cons (hash (d ∷ k)) (hashes hash (ks ++ (c ∷ self) ∷ []))

  -- The ring of a node has an owner for each key, and it is reached.
  pub owner-IsReached :
      (c : ℕ) (self : Bytes) (peers : List Bytes) (key : Bytes)
      → (n : Bytes) × (pick_node hash (make_cluster hash (c ∷ self) peers).peer_picker key ≡ some n)
        × IsReached (c ∷ self) peers n
  unfolding make_cluster
  owner-IsReached c self peers key =
      let names = peers ++ (c ∷ self) ∷ [] in
      let m = add_nodes hash new_node_map names in
      let v = add_nodes-IsValid hash new_node_map names (new_node_map-IsValid hash) in
      let some_node : m.node_hashs ≢ [] =
        λ e. hashes-cons peers c self (sym (add_nodes-hashes hash names) ∙ e) in
      let (n, e, ne, _) = pick_node-IsOwner hash m key v some_node in
      let P = IsReached (c ∷ self) peers in
      (
        n,
        e,
        pick_node-IsEntry P m key n
            (add_nodes-IsEntry hash P names (All-IsReached (c ∷ self) peers)) e ne,
      )

module _ {W : Type 0} (order : Order Entity) (peers : Peers W) (hash : HashFunc)
    (visit : Visit) where
  -- A peer's answer over a client of its pool, or the error of the pool.
  abbrev pub forwarded : Bytes → List Bytes → State W → Option Reply × State W
  forwarded peer args s =
      let (e, w) = peers.borrow peer s.world in
      elim e [
        | some text ↦ (some (relay_failed text), record s { world = w })
        | none ↦ send_to order peers peer args (record s { world = w })
      ]

  -- The answer is this node's own, or that of the peer.
  abbrev pub IsAnswered : Bytes → Bytes → List Bytes → State W → Option Reply × State W → Type 0
  IsAnswered self n args s result =
      ((n ≡ self) × (result ≡ exec_local order peers s args))
      ⊎ ((n ≢ self) × (result ≡ forwarded n args s))

  relay-IsAnswered :
      (cluster : ClusterDatabase) (n : Bytes) (args : List Bytes) (s : State W)
      → IsReached cluster.self cluster.peer_connection n
      → IsAnswered cluster.self n args s (relay order peers cluster n args s)
  unfolding relay
  relay-IsAnswered cluster n args s h = elim (Bool-cases (bytes_eq n cluster.self)) [
    | inl e ↦ inl (bytes_eq→eq n cluster.self e, rw e refl)
    | inr e ↦
        let ne : n ≢ cluster.self = λ p. ground (arith, e, p, bytes_eq_iff n cluster.self) in
        elim h [ inl is ↦ absurd (ne is) | inr there ↦ inr (ne, rw (e, there) refl) ]
  ]

  -- A command of one key is answered by the owner of the key on the ring, which is this node or a
  -- peer that has a pool.
  pub exec_cluster-IsAnswered :
      (c : ℕ) (self : Bytes) (names : List Bytes) (name key : Bytes) (args : List Bytes)
      (s : State W)
      → Dict.get make_router (to_lower name) ≡ some default_func
      → let cluster = make_cluster hash (c ∷ self) names in
        (n : Bytes) × (pick_node hash cluster.peer_picker key ≡ some n)
        × IsReached (c ∷ self) names n
        × IsAnswered
            (c ∷ self)
            n
            (name ∷ key ∷ args)
            s
            (exec_cluster order peers hash visit cluster (name ∷ key ∷ args) s)
  unfolding make_cluster exec_cluster run_func run_default with_node relay_answer recovered
  exec_cluster-IsAnswered c self names name key args s e =
      let cluster = make_cluster hash (c ∷ self) names in
      let (n, at, reached) = owner-IsReached hash c self names key in
      (
        n,
        at,
        reached,
        rw (exec_cluster, e, run_func, run_default, with_node, at, relay_answer, recovered)
            (relay-IsAnswered cluster n (name ∷ key ∷ args) s reached),
      )
