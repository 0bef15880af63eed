-- ===== src/Consistenthash.antt =====
-- lib/consistenthash/consistenthash.go: the ring of nodes. The hash is a parameter.
pub mod Moves
pub mod Owner
use go_redis.Base.{
  ℕ, zero, suc, ◌+◌, ◌-◌, ◌*◌, ◌/◌, ◌%◌, ◌^◌, ◌≤◌, ◌<◌, min, max, ◌≡◌, refl, sym, ap, ◌∙◌, subst,
  ◌≡⟨◌⟩◌, ◌∎, ◌≢◌, ◌↔◌, ◌⊎◌, inl, inr, Bool, true, false, not, ◌&&◌, ◌||◌, Option, none, some, List,
  [], ◌∷◌, ◌++◌, map, append_assoc, append-nil, arith, Bytes, codes, bytes_eq, bytes_eq_refl,
  bytes_eq→eq, bytes_eq_iff, bytes_eq_of_ne, length, get_elem?, set, replicate, take, length-append,
  length-set, get_elem?-set_self, get_elem?-set_ne, set-get_elem?, set-set, get_elem?-lt, All,
  All-append, ltb, leb, ◌==◌, if◌then◌else◌, ltb→lt, lt→ltb, leb→le, ==_iff, ==_refl, Bool-cases,
  Option-cases, ◌>>=◌, ℤ, pos, negsuc, IsInt64,
}

-- `HashFunc`, with its result as an `int`.
abbrev pub HashFunc : Type 0
HashFunc = Bytes → ℕ

-- The hashes in order, and `map[int]string` with the last binding of a hash in front.
pub record NodeMap : Type 0 where
  pub node_hashs : List ℕ
  pub node_hash_map : List (ℕ × Bytes)

abbrev pub new_node_map : NodeMap
new_node_map = record { node_hashs = []; node_hash_map = [] }

unfoldable pub is_empty : NodeMap → Bool
is_empty m = length m.node_hashs == 0

-- A read of the map.
unfoldable pub node_at : List (ℕ × Bytes) → ℕ → Option Bytes
node_at [] x = none
node_at ((y, n) ∷ m) x = if y == x then some n else node_at m x

-- `sort.Ints`, by its result: the hashes in order.
unfoldable pub insert_int : ℕ → List ℕ → List ℕ
insert_int x [] = x ∷ []
insert_int x (y ∷ ys) = let rest = insert_int x ys in if leb x y then x ∷ y ∷ ys else y ∷ rest

unfoldable pub sort_ints : List ℕ → List ℕ
unfolding insert_int
sort_ints [] = []
sort_ints (x ∷ xs) = insert_int x (sort_ints xs)

-- What `sort.Search` is documented to return on sorted hashes: the index of the first that is not
-- less, or their number if there is none.
unfoldable pub search_from : ℕ → List ℕ → ℕ
search_from h [] = 0
search_from h (x ∷ xs) = let rest = search_from h xs in if leb h x then 0 else suc rest

-- A read at an index and then of the map; a hash that the map does not have reads as "".
unfoldable pub node_of : NodeMap → Option ℕ → Option Bytes
unfolding node_at
node_of m none = none
node_of m (some x) = elim (node_at m.node_hash_map x) [ none ↦ some [] | some n ↦ some n ]

module _ (hash : HashFunc) where
  -- The loop of `AddNodes`: an empty name is skipped.
  unfoldable pub add_all : NodeMap → List Bytes → NodeMap
  add_all m [] = m
  add_all m ([] ∷ keys) = add_all m keys
  add_all m ((c ∷ key) ∷ keys) =
      add_all
        (record {
          node_hashs = m.node_hashs ++ hash (c ∷ key) ∷ [];
          node_hash_map = (hash (c ∷ key), c ∷ key) ∷ m.node_hash_map;
        })
        keys

  unfoldable pub add_nodes : NodeMap → List Bytes → NodeMap
  unfolding add_all sort_ints
  add_nodes m keys = let m' = add_all m keys in record m' { node_hashs = sort_ints m'.node_hashs }

  -- `PickNode`; `none` is an index panic.
  unfoldable pub pick_node : NodeMap → Bytes → Option Bytes
  unfolding is_empty search_from node_of
  pick_node m key =
      let idx = search_from (hash key) m.node_hashs in
      if is_empty m
      then some []
      else node_of m (get_elem? m.node_hashs (if idx == length m.node_hashs then 0 else idx))
