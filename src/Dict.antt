-- ===== src/Dict.antt =====
-- datastruct/dict: `SyncDict` over Go's `sync.Map`. The map is an association list with distinct
-- keys. The order in which `Range` visits the entries is not specified by Go: each operation that
-- ranges takes it as an argument `order`. Here a call is one step; in Threads it is two.
pub mod Races
pub mod Threads
pub mod Laws
pub mod Count
use mathlib.Core.Option
use go_redis.Base.{
  ℕ, zero, suc, ◌+◌, ◌-◌, ◌*◌, ◌/◌, ◌%◌, ◌^◌, ◌≤◌, ◌<◌, min, max, ◌≡◌, refl, sym, ap, ◌∙◌, subst,
  ◌≡⟨◌⟩◌, ◌∎, ◌≢◌, ◌↔◌, ◌⊎◌, inl, inr, Bool, true, false, not, ◌&&◌, ◌||◌, Option, none, some, List,
  [], ◌∷◌, ◌++◌, map, append_assoc, append-nil, arith, Bytes, codes, bytes_eq, bytes_eq_refl,
  bytes_eq→eq, bytes_eq_iff, bytes_eq_of_ne, length, get_elem?, set, replicate, take, length-append,
  length-set, get_elem?-set_self, get_elem?-set_ne, set-get_elem?, set-set, get_elem?-lt, All,
  All-append, ltb, leb, ◌==◌, if◌then◌else◌, ltb→lt, lt→ltb, leb→le, ==_iff, ==_refl, Bool-cases,
  Option-cases, ◌>>=◌, ℤ, pos, negsuc, IsInt64,
}

abbrev pub Dict : Type 0 → Type 0
Dict V = List (Bytes × V)

-- An order of `Range`: what it visits, in turn.
abbrev pub Order : Type 0 → Type 0
Order V = Dict V → Dict V

module _ {V : Type 0} where
  -- `sync.Map.Load`
  unfoldable pub load : Bytes → Dict V → Option V
  load k [] = none
  load k ((j, v) ∷ m) = if bytes_eq j k then some v else load k m

  -- `sync.Map.Store`
  unfoldable pub store : Bytes → V → Dict V → Dict V
  store k v [] = (k, v) ∷ []
  store k v ((j, w) ∷ m) = if bytes_eq j k then (k, v) ∷ m else (j, w) ∷ store k v m

  -- `sync.Map.Delete`
  unfoldable pub delete : Bytes → Dict V → Dict V
  delete k [] = []
  delete k ((j, w) ∷ m) = let rest = delete k m in if bytes_eq j k then rest else (j, w) ∷ rest

  -- `sync.Map.LoadOrStore`: the new map, the value that is there now, and whether it was there.
  unfoldable pub load_or_store : Bytes → V → Dict V → Dict V × V × Bool
  load_or_store k v m = elim (load k m) [ none ↦ (store k v m, v, false) | some w ↦ (m, w, true) ]

  abbrev pub is_some : Option V → Bool
  is_some none = false
  is_some (some _) = true

  unfoldable pub get : Dict V → Bytes → Option V
  get m key = load key m

  counted : ℕ → Dict V → ℕ
  counted n [] = n
  counted n (_ ∷ m) = counted (n + 1) m

  -- `Len`: a count by `Range`.
  unfoldable pub len : Order V → Dict V → ℕ
  unfolding counted
  len order m = counted 0 (order m)

  unfoldable pub put : Dict V → Bytes → V → Dict V × ℕ
  put m key val = (store key val m, if is_some (load key m) then 0 else 1)

  unfoldable pub put_if_absent : Dict V → Bytes → V → Dict V × ℕ
  put_if_absent m key val =
      let (m', _, existed) = load_or_store key val m in
      if existed then (m', 0) else (store key val m', 1)

  unfoldable pub put_if_exists : Dict V → Bytes → V → Dict V × ℕ
  put_if_exists m key val = if is_some (load key m) then (store key val m, 1) else (m, 0)

  unfoldable pub remove : Dict V → Bytes → Dict V × ℕ
  remove m key = if is_some (load key m) then (delete key m, 1) else (m, 0)

  unfoldable pub visit {κ} : {S : Type κ} → (S → Bytes → V → S) → S → Dict V → S
  visit f s [] = s
  visit f s ((k, v) ∷ rest) = visit f (f s k v) rest

  -- `ForEach` with the consumer's state `S`; what the consumer returns is ignored.
  unfoldable pub for_each {κ} : {S : Type κ} → Order V → Dict V → (S → Bytes → V → S) → S → S
  unfolding visit
  for_each order m consumer s = visit consumer s (order m)

  -- The slice filled by `Range`. Both visits of `Keys` are the same, so no index is out of range.
  filled : List Bytes → Dict V → List Bytes
  filled keys [] = keys
  filled [] (_ ∷ m) = []
  filled (_ ∷ keys) ((k, v) ∷ m) = k ∷ filled keys m

  -- `Keys`: a slice of `Len` empty strings, filled by `Range`.
  unfoldable pub keys : Order V → Dict V → List Bytes
  unfolding filled
  keys order m = filled (replicate (len order m) []) (order m)

  first_key : Dict V → Bytes
  first_key [] = []
  first_key ((k, v) ∷ m) = k

  -- `RandomKeys`: one `Range` for each result, stopped at its first key.
  unfoldable pub random_keys : (ℕ → Order V) → Dict V → ℕ → List Bytes
  unfolding first_key
  random_keys orders m zero = []
  random_keys orders m (suc n) = first_key (orders zero m) ∷ random_keys (λ i. orders (suc i)) m n

  -- The loop of `RandomDistinctKeys` with the unfilled part of the result: the index expression on
  -- an empty rest is a panic, and the loop stops when the result is full.
  fill_distinct : List Bytes → Dict V → Option (List Bytes)
  fill_distinct rest [] = some rest
  fill_distinct [] (_ ∷ m) = none
  fill_distinct (_ ∷ []) ((k, v) ∷ m) = some (k ∷ [])
  fill_distinct (_ ∷ b ∷ rest) ((k, v) ∷ m) = Option.map (λ ks. k ∷ ks) (fill_distinct (b ∷ rest) m)

  unfoldable pub random_distinct_keys : Order V → Dict V → ℕ → Option (List Bytes)
  unfolding fill_distinct
  random_distinct_keys order m n = fill_distinct (replicate n []) (order m)

  unfoldable pub clear : Dict V → Dict V
  clear m = []
