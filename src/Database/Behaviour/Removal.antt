-- ===== src/Database/Behaviour/Removal.antt =====
-- DEL and EXISTS over their lists of keys, and KEYS over the whole database.
use mathlib.Core.Path.{fun_ext}
use go_redis.Base.{
  ℕ, ◌+◌, ◌≡◌, refl, sym, ap, Bool, false, ◌||◌, none, some, List, [], ◌∷◌, ◌++◌, append_assoc,
  append-nil, arith, Bytes, codes, bytes_eq, ltb, if◌then◌else◌, pos,
}
use go_redis.Dict
use go_redis.Dict.{Dict, Order, load, store}
use go_redis.Dict.Laws.{remove_lem}
use go_redis.Dict.Count.{visited_keys}
use go_redis.Reply.{int, multi_bulk}
use go_redis.Database.Db.{Entity, Db, Effect, answer, get_entity, removes, remove_loop}
use go_redis.Database.Keys.{exec_del, exec_exists, count_existing, exec_keys}
use go_redis.Wildcard.{compile_pattern, is_match}

abbrev pub named : List Bytes → Bytes → Bool
named [] j = false
named (k ∷ keys) j = bytes_eq k j || named keys j

get-remove_loop :
    (m : Dict Entity) (keys : List Bytes) (n : ℕ) (j : Bytes)
    → Dict.get (remove_loop m keys n).0 j ≡ (if named keys j then none else Dict.get m j)
unfolding remove_loop
get-remove_loop m [] n j = refl
get-remove_loop m (k ∷ keys) n j = ground (
  arith,
  get-remove_loop (Dict.remove m k).0 keys (if ltb 0 (Dict.remove m k).1 then n + 1 else n) j,
  (remove_lem m k j).0,
)

-- The distinct keys of a list that a database has, counted as DEL meets them.
abbrev pub count_present : (Bytes → Bool) → List Bytes → ℕ
count_present there [] = 0
count_present there (k ∷ keys) =
    (if there k then 1 else 0) + count_present (λ j. if bytes_eq k j then false else there j) keys

abbrev pub has : Dict Entity → Bytes → Bool
has m k = Dict.is_some (Dict.get m k)

has-remove :
    (m : Dict Entity) (k j : Bytes)
    → has (Dict.remove m k).0 j ≡ (if bytes_eq k j then false else has m j)
has-remove m k j = ground (arith, (remove_lem m k j).0)

count-remove_loop :
    (m : Dict Entity) (keys : List Bytes) (n : ℕ)
    → (remove_loop m keys n).1 ≡ n + count_present (has m) keys
unfolding remove_loop
count-remove_loop m [] n = omega arith
count-remove_loop m (k ∷ keys) n =
    let left = (Dict.remove m k).0 in
    let shown : count_present (has left) keys
        ≡ count_present (λ j. if bytes_eq k j then false else has m j) keys =
      ap (λ (p : Bytes → Bool). count_present p keys) (fun_ext (has-remove m k)) in
    ground (
      arith,
      count-remove_loop left keys (if ltb 0 (Dict.remove m k).1 then n + 1 else n),
      (remove_lem m k k).1,
      shown,
    )

-- DEL answers how many distinct keys of its list were there; behind it none of the list is there,
-- and every other key is what it was. It is logged exactly if it removed something.
pub del_lem :
    (db : Db) (keys : List Bytes) (j : Bytes)
    → (e : Effect) × (exec_del db keys ≡ some e)
      × (e.reply ≡ int (pos (count_present (has db.table) keys)))
      × (e.log
          ≡ (if ltb 0 (count_present (has db.table) keys) then (codes "del" ∷ keys) ∷ [] else []))
      × (get_entity e.db j ≡ (if named keys j then none else get_entity db j))
unfolding exec_del removes get_entity
del_lem db keys j =
    let n = count_present (has db.table) keys in
    (
      record {
        db = (removes db keys).0;
        log = if ltb 0 n then (codes "del" ∷ keys) ∷ [] else [];
        reply = int (pos n);
      },
      ground (arith, count-remove_loop db.table keys 0),
      refl,
      refl,
      get-remove_loop db.table keys 0 j,
    )

-- The keys of a list that a database has, as often as they are named.
abbrev pub count_named : Db → List Bytes → ℕ
count_named db [] = 0
count_named db (k ∷ keys) = (if Dict.is_some (get_entity db k) then 1 else 0) + count_named db keys

count_existing-sum :
    (db : Db) (keys : List Bytes) (n : ℕ) → count_existing db keys n ≡ n + count_named db keys
unfolding count_existing
count_existing-sum db [] n = omega arith
count_existing-sum db (k ∷ keys) n =
    ground (arith, count_existing-sum db keys (if Dict.is_some (get_entity db k) then n + 1 else n))

-- EXISTS answers how many names of its list are bound, a key named twice counted twice, and changes
-- and logs nothing.
pub exists_lem :
    (db : Db) (keys : List Bytes)
    → exec_exists db keys ≡ answer db (int (pos (count_named db keys)))
unfolding exec_exists
exists_lem db keys = ground (arith, count_existing-sum db keys 0)

-- The keys that match, in order.
abbrev pub matching : Bytes → List Bytes → List Bytes
matching src [] = []
matching src (k ∷ ks) =
    if is_match (compile_pattern src) k then k ∷ matching src ks else matching src ks

abbrev consumer : Bytes → List Bytes → Bytes → Entity → List Bytes
consumer src result key value =
    if is_match (compile_pattern src) key then result ++ key ∷ [] else result

visit-matching :
    (src : Bytes) (m : Dict Entity) (result : List Bytes)
    → Dict.visit (consumer src) result m ≡ result ++ matching src (visited_keys m)
unfolding Dict.visit
visit-matching src [] result = sym (append-nil result)
visit-matching src ((k, v) ∷ m) result = ground (
  arith,
  visit-matching src m (consumer src result k v),
  append_assoc result (k ∷ []) (matching src (visited_keys m)),
)

-- KEYS answers exactly the keys that match its pattern, each as often as the visit of the database
-- meets it and in that order, and changes and logs nothing.
pub keys_match :
    (order : Order Entity) (db : Db) (src : Bytes) (rest : List Bytes)
    → exec_keys order db (src ∷ rest)
      ≡ answer db (multi_bulk (matching src (visited_keys (order db.table))))
unfolding exec_keys Dict.for_each
keys_match order db src rest =
    ap (λ (l : List Bytes). answer db (multi_bulk l)) (visit-matching src (order db.table) [])
