-- ===== src/Cluster/Broadcast.antt =====
-- DEL and FLUSHDB, which go to every node.
use mathlib.Core.List.{Permᴰ}
use go_redis.Base.{
  ℕ, ◌+◌, ◌^◌, ◌<◌, ◌≡◌, refl, sym, ap, ◌∙◌, subst, false, Option, none, some, List, [], ◌∷◌, ◌++◌,
  arith, Bytes, bytes_eq, All, All-append, ℤ, pos, add_int64-pos,
}
use go_redis.Dict
use go_redis.Dict.{Dict, Order, load, store}
use go_redis.Dict.Laws.{load-store}
use go_redis.Utils.{to_lower}
use go_redis.Reply.{Reply, int, is_err_reply, to_bytes}
use go_redis.Consistenthash.{HashFunc}
use go_redis.Database.Db.{Entity}
use go_redis.Cluster.Relay.{
  Peers, ClusterDatabase, State, make_cluster, relay, boardcast_loop, boardcast,
}
use go_redis.Cluster.Router.{
  replied, del, make_router, del_loop, Visit, run_del, run_func, recovered, exec_cluster,
}

-- A reply that counts.
abbrev pub Counts : Bytes × Option Reply → Type 0
Counts r = (n : ℕ) × (r.1 ≡ some (int (pos n)))

abbrev pub amount : Bytes × Option Reply → ℕ
amount (peer, some (int (pos n))) = n
amount _ = 0

abbrev pub total : List (Bytes × Option Reply) → ℕ
total [] = 0
total (r ∷ replies) = amount r + total replies

total-Permᴰ : {xs ys : List (Bytes × Option Reply)} → Permᴰ xs ys → total xs ≡ total ys
total-Permᴰ Permᴰ.nil = refl
total-Permᴰ (Permᴰ.cons e p) = omega (arith, ap amount e, total-Permᴰ p)
total-Permᴰ (Permᴰ.swap e f) = omega (arith, ap amount e, ap amount f)
total-Permᴰ (Permᴰ.trans p q) = total-Permᴰ p ∙ total-Permᴰ q

pub All-Permᴰ : {A : Type 0} (P : A → Type 0) {xs ys : List A} → Permᴰ xs ys → All P ys → All P xs
All-Permᴰ P Permᴰ.nil h = tt
All-Permᴰ P (Permᴰ.cons e p) (h, hs) = (subst P (sym e) h, All-Permᴰ P p hs)
All-Permᴰ P (Permᴰ.swap e f) (h, (k, hs)) = (subst P (sym e) k, (subst P (sym f) h, hs))
All-Permᴰ P (Permᴰ.trans p q) h = All-Permᴰ P p (All-Permᴰ P q h)

del_loop-one :
    (c n : ℕ) (peer : Bytes) (r : Option Reply) (replies : List (Bytes × Option Reply))
    → r ≡ some (int (pos n))
    → c + n < 2 ^ 63
    → del_loop (pos c) ((peer, r) ∷ replies) ≡ del_loop (pos (c + n)) replies
unfolding del_loop is_err_reply to_bytes
del_loop-one c n peer r replies e l =
    rw e (ap (λ (z : ℤ). del_loop z replies) (add_int64-pos c n l))

del_loop-total :
    (c : ℕ) (replies : List (Bytes × Option Reply))
    → All Counts replies
    → c + total replies < 2 ^ 63
    → del_loop (pos c) replies ≡ replied (some (int (pos (c + total replies))))
del_loop-total c [] h l =
    let e : c ≡ c + 0 = omega arith in
    unfold del_loop in ap (λ (n : ℕ). replied (some (int (pos n)))) e
del_loop-total c ((peer, r) ∷ replies) ((n, e), hs) l =
    let here : amount (peer, r) ≡ n = ap (λ (o : Option Reply). amount (peer, o)) e in
    let sum : c + n + total replies ≡ c + (amount (peer, r) + total replies) =
      omega (arith, here) in
    del_loop-one c n peer r replies e (omega (arith, here))
    ∙ del_loop-total (c + n) replies hs (omega (arith, here))
    ∙ ap (λ (k : ℕ). replied (some (int (pos k)))) sum

-- The nodes asked one after another with the same line, each in the state that the one before has left,
-- and their counts.
pub data Asked {W : Type 0} (order : Order Entity) (peers : Peers W) (cluster : ClusterDatabase)
    (args : List Bytes) : List Bytes → State W → List ℕ → State W → Type 0 where
  nobody : {s : State W} → Asked order peers cluster args [] s [] s
  asked :
      {node : Bytes} {nodes : List Bytes} {s t u : State W} {n : ℕ} {counts : List ℕ}
      → relay order peers cluster node args s ≡ (some (int (pos n)), t)
      → Asked order peers cluster args nodes t counts u
      → Asked order peers cluster args (node ∷ nodes) s (n ∷ counts) u

abbrev pub sum : List ℕ → ℕ
sum [] = 0
sum (n ∷ counts) = n + sum counts

-- No name stands twice.
abbrev pub AreDistinct : List Bytes → Type 0
AreDistinct [] = Unit
AreDistinct (node ∷ nodes) = All (λ m. bytes_eq node m ≡ false) nodes × AreDistinct nodes

store-absent :
    (k : Bytes) (v : Option Reply) (m : Dict (Option Reply))
    → load k m ≡ none
    → store k v m ≡ m ++ (k, v) ∷ []
unfolding load store
store-absent k v [] h = refl
store-absent k v ((j, w) ∷ m) h = ground (arith, h, store-absent k v m)

total-last :
    (m : Dict (Option Reply)) (k : Bytes) (n : ℕ)
    → total (m ++ (k, some (int (pos n))) ∷ []) ≡ total m + n
total-last [] k n = omega arith
total-last (r ∷ m) k n = omega (arith, total-last m k n)

load_others :
    (k : Bytes) (v : Option Reply) (m : Dict (Option Reply)) (nodes : List Bytes)
    → All (λ node. bytes_eq k node ≡ false) nodes
    → All (λ node. load node m ≡ none) nodes
    → All (λ node. load node (store k v m) ≡ none) nodes
load_others k v m [] d h = tt
load_others k v m (node ∷ nodes) (d, ds) (h, hs) =
    (load-store k node v m ∙ (rw d h), load_others k v m nodes ds hs)

load_nothing : (nodes : List Bytes) → All (λ node. load {V = Option Reply} node [] ≡ none) nodes
unfolding load
load_nothing [] = tt
load_nothing (node ∷ nodes) = (refl, load_nothing nodes)

-- The loop has the counts of all of its nodes.
boardcast_loop-Asked :
    {W : Type 0} (order : Order Entity) (peers : Peers W) (cluster : ClusterDatabase)
    (args nodes : List Bytes) (results : Dict (Option Reply)) {s t : State W} {counts : List ℕ}
    → AreDistinct nodes
    → All (λ node. load node results ≡ none) nodes
    → All Counts results
    → Asked order peers cluster args nodes s counts t
    → (replies : Dict (Option Reply)) × (boardcast_loop order peers cluster args nodes results s
        ≡ (replies, t))
      × All Counts replies
      × (total replies ≡ total results + sum counts)
unfolding boardcast_loop
boardcast_loop-Asked order peers cluster args [] results d absent h nobody =
    (results, refl, h, omega arith)
boardcast_loop-Asked order peers cluster args (node ∷ nodes) results (d, ds) (here, absent) h
      (asked {n = n} is others) =
    let reply = some (int (pos n)) in
    let next = store node reply results in
    let last : next ≡ results ++ (node, reply) ∷ [] = store-absent node reply results here in
    let still : All (λ m. load m next ≡ none) nodes =
      load_others node reply results nodes d absent in
    let counted : All Counts next =
      subst (All Counts) (sym last)
        (All-append Counts results ((node, reply) ∷ []) h ((n, refl), tt)) in
    let (replies, run, all, is_total) =
      boardcast_loop-Asked order peers cluster args nodes next ds still counted others in
    (replies, rw is run, all, omega (arith, is_total, ap total last, total-last results node n))

pub exec_cluster-Asked :
    {W : Type 0} (order : Order Entity) (peers : Peers W) (hash : HashFunc) (visit : Visit)
    (visits : (m : Dict (Option Reply)) → Permᴰ (visit m) m) (self name : Bytes)
    (names args : List Bytes) {s t : State W} {counts : List ℕ}
    → Dict.get make_router (to_lower name) ≡ some del
    → AreDistinct (names ++ self ∷ [])
    → Asked order peers (make_cluster hash self names) (name ∷ args) (names ++ self ∷ []) s counts t
    → sum counts < 2 ^ 63
    → exec_cluster order peers hash visit (make_cluster hash self names) (name ∷ args) s
      ≡ (some (int (pos (sum counts))), t)
unfolding make_cluster exec_cluster boardcast
exec_cluster-Asked order peers hash visit visits self name names args {s} {t} {counts} routed
      distinct ask l =
    let cluster = make_cluster hash self names in
    let (replies, run, all, is_total) =
      boardcast_loop-Asked order peers cluster (name ∷ args) (names ++ self ∷ []) [] distinct
        (load_nothing (names ++ self ∷ [])) tt ask in
    let same : total (visit replies) ≡ total replies = total-Permᴰ (visits replies) in
    let answer : del_loop (pos 0) (visit replies) ≡ replied (some (int (pos (sum counts)))) =
      del_loop-total 0 (visit replies) (All-Permᴰ Counts (visits replies) all)
        (omega (arith, same, is_total, l))
      ∙ ap (λ (k : ℕ). replied (some (int (pos k)))) (omega (arith, same, is_total)) in
    rw (exec_cluster, routed, run_func, run_del, boardcast, run, answer, recovered) refl
