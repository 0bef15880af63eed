-- ===== src/Tests/Nodes.antt =====
-- Concrete inputs for the cluster.
use mathlib.Core.List.{Permᴰ, Memᴰ}
use mathlib.Core.List.Permᴰ
use go_redis.Base.{
  ◌≡◌, refl, sym, ap, ◌∙◌, inl, none, some, List, [], ◌∷◌, arith, Bytes, codes, bytes_eq, length,
  pos,
}
use go_redis.Dict
use go_redis.Dict.{Dict, Order}
use go_redis.Reply.{int}
use go_redis.Utils.{to_lower}
use go_redis.Consistenthash.{pick_node}
use go_redis.Database.Standalone.{exec_server}
use go_redis.Database.Commands.{exec}
use go_redis.Database.Db.{Entity, make_db}
use go_redis.Cluster.Relay.{
  relay, exec_local, send_to, Peers, ClusterDatabase, State, make_cluster, has_pool,
}
use go_redis.Cluster.Router.{Visit, exec_cluster, make_router}
use go_redis.Cluster.Broadcast.{Asked, nobody, asked, exec_cluster-Asked}
use go_redis.Cluster.Renames.{Refused, exec_cluster-Refused}
use go_redis.Database.Behaviour.{get_line, set_line}
use go_redis.Cluster.Wire.{World}
use go_redis.Parser.RoundTrip.{CommandIsPlain}
use go_redis.Cluster.Agreement.{serve_at, IsValue, get_at-set_at}
use go_redis.Cluster.Owners.{AreApart, make_cluster-agree}
use go_redis.Cluster.Routing.{IsReached, IsAnswered, exec_cluster-IsAnswered}

abbrev in_order : Order Entity
in_order m = m

-- A network where each peer answers each command with 1.
abbrev network : Peers Unit
network = record {
  borrow = λ peer w. (none, w);
  send = λ peer args w. (some (int (pos 1)), w);
  give_back = λ peer w. w;
}

abbrev a : Bytes
a = codes "a"

abbrev bb : Bytes
bb = codes "bb"

abbrev visit : Visit
visit m = m

abbrev state : State Unit
state = record { server = record { db_set = make_db ∷ []; selected = 0 }; logged = []; world = tt }

abbrev cluster : ClusterDatabase
cluster = make_cluster length a (bb ∷ [])

abbrev del_line : List Bytes
del_line = codes "del" ∷ codes "k" ∷ []

-- The peer answers 1, and the node itself 0.
del_run : Asked in_order network cluster del_line (bb ∷ a ∷ []) state (1 ∷ 0 ∷ []) state
unfolding relay exec_local send_to has_pool make_cluster bytes_eq exec_server exec to_lower Dict.get
    Dict.load go_redis.Database.Commands.cmd_table go_redis.Database.Db.validate_arity
    go_redis.Database.Keys.exec_del go_redis.Database.Db.removes Dict.remove Dict.store
del_run = asked refl (asked refl nobody)

exec_cluster-Asked_example :
    exec_cluster in_order network length visit cluster del_line state ≡ (some (int (pos 1)), state)
unfolding make_router to_lower Dict.get Dict.load Dict.store bytes_eq
exec_cluster-Asked_example =
    exec_cluster-Asked in_order network length visit (λ m. Permᴰ.refl m) a (codes "del") (bb ∷ [])
      (codes "k" ∷ []) refl ((refl, tt), (tt, tt)) del_run (omega arith)

exec_cluster-Refused_example : Refused in_order network length visit state (
    exec_cluster in_order network length visit cluster
      (codes "RENAME" ∷ codes "k" ∷ codes "key" ∷ [])
      state)
unfolding to_lower make_cluster has_pool bytes_eq
exec_cluster-Refused_example =
    exec_cluster-Refused in_order network length visit cluster (codes "RENAME") (codes "k")
      (codes "key") state (inl refl) (λ e. omega (arith, ap length e)) refl

two-AreApart : AreApart length (a ∷ bb ∷ [])
two-AreApart x y (Memᴰ.head e) (Memᴰ.head f) h = e ∙ sym f
two-AreApart x y (Memᴰ.head e) (Memᴰ.tail (Memᴰ.head f)) h =
    absurd (omega (arith, ap length e, ap length f, h))
two-AreApart x y (Memᴰ.head e) (Memᴰ.tail (Memᴰ.tail m)) h = elim m [ ]
two-AreApart x y (Memᴰ.tail (Memᴰ.head e)) (Memᴰ.head f) h =
    absurd (omega (arith, ap length e, ap length f, h))
two-AreApart x y (Memᴰ.tail (Memᴰ.head e)) (Memᴰ.tail (Memᴰ.head f)) h = e ∙ sym f
two-AreApart x y (Memᴰ.tail (Memᴰ.head e)) (Memᴰ.tail (Memᴰ.tail m)) h = elim m [ ]
two-AreApart x y (Memᴰ.tail (Memᴰ.tail m)) n h = elim m [ ]

make_cluster-agree_example :
    pick_node length (make_cluster length a (bb ∷ [])).peer_picker (codes "key")
    ≡ pick_node length (make_cluster length bb (a ∷ [])).peer_picker (codes "key")
make_cluster-agree_example =
    make_cluster-agree length a bb (bb ∷ []) (a ∷ []) (codes "key") (Permᴰ.swap refl refl)
      two-AreApart

exec_cluster-IsAnswered_example :
    let made = make_cluster length a (bb ∷ []) in
    (n : Bytes) × (pick_node length made.peer_picker (codes "k") ≡ some n)
    × IsReached a (bb ∷ []) n
    × IsAnswered in_order network length visit a n
        (codes "GET" ∷ codes "k" ∷ [])
        state
        (exec_cluster in_order network length visit made (codes "GET" ∷ codes "k" ∷ []) state)
unfolding make_router to_lower Dict.get Dict.load Dict.store bytes_eq
exec_cluster-IsAnswered_example =
    exec_cluster-IsAnswered in_order network length visit b'a' [] (bb ∷ []) (codes "GET")
      (codes "k") [] state refl

-- Every node has one empty database.
abbrev world : World
world n = record { db_set = make_db ∷ []; selected = 0 }

set_line-plain : CommandIsPlain (set_line (codes "k") (codes "v"))
set_line-plain = (
  λ e. cc,
  omega arith,
  ((λ e. cc, omega arith), ((λ e. cc, omega arith), ((λ e. cc, omega arith), tt))),
)

get_at-set_at_example :
    IsValue
      (codes "v")
      (serve_at in_order length visit bb
        (a ∷ [])
        (get_line (codes "k"))
        (serve_at in_order length visit a (bb ∷ []) (set_line (codes "k") (codes "v")) world).1).0
get_at-set_at_example =
    get_at-set_at in_order length visit b'a' [] (bb ∷ []) b'b' (codes "b") (a ∷ []) world
      (codes "k") (codes "v") set_line-plain (Permᴰ.swap refl refl) two-AreApart
      (λ n. (make_db, refl))
