-- ===== src/Cluster/Agreement.antt =====
-- A value that is set through one node and read through another. The nodes answer each other over a
-- network that loses nothing, with the bytes of requests and replies parsed.
use mathlib.Core.List.{Permᴰ}
use go_redis.Base.{
  ℕ, ◌≡◌, refl, sym, ap, ◌∙◌, subst, ◌≢◌, ◌⊎◌, inl, inr, false, Option, some, List, [], ◌∷◌, ◌++◌,
  arith, Bytes, codes, bytes_eq, bytes_eq_refl, bytes_eq_of_ne, length, get_elem?, set,
  get_elem?-set_self, get_elem?-lt, leb,
}
use go_redis.Dict
use go_redis.Dict.{Dict, Order}
use go_redis.Reply.{Reply, ok, bulk, multi_bulk}
use go_redis.Strconv.{itoa, parse_int}
use go_redis.Utils.{to_lower}
use go_redis.Consistenthash.{HashFunc, pick_node}
use go_redis.Database.Db.{Entity, Db, Effect, put_entity, get_entity}
use go_redis.Database.Commands.{exec}
use go_redis.Database.Strings.{entity_of, value_reply}
use go_redis.Database.Standalone.{
  Server, replies, exec_server, exec_select, select_index, select_command, finish,
}
use go_redis.Database.Served.{is_select, exec_server-select, on_db}
use go_redis.Database.Behaviour.{set_line, get_line, exec-set, exec-get, get_entity-put}
use go_redis.Cluster.Relay.{State, make_cluster, exec_local, send_to}
use go_redis.Cluster.Wire.{World, with_server, nodes, over_wire, send_line-plain, over_wire_bulk}
use go_redis.Parser.RoundTrip.{CommandIsPlain}
use go_redis.Cluster.Router.{default_func, make_router, Visit, exec_cluster}
use go_redis.Cluster.Owners.{AreApart, make_cluster-agree}
use go_redis.Cluster.Routing.{owner-IsReached, forwarded, exec_cluster-IsAnswered}

-- A SELECT of the first database is plain.
select-CommandIsPlain : CommandIsPlain (codes "SELECT" ∷ itoa 0 ∷ [])
unfolding itoa
select-CommandIsPlain =
    (λ e. cc, omega arith, ((λ e. cc, omega arith), ((λ e. cc, omega arith), tt)))

value_reply_bulk : (v : Bytes) → value_reply (some (entity_of v)) ≡ bulk v
unfolding value_reply
value_reply_bulk v = refl

-- The answers to a GET that finds the value: a bulk string from the node itself, an array of one
-- through a peer.
abbrev pub IsValue : Bytes → Option Reply → Type 0
IsValue v r = (r ≡ some (bulk v)) ⊎ (r ≡ some (multi_bulk (v ∷ [])))

module _ (order : Order Entity) (hash : HashFunc) (visit : Visit) where
  -- A command from a client of the node, whose connection has selected database 0.
  abbrev pub state_of : Bytes → World → State World
  state_of a w = record {
    server = record { db_set = (w a).db_set; selected = 0 };
    logged = [];
    world = w;
  }

  abbrev pub world_of : Bytes → State World → World
  world_of a s =
      with_server s.world a (record { db_set = s.server.db_set; selected = (s.world a).selected })

  unfoldable pub serve_at : Bytes → List Bytes → List Bytes → World → Option Reply × World
  serve_at a peers line w =
      let (r, s) =
        exec_cluster order (nodes order) hash visit (make_cluster hash a peers) line
          (state_of a w) in
      (r, world_of a s)

  -- The node's first database is that one.
  abbrev pub Holds : World → Bytes → Db → Type 0
  Holds w n db = get_elem? (w n).db_set 0 ≡ some db

  select-zero :
      (s : Server) (db : Db)
      → get_elem? s.db_set 0 ≡ some db
      → exec_server order s (codes "SELECT" ∷ itoa 0 ∷ []) ≡ replies (record s { selected = 0 }) ok
  unfolding select_command exec_select select_index itoa parse_int is_select to_lower bytes_eq
  select-zero s db g =
      let some_db : leb (length s.db_set) 0 ≡ false =
        ground (arith, get_elem?-lt s.db_set 0 db g) in
      exec_server-select order s (codes "SELECT") (itoa 0 ∷ []) refl ∙ rw some_db refl

  -- What a command makes of the first database of its node, and how it is answered.
  abbrev Done : Bytes → World → List Bytes → Effect → Option Reply × World → Type 0
  Done n w line e result =
      ((result.0 ≡ some e.reply) ⊎ (result.0 ≡ over_wire line (some e.reply)))
      × ((result.1 n).db_set ≡ set (w n).db_set 0 e.db)

  local-Done :
      (a : Bytes) (w : World) (name : Bytes) (args : List Bytes) (db : Db) (e : Effect)
      → is_select name ≡ false
      → Holds w a db
      → exec order db (name ∷ args) ≡ some e
      → let r = exec_local order (nodes order) (state_of a w) (name ∷ args) in
        Done a w (name ∷ args) e (r.0, world_of a r.1)
  unfolding exec_local finish
  local-Done a w name args db e n g h =
      let is = on_db order (state_of a w).server name args db e n g h in
      rw (exec_local, is, bytes_eq_refl a) (inl refl, refl)

  remote-Done :
      (a n : Bytes) (w : World) (name : Bytes) (args : List Bytes) (db : Db) (e : Effect)
      → n ≢ a
      → CommandIsPlain (name ∷ args)
      → is_select name ≡ false
      → Holds w n db
      → exec order db (name ∷ args) ≡ some e
      → let r = forwarded order (nodes order) hash visit n (name ∷ args) (state_of a w) in
        Done n w (name ∷ args) e (r.0, world_of a r.1)
  unfolding send_to finish
  remote-Done a n w name args db e ne plain s g h =
      let is = on_db order (record (w n) { selected = 0 }) name args db e s g h in
      let select = codes "SELECT" ∷ itoa 0 ∷ [] in
      let w1 = with_server w n (exec_server order (w n) select).server in
      rw
        (
          send_to,
          send_line-plain order n select w select-CommandIsPlain,
          send_line-plain order n (name ∷ args) w1 plain,
          select-zero (w n) db g,
          bytes_eq_refl n,
          bytes_eq_of_ne n a ne,
          is,
        )
        (inr refl, refl)

  -- A command of one key is run on the first database of the owner of the key.
  serve_at-Done :
      (c : ℕ) (self : Bytes) (peers : List Bytes) (w : World) (name key : Bytes) (args : List Bytes)
      (n : Bytes) (db : Db) (e : Effect)
      → Dict.get make_router (to_lower name) ≡ some default_func
      → is_select name ≡ false
      → pick_node hash (make_cluster hash (c ∷ self) peers).peer_picker key ≡ some n
      → Holds w n db
      → exec order db (name ∷ key ∷ args) ≡ some e
      → CommandIsPlain (name ∷ key ∷ args)
      → Done n w (name ∷ key ∷ args) e (serve_at (c ∷ self) peers (name ∷ key ∷ args) w)
  unfolding serve_at
  serve_at-Done c self peers w name key args n db e routed s at g h plain =
      let a = c ∷ self in
      let line = name ∷ key ∷ args in
      let result =
        exec_cluster order (nodes order) hash visit (make_cluster hash a peers) line
          (state_of a w) in
      let (m, is, _, answered) =
        exec_cluster-IsAnswered order (nodes order) hash visit c self peers name key args
          (state_of a w) routed in
      let same : m ≡ n = cc (at, is) in
      let P : Option Reply × State World → Type 0 = λ r. Done n w line e (r.0, world_of a r.1) in
      elim answered [
        | inl (here, r) ↦
            let own : a ≡ n = sym here ∙ same in
            subst P (sym r) (
              let r' = exec_local order (nodes order) (state_of a w) line in
              subst (λ x. Done x w line e (r'.0, world_of a r'.1)) own
                (local-Done a w name (key ∷ args) db e s (subst (λ x. Holds w x db) (sym own) g) h))
        | inr (there, r) ↦ subst P (sym r) (
            let r' = forwarded order (nodes order) hash visit m line (state_of a w) in
            subst (λ x. Done x w line e (r'.0, world_of a r'.1)) same
              (remote-Done a m w name (key ∷ args) db e there plain s
                (subst (λ x. Holds w x db) (sym same) g) h))
      ]

  set_routed : Dict.get make_router (to_lower (codes "set")) ≡ some default_func
  unfolding make_router to_lower Dict.get Dict.load Dict.store bytes_eq
  set_routed = refl

  get_routed : Dict.get make_router (to_lower (codes "get")) ≡ some default_func
  unfolding make_router to_lower Dict.get Dict.load Dict.store bytes_eq
  get_routed = refl

  pub get_at-set_at :
      (a_head : ℕ) (a_rest : Bytes) (a_peers : List Bytes) (b_head : ℕ) (b_rest : Bytes)
      (b_peers : List Bytes) (w : World) (k v : Bytes)
      → CommandIsPlain (set_line k v)
      → Permᴰ (a_peers ++ (a_head ∷ a_rest) ∷ []) (b_peers ++ (b_head ∷ b_rest) ∷ [])
      → AreApart hash (b_peers ++ (b_head ∷ b_rest) ∷ [])
      → ((n : Bytes) → (db : Db) × Holds w n db)
      → IsValue v
          (serve_at
            (b_head ∷ b_rest)
            b_peers
            (get_line k)
            (serve_at (a_head ∷ a_rest) a_peers (set_line k v) w).1).0
  unfolding is_select to_lower bytes_eq
  get_at-set_at a_head a_rest a_peers b_head b_rest b_peers w k v plain perm apart hold =
      let a = a_head ∷ a_rest in
      let b = b_head ∷ b_rest in
      let (n, at, _) = owner-IsReached hash a_head a_rest a_peers k in
      let same = make_cluster-agree hash a b a_peers b_peers k perm apart in
      let (db, g) = hold n in
      let w1 = (serve_at a a_peers (set_line k v) w).1 in
      let db1 = (put_entity db k (entity_of v)).0 in
      let (_, _, (_, (k_plain, (v_plain, _)))) = plain in
      let get_plain : CommandIsPlain (get_line k) =
        (λ e. cc, omega arith, ((λ e. cc, omega arith), (k_plain, tt))) in
      let first =
        serve_at-Done a_head a_rest a_peers w (codes "set") k (v ∷ []) n db _ set_routed refl at g
          (exec-set order db k v) plain in
      let now : Holds w1 n db1 =
        ap (λ dbs. get_elem? dbs 0) first.1
        ∙ get_elem?-set_self (w n).db_set 0 db1 (get_elem?-lt (w n).db_set 0 db g) in
      let found : value_reply (get_entity db1 k) ≡ bulk v =
        ap value_reply (get_entity-put order db k k (entity_of v) ∙ rw (bytes_eq_refl k) refl)
        ∙ value_reply_bulk v in
      let second =
        serve_at-Done b_head b_rest b_peers w1 (codes "get") k [] n db1 _ get_routed refl
          (sym same ∙ at) now (exec-get order db1 k) get_plain in
      elim second.0 [
        | inl p ↦ inl (p ∙ ap some found)
        | inr p ↦ inr (
            p
            ∙ (ap (λ r. over_wire (get_line k) (some r)) found
                ∙ over_wire_bulk (get_line k) v v_plain))
      ]
