-- ===== src/Tests/Network.antt =====
-- Concrete inputs for the handler of a connection and for the ring of nodes.
use go_redis.Base.{
  ◌⊎◌, ◌≡◌, refl, ◌≢◌, true, some, List, [], ◌∷◌, ◌++◌, arith, Bytes, codes, length,
}
use go_redis.Dict.{Order}
use go_redis.Parser.{eof}
use go_redis.Parser.RoundTrip
use go_redis.Parser.RoundTrip.{CommandIsPlain}
use go_redis.Database.Db.{Entity, make_db}
use go_redis.Database.Standalone.{exec_server}
use go_redis.Handler.{Session, Conn, client_closed, handler}
use go_redis.Handler.Exchange.{exchange, handler-written}
use go_redis.Consistenthash.{NodeMap, new_node_map, add_nodes, pick_node}
use go_redis.Consistenthash.Moves.{add_nodes-moves}
use go_redis.Consistenthash.Owner.{IsValid, IsOwner, pick_node-IsOwner}

abbrev in_order : Order Entity
in_order m = m

abbrev conn : Conn
conn sent bytes = (sent ++ bytes, true)

abbrev session : Session
session = record { server = record { db_set = make_db ∷ []; selected = 0 }; logged = []; sent = [] }

abbrev ping_line : List Bytes
ping_line = codes "ping" ∷ []

ping_line-plain : CommandIsPlain ping_line
ping_line-plain = (λ e. cc, omega arith, ((λ e. cc, omega arith), tt))

handler-written_example :
    handler (exec_server in_order) conn eof (RoundTrip.written (ping_line ∷ ping_line ∷ [])) session
    ≡ (exchange (exec_server in_order) session (ping_line ∷ ping_line ∷ []), client_closed)
handler-written_example =
    handler-written (exec_server in_order) conn (λ sent bytes. refl) session
      (ping_line ∷ ping_line ∷ []) (ping_line-plain, (ping_line-plain, tt))

-- A ring with one node, whose hash is the length of its name.
abbrev ring : NodeMap
ring = record { node_hashs = 4 ∷ []; node_hash_map = (4, codes "node") ∷ [] }

ring-IsValid : IsValid length ring
ring-IsValid = record {
  sorted = (tt, tt);
  names = ((codes "node", unfold go_redis.Consistenthash.node_at in refl, refl, λ e. cc), tt);
}

pick_node-IsOwner_example :
    (n : Bytes) × (pick_node length ring (codes "k") ≡ some n)
    × (n ≢ [])
    × IsOwner length (4 ∷ []) (codes "k") n
pick_node-IsOwner_example = pick_node-IsOwner length ring (codes "k") ring-IsValid (λ e. cc)

add_nodes-moves_example :
    let after = pick_node length (add_nodes length ring ((b'n' ∷ codes "ew") ∷ [])) (codes "k") in
    (after ≡ some (b'n' ∷ codes "ew")) ⊎ (after ≡ pick_node length ring (codes "k"))
add_nodes-moves_example =
    add_nodes-moves length ring b'n' (codes "ew") (codes "k") ring-IsValid (λ e. cc)
