-- ===== src/Cluster/Relay.antt =====
-- cluster/cluster_database.go, com.go: the nodes, and how a command line gets to one or to all.
use go_redis.Base.{
  Bool, false, not, ◌||◌, Option, none, some, List, [], ◌∷◌, ◌++◌, Bytes, codes, bytes_eq,
  if◌then◌else◌,
}
use go_redis.Strconv.{itoa}
use go_redis.Dict
use go_redis.Dict.{Dict, Order}
use go_redis.Reply.{Reply, standard_err}
use go_redis.Utils.{to_cmd_line2}
use go_redis.Consistenthash.{HashFunc, NodeMap, new_node_map, add_nodes}
use go_redis.Database.Db.{Entity}
use go_redis.Database.Standalone.{Server, exec_server}

-- The pools of connections and the clients of the peers, over a state `W` of the network. `borrow`
-- is `BorrowObject`, with the text of its error; `send` is `Client.Send`, whose reply may be `nil`;
-- `give_back` is `ReturnObject`.
pub record Peers (W : Type 0) : Type 0 where
  pub borrow : Bytes → W → Option Bytes × W
  pub send : Bytes → List Bytes → W → Option Reply × W
  pub give_back : Bytes → W → W

pub record ClusterDatabase : Type 0 where
  pub self : Bytes
  pub nodes : List Bytes
  pub peer_picker : NodeMap
  pub peer_connection : List Bytes

-- `MakeClusterDatabase`; the local database is part of the state.
unfoldable pub make_cluster : HashFunc → Bytes → List Bytes → ClusterDatabase
make_cluster hash self peers = record {
  self = self;
  nodes = peers ++ self ∷ [];
  peer_picker = add_nodes hash new_node_map (peers ++ self ∷ []);
  peer_connection = peers;
}

-- The local database with the index that the connection has selected, the lines given to `AddAof`,
-- and the network.
pub record State (W : Type 0) : Type 0 where
  pub server : Server
  pub logged : List (List Bytes)
  pub world : W

-- Whether `peerConnection` has the key.
unfoldable pub has_pool : List Bytes → Bytes → Bool
has_pool [] peer = false
has_pool (p ∷ peers) peer = bytes_eq p peer || has_pool peers peer

abbrev pub relay_failed : Bytes → Reply
relay_failed text = standard_err (codes "relay failed" ++ text)

module _ {W : Type 0} (order : Order Entity) (peers : Peers W) where
  -- `cluster.db.Exec`
  unfoldable pub exec_local : State W → List Bytes → Option Reply × State W
  exec_local s args =
      let o = exec_server order s.server args in
      (o.reply, record s { server = o.server; logged = s.logged ++ o.logged })

  -- The two requests to a peer: SELECT of the connection's database, and the command.
  unfoldable pub send_to : Bytes → List Bytes → State W → Option Reply × State W
  send_to peer args s =
      let select = to_cmd_line2 (codes "SELECT") (itoa s.server.selected ∷ []) in
      let (_, w) = peers.send peer select s.world in
      let (r, w') = peers.send peer args w in (r, record s { world = peers.give_back peer w' })

  -- `relay`, with `getPeerClient` and `returnPeerClient`.
  unfoldable pub relay : ClusterDatabase → Bytes → List Bytes → State W → Option Reply × State W
  unfolding exec_local send_to has_pool
  relay cluster peer args s =
      let (e, w) = peers.borrow peer s.world in
      if bytes_eq peer cluster.self
      then exec_local s args
      else if not (has_pool cluster.peer_connection peer)
      then (some (relay_failed (codes "getPeerClient connection not found")), s)
      else elim e [
        | some text ↦ (some (relay_failed text), record s { world = w })
        | none ↦ send_to peer args (record s { world = w })
      ]

  -- The loop of `boardcast`, with the map of results.
  unfoldable pub boardcast_loop :
      ClusterDatabase
      → List Bytes
      → List Bytes
      → Dict (Option Reply)
      → State W
      → Dict (Option Reply) × State W
  unfolding relay
  boardcast_loop cluster args [] results s = (results, s)
  boardcast_loop cluster args (peer ∷ nodes) results s =
      let (r, t) = relay cluster peer args s in
      boardcast_loop cluster args nodes (Dict.store peer r results) t

  unfoldable pub boardcast : ClusterDatabase → List Bytes → State W → Dict (Option Reply) × State W
  unfolding boardcast_loop
  boardcast cluster args s = boardcast_loop cluster args cluster.nodes [] s
