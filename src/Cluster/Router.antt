-- ===== src/Cluster/Router.antt =====
-- cluster/router.go, del.go, flushdb.go, ping.go, rename.go, select.go, and Exec.
use go_redis.Base.{
  Bool, true, false, not, Option, none, some, List, [], ◌∷◌, ◌++◌, Bytes, codes, bytes_eq,
  if◌then◌else◌, ℤ, pos, add_int64,
}
use go_redis.Dict
use go_redis.Dict.{Dict, Order}
use go_redis.Reply.{
  Reply, ok, int, unknown_err, arg_num_err, standard_err, is_err_reply, error_text,
}
use go_redis.Utils.{to_lower}
use go_redis.Consistenthash.{HashFunc, pick_node}
use go_redis.Database.Db.{Entity}
use go_redis.Cluster.Relay.{Peers, ClusterDatabase, State, relay, boardcast, exec_local}

-- What a command returns: a reply, which may be `nil`, or a panic.
pub data Answer : Type 0 where
  replied : Option Reply → Answer
  panicked : Answer

-- `IsErrReply` of a reply that may be `nil`.
is_err : Option Reply → Option Bool
is_err none = none
is_err (some r) = is_err_reply r

-- `r.(reply.ErrorReply)`
as_error : Option Reply → Answer
as_error none = panicked
as_error (some r) = elim (error_text r) [ none ↦ panicked | some _ ↦ replied (some r) ]

-- `r.(*reply.IntReply)`
int_code : Option Reply → Option ℤ
int_code (some (int z)) = some z
int_code _ = none

-- The loop of `Del` over the replies, with `successCount`.
unfoldable pub del_loop : ℤ → List (Bytes × Option Reply) → Answer
unfolding is_err as_error int_code
del_loop count [] = replied (some (int count))
del_loop count ((peer, r) ∷ replies) =
    let rest = λ (z : ℤ). del_loop (add_int64 count z) replies in
    elim (is_err r) [
      | none ↦ panicked
      | some true ↦ as_error r
      | some false ↦ elim (int_code r) [
        | none ↦ replied (some (standard_err (codes "ERR Del command failed")))
        | some z ↦ rest z
      ]
    ]

-- The loop of `flushdb`.
unfoldable pub flush_loop : List (Bytes × Option Reply) → Answer
unfolding is_err as_error
flush_loop [] = replied (some ok)
flush_loop ((peer, r) ∷ replies) =
    let rest = flush_loop replies in
    elim (is_err r) [ none ↦ panicked | some true ↦ as_error r | some false ↦ rest ]

-- The values of the router's map.
pub data CmdFunc : Type 0 where
  default_func ping rename flushdb del exec_select : CmdFunc

unfoldable pub make_router : Dict CmdFunc
unfolding Dict.store bytes_eq
make_router =
    let r0 = Dict.store (codes "exists") default_func [] in
    let r1 = Dict.store (codes "del") default_func r0 in
    let r2 = Dict.store (codes "get") default_func r1 in
    let r3 = Dict.store (codes "type") default_func r2 in
    let r4 = Dict.store (codes "set") default_func r3 in
    let r5 = Dict.store (codes "setnx") default_func r4 in
    let r6 = Dict.store (codes "getset") default_func r5 in
    let r7 = Dict.store (codes "ping") ping r6 in
    let r8 = Dict.store (codes "rename") rename r7 in
    let r9 = Dict.store (codes "renamenx") rename r8 in
    let r10 = Dict.store (codes "flushdb") flushdb r9 in
    let r11 = Dict.store (codes "del") del r10 in Dict.store (codes "select") exec_select r11

-- The order of `range` over the map of replies.
abbrev pub Visit : Type 0
Visit = Dict (Option Reply) → List (Bytes × Option Reply)

module _ {W : Type 0} (order : Order Entity) (peers : Peers W) (hash : HashFunc)
    (visit : Visit) where
  -- `PickNode` and then the function of a node's name; an index panic of `PickNode` is one here.
  unfoldable pub with_node :
      ClusterDatabase → Bytes → State W → (Bytes → Answer × State W) → Answer × State W
  with_node cluster key s f = elim (pick_node hash cluster.peer_picker key) [
    | none ↦ (panicked, s)
    | some peer ↦ f peer
  ]

  unfoldable pub relay_answer : ClusterDatabase → Bytes → List Bytes → State W → Answer × State W
  relay_answer cluster peer args s =
      let (r, t) = relay order peers cluster peer args s in (replied r, t)

  -- `defaultFunc`
  unfoldable pub run_default : ClusterDatabase → List Bytes → State W → Answer × State W
  unfolding with_node relay_answer
  run_default cluster (name ∷ key ∷ args) s =
      with_node cluster key s λ peer. relay_answer cluster peer (name ∷ key ∷ args) s
  run_default cluster _ s = (panicked, s)

  -- `Rename`: the command is relayed to the new key, as if that were a node's name.
  unfoldable pub run_rename : ClusterDatabase → List Bytes → State W → Answer × State W
  unfolding with_node relay_answer
  run_rename cluster (name ∷ old ∷ cur ∷ []) s = with_node cluster old s λ old_peer.
      with_node cluster cur s λ cur_peer.
        if not (bytes_eq old_peer cur_peer)
        then (replied (some (standard_err (codes "ERR cross slot rename is not allowed"))), s)
        else relay_answer cluster cur (name ∷ old ∷ cur ∷ []) s
  run_rename cluster _ s = (replied (some (arg_num_err (codes "rename"))), s)

  -- `Del`
  unfoldable pub run_del : ClusterDatabase → List Bytes → State W → Answer × State W
  unfolding del_loop
  run_del cluster args s =
      let (replies, t) = boardcast order peers cluster args s in
      (del_loop (pos 0) (visit replies), t)

  -- `flushdb`
  unfoldable pub run_flushdb : ClusterDatabase → List Bytes → State W → Answer × State W
  unfolding flush_loop
  run_flushdb cluster args s =
      let (replies, t) = boardcast order peers cluster args s in (flush_loop (visit replies), t)

  -- `ping` and `execSelect`
  unfoldable pub run_local : List Bytes → State W → Answer × State W
  run_local args s = let (r, t) = exec_local order peers s args in (replied r, t)

  unfoldable pub run_func : CmdFunc → ClusterDatabase → List Bytes → State W → Answer × State W
  unfolding run_default run_rename run_del run_flushdb run_local
  run_func default_func cluster args s = run_default cluster args s
  run_func ping cluster args s = run_local args s
  run_func rename cluster args s = run_rename cluster args s
  run_func flushdb cluster args s = run_flushdb cluster args s
  run_func del cluster args s = run_del cluster args s
  run_func exec_select cluster args s = run_local args s

  -- The deferred `recover`.
  unfoldable pub recovered : Answer × State W → Option Reply × State W
  recovered (replied r, s) = (r, s)
  recovered (panicked, s) = (some unknown_err, s)

  -- `ClusterDatabase.Exec`; the first word of an empty line is an index panic.
  unfoldable pub exec_cluster : ClusterDatabase → List Bytes → State W → Option Reply × State W
  unfolding run_func recovered
  exec_cluster cluster [] s = (some unknown_err, s)
  exec_cluster cluster (name ∷ args) s =
      let cmd_name = to_lower name in
      elim (Dict.get make_router cmd_name) [
        | none ↦ (some (standard_err (codes "ERR unknown command '" ++ (cmd_name ++ codes "'"))), s)
        | some f ↦ recovered (run_func f cluster (name ∷ args) s)
      ]
