-- ===== src/Cluster/Renames.antt =====
-- RENAME and RENAMENX, which are sent to the new key instead of a node.
use go_redis.Base.{
  ◌≡◌, refl, ◌≢◌, ◌⊎◌, inl, inr, true, false, Option, some, List, [], ◌∷◌, Bytes, codes, bytes_eq,
  bytes_eq_of_ne, Bool-cases, Option-cases,
}
use go_redis.Dict
use go_redis.Dict.{Dict, Order}
use go_redis.Reply.{Reply, unknown_err, standard_err, to_bytes, is_err_reply}
use go_redis.Utils.{to_lower}
use go_redis.Consistenthash.{HashFunc, pick_node}
use go_redis.Database.Db.{Entity}
use go_redis.Cluster.Relay.{Peers, ClusterDatabase, State, relay, has_pool, relay_failed}
use go_redis.Cluster.Router.{
  panicked, rename, make_router, Visit, run_rename, exec_cluster, recovered, run_func, with_node,
  relay_answer,
}

-- Whether the name is one of the two commands, in any case.
abbrev pub IsRename : Bytes → Type 0
IsRename name = (to_lower name ≡ codes "rename") ⊎ (to_lower name ≡ codes "renamenx")

routes_rename : (name : Bytes) → IsRename name → Dict.get make_router (to_lower name) ≡ some rename
unfolding make_router Dict.get Dict.load Dict.store bytes_eq
routes_rename name (inl e) = rw e refl
routes_rename name (inr e) = rw e refl

module _ {W : Type 0} (order : Order Entity) (peers : Peers W) (hash : HashFunc)
    (visit : Visit) where
  -- The reply is an error, and nothing has changed.
  abbrev pub Refused : State W → Option Reply × State W → Type 0
  Refused s result = (r : Reply) × (result ≡ (some r, s)) × (is_err_reply r ≡ some true)

  relay-Refused :
      (cluster : ClusterDatabase) (peer : Bytes) (args : List Bytes) (s : State W)
      → peer ≢ cluster.self
      → has_pool cluster.peer_connection peer ≡ false
      → Refused s (relay order peers cluster peer args s)
  unfolding relay is_err_reply to_bytes
  relay-Refused cluster peer args s ne e = (
    relay_failed (codes "getPeerClient connection not found"),
    rw (bytes_eq_of_ne peer cluster.self ne, e) refl,
    refl,
  )

  panic-Refused : (s : State W) → Refused s (recovered order peers hash visit (panicked, s))
  unfolding recovered is_err_reply to_bytes
  panic-Refused s = (unknown_err, refl, refl)

  sent-Refused :
      (cluster : ClusterDatabase) (name old cur : Bytes) (s : State W)
      → cur ≢ cluster.self
      → has_pool cluster.peer_connection cur ≡ false
      → Refused s (
          recovered order peers hash visit
            (run_rename order peers hash visit cluster (name ∷ old ∷ cur ∷ []) s))
  unfolding run_rename recovered with_node relay_answer is_err_reply to_bytes
  sent-Refused cluster name old cur s ne e =
      elim (Option-cases (pick_node hash cluster.peer_picker old)) [
        | inl stop ↦ rw (recovered, run_rename, with_node, stop) (panic-Refused s)
        | inr (p, is) ↦ elim (Option-cases (pick_node hash cluster.peer_picker cur)) [
          | inl stop ↦ rw (recovered, run_rename, with_node, is, stop) (panic-Refused s)
          | inr (q, iq) ↦ elim (Bool-cases (bytes_eq p q)) [
            | inl same ↦
                rw (recovered, run_rename, with_node, is, iq, same, relay_answer)
                  (relay-Refused cluster cur (name ∷ old ∷ cur ∷ []) s ne e)
            | inr other ↦ (
              standard_err (codes "ERR cross slot rename is not allowed"),
              rw (recovered, run_rename, with_node, is, iq, other) refl,
              refl,
            )
          ]
        ]
      ]

  -- If the new key is not the name of a node, RENAME and RENAMENX are answered with an error and
  -- change nothing, on this node and on the others, whatever keys there are.
  pub exec_cluster-Refused :
      (cluster : ClusterDatabase) (name old cur : Bytes) (s : State W)
      → IsRename name
      → cur ≢ cluster.self
      → has_pool cluster.peer_connection cur ≡ false
      → Refused s (exec_cluster order peers hash visit cluster (name ∷ old ∷ cur ∷ []) s)
  unfolding exec_cluster run_func
  exec_cluster-Refused cluster name old cur s is ne e =
      rw (exec_cluster, routes_rename name is, run_func) (sent-Refused cluster name old cur s ne e)
