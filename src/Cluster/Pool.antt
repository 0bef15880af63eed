-- ===== src/Cluster/Pool.antt =====
-- cluster/client_pool.go: what a pool calls to make and to drop a client.
use go_redis.Base.{Bool, true, Option, none, some, Bytes, codes}
use go_redis.Client.{Net, Client, make_client, stop_requests, clean}

-- The object of a pool.
pub data Object (W : Type 0) : Type 0 where
  a_client : Client W → Object W
  other_object : Object W

pub data Made (W : Type 0) : Type 0 where
  made : Client W → Made W
  not_made : (err : Bytes) → W → Made W

module _ {W : Type 0} (net : Net W) where
  -- `MakeObject`: `MakeClient` dials the peer, and `Start`.
  unfoldable pub make_object : W → Made W
  make_object w =
      let (err, v) = net.dial w in elim err [ some e ↦ not_made e v | none ↦ made (make_client v) ]

  -- `DestroyObject`: the error, and the client that was closed once its requests are done.
  unfoldable pub destroy_object : Object W → Option Bytes × Option (Client W)
  unfolding stop_requests clean
  destroy_object (a_client c) = (none, some (clean net (stop_requests c)))
  destroy_object other_object = (some (codes "object is not a client"), none)

  unfoldable pub validate_object : Object W → Bool
  validate_object o = true

  -- `none` is the missing error.
  unfoldable pub activate_object : Object W → Option Bytes
  activate_object o = none

  unfoldable pub passivate_object : Object W → Option Bytes
  passivate_object o = none
