-- ===== src/Tests/Server.antt =====
-- Concrete inputs for the life of the server and for its logger.
use go_redis.Base.{◌≡◌, refl, ◌≢◌, true, false, some, [], ◌∷◌, ◌++◌, Bytes, codes, get_elem?, occ}
use go_redis.Tcp.{
  accepted, serving, Link, draining, finished, listener_closed, handler_closed, Server, new_server,
  close_links, accept_link, enter_link, close_listener, close_handler, accept, accept_error, enter,
  signal, close, Reach, start, step,
}
use go_redis.Sync
use go_redis.Tcp.{blocked, draining, block_link, block}
use go_redis.Tcp.Blocked.{IsBlocked, panic_link-stuck}
use go_redis.Cluster.Wire.{sound}
use go_redis.Tcp.Echo.{read_error, make_handler, handle, handle-lines}
use go_redis.Tcp.Late.{Stays, stay, go_on, late_link-stuck}
use go_redis.Tcp.Drain.{in_loop, Quiet, shutdown-finished}

abbrev open_link : Link
open_link = record { stage = serving; is_open = true }

-- One client is served.
one_client : Reach new_server (record new_server { wait_done = 1; links = open_link ∷ [] })
unfolding accept_link enter_link Sync.get
one_client =
    step (step start (accept refl refl))
      (enter 0 (record { stage = accepted; is_open = true }) refl refl)

-- Its parser panics.
abbrev blocked_server : Server
blocked_server = record new_server {
  wait_done = 1;
  links = record { stage = blocked; is_open = true } ∷ [];
}

blocked_client : Reach new_server blocked_server
unfolding block_link
blocked_client = step one_client (block 0 open_link refl refl)

-- The signal comes, the connections are closed, and Accept fails.
abbrev closed_server : Server
closed_server = record {
  listening = false;
  phase = draining;
  closer = handler_closed;
  closing = 0;
  wait_done = 1;
  links = record { stage = blocked; is_open = false } ∷ [];
}

closed_run : Reach blocked_server closed_server
unfolding close_listener close_handler close_links
closed_run = step (step (step start (signal refl)) (close refl)) (accept_error refl)

panic_link-stuck_example : IsBlocked 0 closed_server.links × (closed_server.phase ≢ finished)
panic_link-stuck_example =
    panic_link-stuck 0 blocked_client (record { stage = blocked; is_open = true }, refl, refl)
      closed_run

-- The signal comes while one client is served.
one_signal : Reach new_server (record new_server {
  listening = false;
  closer = listener_closed;
  wait_done = 1;
  links = open_link ∷ [];
})
unfolding close_listener
one_signal = step one_client (signal refl)

shutdown-finished_example :
    (t : Server) × Quiet
      (record new_server {
        listening = false;
        closer = listener_closed;
        wait_done = 1;
        links = open_link ∷ [];
      })
      t
    × (t.phase ≡ finished)
shutdown-finished_example = shutdown-finished one_signal refl (in_loop, tt)

-- The signal comes between Accept and the loop of the connection.
abbrev late_server : Server
late_server = record new_server {
  listening = false;
  closer = handler_closed;
  wait_done = 1;
  links = open_link ∷ [];
}

late_client : Reach new_server late_server
unfolding accept_link enter_link Sync.get close_listener close_handler close_links
late_client =
    step (step (step (step start (accept refl refl)) (signal refl)) (close refl))
      (enter 0 (record { stage = accepted; is_open = true }) refl refl)

-- The listener fails after that.
abbrev late_draining : Server
late_draining = record late_server { phase = draining }

draining_run : Stays 0 late_server late_draining
draining_run = go_on stay (λ e. cc) (accept_error refl)

late_link-stuck_example :
    (get_elem? late_draining.links 0 ≡ some open_link) × (late_draining.phase ≢ finished)
late_link-stuck_example = late_link-stuck 0 open_link late_client refl refl refl refl draining_run

handle-lines_example :
    (lines rest : Bytes) × (handle sound read_error 1 make_handler (codes "a\nbc\nd")
      ≡ some (record make_handler { active_conn = 1 ∷ [] }, record { sent = lines; waiting = 0 }))
    × (codes "a\nbc\nd" ≡ lines ++ rest)
    × (occ 10 rest ≡ 0)
handle-lines_example =
    handle-lines sound (λ sent bytes. refl) read_error 1 make_handler (codes "a\nbc\nd") refl refl
