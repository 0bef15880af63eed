-- ===== src/Tests/Clients.antt =====
-- Concrete inputs for the client, and for goroutines on one dictionary.
use go_redis.Base.{
  ℕ, ◌≤◌, min, ◌≡◌, refl, ◌⊎◌, Bool, true, false, none, some, List, [], ◌∷◌, ◌++◌, arith, codes,
  bytes_eq, get_elem?, if◌then◌else◌,
}
use go_redis.Dict
use go_redis.Dict.{Dict, load_or_store}
use go_redis.Dict.Threads.{
  put, remove, Thread, called, returned, Reach, start, step, move, first_access, second_access,
  all_returned, winners,
}
use go_redis.Dict.Races.{adders, put_if_absent-Reach, put-remove_races}
use go_redis.Reply.{bulk, status}
use go_redis.Parser.{Payload, delivered, failed, eof, parse_stream}
use go_redis.Client.{
  Request, Net, Client, make_client, make_request, deliver, retry, reply_of, enqueue, do_request,
  finish_request, handle_read,
}
use go_redis.Client.Order.{answered}
use go_redis.Client.Pipeline
use go_redis.Client.Pipeline.{carried, Run, more, send, write, read}
use go_redis.Client.Replies.{reply-Run}
use go_redis.Client.Reconnect.{Placed, do_request-redial}
use go_redis.Client.Relayed.{sent_bytes, replied_to, handle_read-sent}

abbrev no_keys : Dict ℕ
no_keys = []

abbrev one_key : Dict ℕ
one_key = (codes "k", 5) ∷ []

-- One goroutine behind both of its accesses.
one_run : (n : Dict ℕ) × Reach (adders (codes "k") (1 ∷ [])) no_keys (returned 1 ∷ []) n
unfolding move first_access second_access load_or_store Dict.load
one_run = (_, step 0 _ (step 0 _ start refl) refl)

abbrev one_winner : List (Thread ℕ)
one_winner = returned 1 ∷ []

put_if_absent-Reach_example :
    (winners one_winner ≤ 1) × ((all_returned one_winner ≡ false) ⊎ (winners one_winner ≡ min 1 1))
unfolding Dict.load
put_if_absent-Reach_example = put_if_absent-Reach (codes "k") (1 ∷ []) no_keys refl one_run.1

put-remove_races_example :
    ((n : Dict ℕ) × Reach
        (called (put (codes "k") 1) ∷ called (put (codes "k") 2) ∷ [])
        no_keys
        (returned 1 ∷ returned 1 ∷ [])
        n)
    × ((n : Dict ℕ) × Reach
          (called (remove (codes "k")) ∷ called (remove (codes "k")) ∷ [])
          one_key
          (returned 1 ∷ returned 1 ∷ [])
          n)
unfolding Dict.load bytes_eq
put-remove_races_example = put-remove_races (codes "k") 1 2 no_keys one_key refl refl

-- A network whose connection works when it is up, and that is up behind a dial.
abbrev net : Net Bool
net = record {
  write = λ bytes up. (if up then none else some (codes "broken pipe"), up);
  close = λ up. (none, false);
  dial = λ up. (none, true);
}

abbrev ping : Request
ping = make_request (codes "PING" ∷ [])

abbrev get : Request
get = make_request (codes "GET" ∷ codes "k" ∷ [])

abbrev pong : Payload
pong = delivered (some (status (codes "PONG")))

-- The client that waits for the reply to a PING.
abbrev waiting : Client Bool
waiting = record (make_client false) { waiting_reqs = ping ∷ [] }

-- The write fails, and the connection is dialled again.
do_request-redial_example :
    (d : Client Bool) × (do_request net get waiting ≡ some d)
    × ((tail : List Request) × Placed get waiting d tail
        × (handle_read (pong ∷ []) d ≡ (
          [],
          record d {
            waiting_reqs = tail;
            finished = d.finished ++ record ping { reply = reply_of pong } ∷ [];
          },
        )))
do_request-redial_example =
    do_request-redial net get waiting (pong ∷ []) (λ e. cc) refl (omega arith)

handle_read-sent_example :
    handle_read
      (parse_stream eof (sent_bytes (bulk (codes "v") ∷ []))).payloads
      (record (make_client true) { waiting_reqs = get ∷ [] })
    ≡ (
      failed eof ∷ [],
      record (make_client true) { finished = replied_to (get ∷ []) (bulk (codes "v") ∷ []) },
    )
handle_read-sent_example =
    handle_read-sent (bulk (codes "v") ∷ []) (record (make_client true) { waiting_reqs = get ∷ [] })
      ((λ e. cc, omega arith), tt) refl refl

-- A PING that is sent, written and answered.
answered_run : (c : Client Bool) × Run net true ((codes "PING" ∷ []) ∷ []) (reply_of pong ∷ []) c
unfolding enqueue do_request deliver retry finish_request reply_of
answered_run = (
  _,
  more
      (more (more Pipeline.Run.start (send ping refl refl (omega arith)))
        (write {r = ping} {rest = []} refl (omega arith) refl))
      (read pong (λ e. cc) refl),
)

abbrev client : Client Bool
client = answered_run.0

reply-Run_example :
    (r : Request) × (get_elem? (answered client.finished) 0 ≡ some r)
    × (r.reply ≡ reply_of pong)
    × (get_elem? ((codes "PING" ∷ []) ∷ []) 0 ≡ some r.args)
reply-Run_example = reply-Run net 0 (reply_of pong) answered_run.1 refl
