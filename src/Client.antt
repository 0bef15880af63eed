-- ===== src/Client.antt =====
-- resp/client/client.go: the pipelined client. The network is a parameter; the two channels are
-- lists.
pub mod Order
pub mod Pipeline
pub mod Replies
pub mod Relayed
pub mod Reconnect
use go_redis.Base.{
  ℕ, zero, suc, ◌+◌, ◌-◌, ◌*◌, ◌/◌, ◌%◌, ◌^◌, ◌≤◌, ◌<◌, min, max, ◌≡◌, refl, sym, ap, ◌∙◌, subst,
  ◌≡⟨◌⟩◌, ◌∎, ◌≢◌, ◌↔◌, ◌⊎◌, inl, inr, Bool, true, false, not, ◌&&◌, ◌||◌, Option, none, some, List,
  [], ◌∷◌, ◌++◌, map, append_assoc, append-nil, arith, Bytes, codes, bytes_eq, bytes_eq_refl,
  bytes_eq→eq, bytes_eq_iff, bytes_eq_of_ne, length, get_elem?, set, replicate, take, length-append,
  length-set, get_elem?-set_self, get_elem?-set_ne, set-get_elem?, set-set, get_elem?-lt, All,
  All-append, ltb, leb, ◌==◌, if◌then◌else◌, ltb→lt, lt→ltb, leb→le, ==_iff, ==_refl, Bool-cases,
  Option-cases, ◌>>=◌, ℤ, pos, negsuc, IsInt64, add_int64, add_int64-pos,
}
use go_redis.Reply.{Reply, standard_err, multi_bulk_to_bytes}
use go_redis.Parser.{Payload}
use go_redis.Handler.{err_text}

-- `request`, without the id, which nothing reads.
pub record Request : Type 0 where
  pub args : List Bytes
  pub reply : Option Reply
  pub heartbeat : Bool
  pub err : Option Bytes

abbrev pub chan_size : ℕ
chan_size = 256

-- The error of `Close` on a connection: one of the network, or another.
pub data CloseError : Type 0 where
  op_error other_error : Bytes → CloseError

-- `Write` and `Close` of the connection and `Dial` of the address, over a state `W` of the network,
-- with the text of the error.
pub record Net (W : Type 0) : Type 0 where
  pub write : Bytes → W → Option Bytes × W
  pub close : W → Option CloseError × W
  pub dial : W → Option Bytes × W

-- The channels; the requests whose `waiting` is done, in turn; the number of goroutines of
-- `handleRead` that were started; the count of `working`; and which channels are closed.
pub record Client (W : Type 0) : Type 0 where
  pub pending_reqs : List Request
  pub waiting_reqs : List Request
  pub finished : List Request
  pub readers : ℕ
  pub working : ℕ
  pub pending_closed : Bool
  pub waiting_closed : Bool
  pub world : W

-- `MakeClient` and `Start`, on a network where `Dial` has succeeded.
abbrev pub make_client : {W : Type 0} → W → Client W
make_client w = record {
  pending_reqs = [];
  waiting_reqs = [];
  finished = [];
  readers = 1;
  working = 0;
  pending_closed = false;
  waiting_closed = false;
  world = w;
}

-- The requests of `Send` and of `doHeartbeat`.
abbrev pub make_request : List Bytes → Request
make_request args = record { args = args; reply = none; heartbeat = false; err = none }

abbrev pub make_heartbeat : Request
make_heartbeat = record { args = codes "PING" ∷ []; reply = none; heartbeat = true; err = none }

-- What `Send` returns once it no longer waits, by whether that was the time-out.
unfoldable pub send_result : Bool → Request → Option Reply
send_result true r = some (standard_err (codes "server time out"))
send_result false r = elim r.err [
  | none ↦ r.reply
  | some _ ↦ some (standard_err (codes "request failed"))
]

module _ {W : Type 0} (net : Net W) where
  -- The dial of `handleConnectionError`, which starts a reader.
  unfoldable pub redial : Client W → Option Bytes × Client W
  redial c =
      let (e, w) = net.dial c.world in
      elim e [
        | none ↦ (none, record c { readers = c.readers + 1; world = w })
        | some text ↦ (some text, record c { world = w })
      ]

  unfoldable pub handle_connection_error : Client W → Option Bytes × Client W
  unfolding redial bytes_eq
  handle_connection_error c =
      let (e, w) = net.close c.world in
      let d = record c { world = w } in
      elim e [
        | none ↦ redial d
        | some (op_error text) ↦
            if bytes_eq text (codes "use of closed network connection")
            then redial d
            else (some text, d)
        | some (other_error text) ↦ (some text, d)
      ]

  -- The loop of `doRequest` with the rounds that are left.
  unfoldable pub retry : ℕ → Bytes → Option Bytes → Client W → Option Bytes × Client W
  unfolding handle_connection_error
  retry zero bytes err c = (err, c)
  retry (suc i) bytes none c = (none, c)
  retry (suc i) bytes (some e) c =
      let (e1, d) = handle_connection_error c in
      let (e2, w) = net.write bytes d.world in
      elim e1 [
        | some text ↦ retry i bytes (some text) d
        | none ↦ retry i bytes e2 (record d { world = w })
      ]

  -- The first write of `doRequest`, and the loop.
  unfoldable pub deliver : List Bytes → Client W → Option Bytes × Client W
  unfolding retry
  deliver args c =
      let bytes = multi_bulk_to_bytes args in
      let (e, w) = net.write bytes c.world in retry 3 bytes e (record c { world = w })

  -- `none` is the panic of a send on `waitingReqs` behind its close.
  unfoldable pub do_request : Request → Client W → Option (Client W)
  unfolding deliver
  do_request req c =
      let (err, d) = deliver req.args c in
      if length req.args == 0 then some c else elim err [
        | none ↦
            if d.waiting_closed
            then none
            else some (record d { waiting_reqs = d.waiting_reqs ++ req ∷ [] })
        | some text ↦
            some (record d { finished = d.finished ++ record req { err = some text } ∷ [] })
      ]

-- What `handleRead` makes of a payload.
unfoldable pub reply_of : Payload → Option Reply
reply_of p = elim p.err [ none ↦ p.reply | some e ↦ some (standard_err (err_text e)) ]

module _ {W : Type 0} where
  -- `finishRequest`; `none` while it waits on the channel, whose `nil` when closed is ignored.
  unfoldable pub finish_request : Option Reply → Client W → Option (Client W)
  finish_request reply c = elim c.waiting_reqs [
    | [] ↦ if c.waiting_closed then some c else none
    | r ∷ rest ↦
        some (record c {
          waiting_reqs = rest;
          finished = c.finished ++ record r { reply = reply } ∷ [];
        })
  ]

  -- `handleRead` on the payloads that have come: those it has not yet taken, and the client.
  unfoldable pub handle_read : List Payload → Client W → List Payload × Client W
  unfolding finish_request reply_of
  handle_read [] c = ([], c)
  handle_read (p ∷ ps) c = elim (finish_request (reply_of p) c) [
    | none ↦ (p ∷ ps, c)
    | some d ↦ handle_read ps d
  ]

  -- The send on the channel of `Send` and `doHeartbeat`, with `working.Add`.
  unfoldable pub enqueue : Request → Client W → Client W
  enqueue r c = record c { pending_reqs = c.pending_reqs ++ r ∷ []; working = c.working + 1 }

  -- `Close` up to its wait, and behind it.
  unfoldable pub stop_requests : Client W → Client W
  stop_requests c = record c { pending_closed = true }

  unfoldable pub clean : Net W → Client W → Client W
  clean net c = let (_, w) = net.close c.world in record c { waiting_closed = true; world = w }
