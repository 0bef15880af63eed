-- ===== src/Tcp.antt =====
-- tcp/server.go with resp/handler/handler.go: the life of the server and of its connections. The
-- goroutines go a step at a time; what a connection exchanges is in Handler.
pub mod Shutdown
pub mod Late
pub mod Drain
pub mod Blocked
pub mod Echo
use go_redis.Base.{
  ℕ, zero, suc, ◌+◌, ◌-◌, ◌*◌, ◌/◌, ◌%◌, ◌^◌, ◌≤◌, ◌<◌, min, max, ◌≡◌, refl, sym, ap, ◌∙◌, subst,
  ◌≡⟨◌⟩◌, ◌∎, ◌≢◌, ◌↔◌, ◌⊎◌, inl, inr, Bool, true, false, not, ◌&&◌, ◌||◌, Option, none, some, List,
  [], ◌∷◌, ◌++◌, map, append_assoc, append-nil, arith, Bytes, codes, bytes_eq, bytes_eq_refl,
  bytes_eq→eq, bytes_eq_iff, bytes_eq_of_ne, length, get_elem?, set, replicate, take, length-append,
  length-set, get_elem?-set_self, get_elem?-set_ne, set-get_elem?, set-set, get_elem?-lt, All,
  All-append, ltb, leb, ◌==◌, if◌then◌else◌, ltb→lt, lt→ltb, leb→le, ==_iff, ==_refl, Bool-cases,
  Option-cases, ◌>>=◌, ℤ, pos, negsuc, IsInt64, add_int64, add_int64-pos, to_word, of_word,
}
use go_redis.Sync
use go_redis.Sync.{Boolean, Wait}

-- Where the goroutine of a connection stands: in front of `Handler`, in its loop, at a
-- channel that nothing is sent to or closed any more, or returned.
pub data Stage : Type 0 where
  accepted serving blocked returned : Stage

-- A connection; in its loop, or blocked there, it stands in `activeConn`.
pub record Link : Type 0 where
  pub stage : Stage
  pub is_open : Bool

-- `ListenAndServe`: in its loop, at `waitDone.Wait`, or returned.
pub data Phase : Type 0 where
  accepting draining finished : Phase

-- The goroutine that waits for `closeChan`: behind nothing, `listener.Close` or `handler.Close`.
pub data Closer : Type 0 where
  idle listener_closed handler_closed : Closer

pub record Server : Type 0 where
  pub listening : Bool
  pub phase : Phase
  pub closer : Closer
  pub closing : Boolean
  pub wait_done : Wait
  pub links : List Link

abbrev pub new_server : Server
new_server = record {
  listening = true;
  phase = accepting;
  closer = idle;
  closing = 0;
  wait_done = 0;
  links = [];
}

-- `RespHandler.Close`: each active connection is closed, also one that `drop_link` has left active. The
-- field `closing` is not written.
abbrev pub close_link : Link → Link
close_link l = elim l.stage [ accepted ↦ l | _ ↦ record l { is_open = false } ]

unfoldable pub close_links : List Link → List Link
close_links [] = []
close_links (l ∷ links) = close_link l ∷ close_links links

-- A new connection: `waitDone.Add`, and the goroutine.
unfoldable pub accept_link : Server → Server
accept_link s = record s {
  wait_done = s.wait_done + 1;
  links = s.links ++ record { stage = accepted; is_open = true } ∷ [];
}

-- The return of a goroutine: `closeClient`, or the refusal, and `waitDone.Done`.
unfoldable pub leave_link : ℕ → Server → Server
leave_link i s = record s {
  wait_done = s.wait_done - 1;
  links = set s.links i (record { stage = returned; is_open = false });
}

-- The return of a goroutine behind the end of its channel, on an error of the network that is not one
-- of those of `on_error`: the connection is neither closed nor taken out of `activeConn`.
unfoldable pub drop_link : ℕ → Link → Server → Server
drop_link i l s = record s {
  wait_done = s.wait_done - 1;
  links = set s.links i (record l { stage = returned });
}

-- The start of `Handler`: the connection is refused, or becomes active.
unfoldable pub enter_link : ℕ → Server → Server
unfolding Sync.get leave_link
enter_link i s =
    if Sync.get s.closing
    then leave_link i s
    else record s { links = set s.links i (record { stage = serving; is_open = true }) }

-- The parser of a connection panics on its input: it recovers, and leaves the channel open.
unfoldable pub block_link : ℕ → Link → Server → Server
block_link i l s = record s { links = set s.links i (record l { stage = blocked }) }

-- `listener.Close` and `handler.Close` of the goroutine that waits for the signal.
unfoldable pub close_listener : Server → Server
close_listener s = record s { listening = false; closer = listener_closed }

unfoldable pub close_handler : Server → Server
unfolding close_links
close_handler s = record s { links = close_links s.links; closer = handler_closed }

-- The return of `ListenAndServe`, with its deferred calls.
unfoldable pub finish : Server → Server
unfolding close_links
finish s = record s { listening = false; phase = finished; links = close_links s.links }

-- One step of one goroutine; the label is the connection whose client leaves, is
-- lost, or sends what its parser panics on.
pub data Step (s : Server) : Option ℕ → Server → Type 0 where
  accept : s.phase ≡ accepting → s.listening ≡ true → Step s none (accept_link s)
  accept_error : s.phase ≡ accepting → Step s none (record s { phase = draining })
  enter :
      (i : ℕ) (l : Link)
      → get_elem? s.links i ≡ some l
      → l.stage ≡ accepted
      → Step s none (enter_link i s)
  hang_up :
      (i : ℕ) (l : Link)
      → get_elem? s.links i ≡ some l
      → l.stage ≡ serving
      → Step s (some i) (leave_link i s)
  lose :
      (i : ℕ) (l : Link)
      → get_elem? s.links i ≡ some l
      → l.stage ≡ serving
      → Step s (some i) (drop_link i l s)
  block :
      (i : ℕ) (l : Link)
      → get_elem? s.links i ≡ some l
      → l.stage ≡ serving
      → Step s (some i) (block_link i l s)
  cut_off :
      (i : ℕ) (l : Link)
      → get_elem? s.links i ≡ some l
      → l.stage ≡ serving
      → l.is_open ≡ false
      → Step s none (leave_link i s)
  signal : s.closer ≡ idle → Step s none (close_listener s)
  close : s.closer ≡ listener_closed → Step s none (close_handler s)
  drained : s.phase ≡ draining → s.wait_done ≡ 0 → Step s none (finish s)

-- What the server reaches.
pub data Reach (s : Server) : Server → Type 0 where
  start : Reach s s
  step : {t u : Server} {label : Option ℕ} → Reach s t → Step t label u → Reach s u
