-- ===== src/Handler.antt =====
-- resp/handler/handler.go: what the server does with the payloads of one connection, and
-- `Connection.Write` of resp/connection/conn.go.
pub mod Exchange
pub mod Connection
use go_redis.Base.{
  ℕ, zero, suc, ◌+◌, ◌-◌, ◌*◌, ◌/◌, ◌%◌, ◌^◌, ◌≤◌, ◌<◌, min, max, ◌≡◌, refl, sym, ap, ◌∙◌, subst,
  ◌≡⟨◌⟩◌, ◌∎, ◌≢◌, ◌↔◌, ◌⊎◌, inl, inr, Bool, true, false, not, ◌&&◌, ◌||◌, Option, none, some, List,
  [], ◌∷◌, ◌++◌, map, append_assoc, append-nil, arith, Bytes, codes, bytes_eq, bytes_eq_refl,
  bytes_eq→eq, bytes_eq_iff, bytes_eq_of_ne, length, get_elem?, set, replicate, take, length-append,
  length-set, get_elem?-set_self, get_elem?-set_ne, set-get_elem?, set-set, get_elem?-lt, All,
  All-append, ltb, leb, ◌==◌, if◌then◌else◌, ltb→lt, lt→ltb, leb→le, ==_iff, ==_refl, Bool-cases,
  Option-cases, ◌>>=◌, ℤ, pos, negsuc, IsInt64,
}
use go_redis.Dict.{Order}
use go_redis.Reply.{Reply, multi_bulk, status, int, standard_err, to_bytes}
use go_redis.Parser.{Payload, Err, eof, unexpected_eof, message, End, closed, parse_stream}
use go_redis.Database.Db.{Entity}
use go_redis.Database.Standalone.{Server, Outcome}

-- `net.Conn.Write`: from what was sent, what is sent behind the call, and whether it succeeded.
abbrev pub Conn : Type 0
Conn = Bytes → Bytes → Bytes × Bool

-- The server as one client sees it, the lines given to `AddAof`, and the bytes sent.
pub record Session : Type 0 where
  pub server : Server
  pub logged : List (List Bytes)
  pub sent : Bytes

-- How the handler leaves its loop: by closing the client, behind a closed channel, or not at all.
pub data Finish : Type 0 where
  client_closed returned waiting : Finish

-- `strings.Contains`
begins_with : Bytes → Bytes → Bool
begins_with [] s = true
begins_with (c ∷ t) [] = false
begins_with (c ∷ t) (d ∷ s) = c == d && begins_with t s

contains_text : Bytes → Bytes → Bool
unfolding begins_with
contains_text t [] = begins_with t []
contains_text t (c ∷ s) = begins_with t (c ∷ s) || contains_text t s

-- `err.Error()`
pub err_text : Err → Bytes
err_text eof = codes "EOF"
err_text unexpected_eof = codes "unexpected EOF"
err_text (message t) = t

-- The errors behind which the client is gone.
unfoldable pub is_gone : Err → Bool
unfolding contains_text
is_gone eof = true
is_gone unexpected_eof = true
is_gone (message t) = contains_text (codes "use of closed network connection") t

-- `Connection.Write`
unfoldable pub write_bytes : Conn → Bytes → Bytes → Bytes × Bool
write_bytes conn sent [] = (sent, true)
write_bytes conn sent (b ∷ bytes) = conn sent (b ∷ bytes)

-- The bytes of a reply, or of the unknown error for `nil`.
unfoldable pub reply_bytes : Option Reply → Bytes
reply_bytes none = to_bytes (standard_err (codes "ERR unknown"))
reply_bytes (some r) = to_bytes r

-- `Exec` of a database: on the server as the connection sees it.
abbrev pub Exec : Type 0
Exec = Server → List Bytes → Outcome

module _ (run : Exec) (conn : Conn) where
  -- One command line: `Exec`, and the reply.
  unfoldable pub respond : Session → List Bytes → Session
  respond s args =
      let o = run s.server args in
      record {
        server = o.server;
        logged = s.logged ++ o.logged;
        sent = (write_bytes conn s.sent (reply_bytes o.reply)).0;
      }

  -- The switch on the payload's type.
  unfoldable pub on_reply : Session → Option Reply → Session
  unfolding respond
  on_reply s (some (multi_bulk args)) = respond s args
  on_reply s (some (status text)) = respond s (text ∷ [])
  on_reply s (some (int _)) =
      let refused = to_bytes (standard_err (codes "ERR unexpected integer from client")) in
      record s { sent = (write_bytes conn s.sent refused).0 }
  on_reply s _ = s

  -- A payload with an error: the client is closed, or told of it before `rest`.
  unfoldable pub on_error : Session → Err → (Session → Session × Finish) → Session × Finish
  unfolding is_gone err_text
  on_error s e rest =
      let (sent, ok) = write_bytes conn s.sent (to_bytes (standard_err (err_text e))) in
      if is_gone e
      then (s, client_closed)
      else if ok
      then rest (record s { sent = sent })
      else (record s { sent = sent }, client_closed)

  unfoldable pub on_payload : Session → Payload → (Session → Session × Finish) → Session × Finish
  unfolding on_error on_reply
  on_payload s p rest = elim p.err [ none ↦ rest (on_reply s p.reply) | some e ↦ on_error s e rest ]

  -- The loop over the channel.
  unfoldable pub handle_all : List Payload → End → Session → Session × Finish
  unfolding on_payload
  handle_all [] closed s = (s, returned)
  handle_all [] _ s = (s, waiting)
  handle_all (p ∷ ps) end s = on_payload s p (handle_all ps end)

  -- `Handler` on a new connection that sends `input` and then fails with `ending`.
  unfoldable pub handler : Err → Bytes → Session → Session × Finish
  unfolding handle_all
  handler ending input s = let r = parse_stream ending input in handle_all r.payloads r.end s
