-- ===== src/Cluster/Wire.antt =====
-- What stands between two nodes: the client of one, the handler of the other, and the parsers of both.
-- Each request and each reply is read to the end of its own bytes; what a parser that wants more bytes
-- would take from the next one is left out.
use go_redis.Base.{
  ◌≡◌, refl, sym, ap, ◌∙◌, true, false, Option, none, some, List, [], ◌∷◌, ◌++◌, append-nil, Bytes,
  bytes_eq, if◌then◌else◌,
}
use go_redis.Dict.{Order}
use go_redis.Reply.{Reply, bulk, multi_bulk, to_bytes, multi_bulk_to_bytes}
use go_redis.Parser.{Payload, eof, failed, delivered, parse_stream}
use go_redis.Parser.RoundTrip.{CommandIsPlain, IsPlain}
use go_redis.Client.{make_request, send_result, reply_of}
use go_redis.Client.Relayed.{sent_bytes, payloads-sent}
use go_redis.Database.Db.{Entity}
use go_redis.Database.Standalone.{Server, exec_server}
use go_redis.Handler.{Session, Conn, handler, reply_bytes}
use go_redis.Handler.Exchange.{exchange, handler-written}
use go_redis.Cluster.Relay.{Peers}

-- The databases of each node, with the index that its peers' connections have selected.
abbrev pub World : Type 0
World = Bytes → Server

abbrev pub with_server : World → Bytes → Server → World
with_server w n s m = if bytes_eq m n then s else w m

-- A connection that takes every write.
abbrev pub sound : Conn
sound sent bytes = (sent ++ bytes, true)

-- What `Send` returns for the payloads that its client reads: the first, or the time-out if none has come
-- when the bytes end.
unfoldable pub client_gets : List Bytes → List Payload → Option Reply
unfolding send_result reply_of
client_gets args [] = send_result true (make_request args)
client_gets args (p ∷ ps) = elim p.err [
  | some eof ↦ send_result true (make_request args)
  | _ ↦ send_result false (record (make_request args) { reply = reply_of p })
]

-- The node's handler on the bytes of the request, with its server and what it sends back.
unfoldable pub peer_serves : Order Entity → Server → List Bytes → Session
unfolding handler
peer_serves order server args =
    (handler (exec_server order) sound eof (multi_bulk_to_bytes args)
      (record { server = server; logged = []; sent = [] })).0

-- The client of a peer on the bytes of a reply.
unfoldable pub over_wire : List Bytes → Option Reply → Option Reply
unfolding client_gets reply_bytes
over_wire args r = client_gets args (parse_stream eof (reply_bytes r)).payloads

unfoldable pub send_line : Order Entity → Bytes → List Bytes → World → Option Reply × World
unfolding peer_serves client_gets
send_line order peer args w =
    let s = peer_serves order (w peer) args in
    (client_gets args (parse_stream eof s.sent).payloads, with_server w peer s.server)

-- The nodes, over a network that loses nothing.
abbrev pub nodes : Order Entity → Peers World
nodes order = record {
  borrow = λ peer w. (none, w);
  send = send_line order;
  give_back = λ peer w. w;
}

peer_serves-plain :
    (order : Order Entity) (server : Server) (line : List Bytes)
    → CommandIsPlain line
    → peer_serves order server line
      ≡ exchange
          (exec_server order)
          (record { server = server; logged = []; sent = [] })
          (line ∷ [])
unfolding peer_serves to_bytes
peer_serves-plain order server line plain =
    let s : Session = record { server = server; logged = []; sent = [] } in
    ap (λ (b : Bytes). (handler (exec_server order) sound eof b s).0)
      (sym (append-nil (multi_bulk_to_bytes line)))
    ∙ ap (λ r. r.0)
        (handler-written (exec_server order) sound (λ sent bytes. refl) s (line ∷ []) (plain, tt))

-- A plain request is run by the peer, whose reply comes back as its bytes.
pub send_line-plain :
    (order : Order Entity) (peer : Bytes) (line : List Bytes) (w : World)
    → CommandIsPlain line
    → send_line order peer line w ≡ (
      over_wire line (exec_server order (w peer) line).reply,
      with_server w peer (exec_server order (w peer) line).server,
    )
unfolding send_line over_wire
send_line-plain order peer line w plain =
    ap
      (λ (s : Session).
        (client_gets line (parse_stream eof s.sent).payloads, with_server w peer s.server))
      (peer_serves-plain order (w peer) line plain)

-- A plain value in a bulk reply comes back as an array of one.
pub over_wire_bulk :
    (args : List Bytes) (v : Bytes)
    → IsPlain v
    → over_wire args (some (bulk v)) ≡ some (multi_bulk (v ∷ []))
unfolding over_wire reply_bytes client_gets send_result reply_of
over_wire_bulk args v plain =
    let read : (parse_stream eof (sent_bytes (bulk v ∷ []))).payloads
        ≡ delivered (some (multi_bulk (v ∷ []))) ∷ failed eof ∷ [] =
      unfold parse_stream in payloads-sent (bulk v ∷ []) (plain, tt) in
    ap (λ (b : Bytes). client_gets args (parse_stream eof b).payloads)
      (sym (append-nil (to_bytes (bulk v))))
    ∙ ap (client_gets args) read
