-- ===== src/Handler/Exchange.antt =====
-- A client that sends commands and reads their replies.
use go_redis.Base.{◌≡◌, refl, sym, ap, ◌∙◌, Bool, true, List, [], ◌∷◌, ◌++◌, append-nil, Bytes, All}
use go_redis.Parser.{failed, eof, closed}
use go_redis.Parser.RoundTrip
use go_redis.Parser.RoundTrip.{CommandIsPlain, commands_of, parse_stream-written}
use go_redis.Handler.{
  Exec, Conn, Session, client_closed, is_gone, write_bytes, reply_bytes, respond, on_reply,
  on_error, on_payload, handle_all, handler,
}

-- The connection takes every write whole.
abbrev pub Works : Conn → Type 0
Works conn = (sent bytes : Bytes) → conn sent bytes ≡ (sent ++ bytes, true)

module _ (run : Exec) where
  -- The commands one after another, each with its reply behind those before it.
  abbrev pub exchange : Session → List (List Bytes) → Session
  exchange s [] = s
  exchange s (line ∷ lines) =
      let o = run s.server line in
      exchange
        (record {
          server = o.server;
          logged = s.logged ++ o.logged;
          sent = s.sent ++ reply_bytes o.reply;
        })
        lines

  write_bytes-Works :
      (conn : Conn)
      → Works conn
      → (sent bytes : Bytes) → write_bytes conn sent bytes ≡ (sent ++ bytes, true)
  unfolding write_bytes
  write_bytes-Works conn works sent [] = ap (λ (l : Bytes). (l, true)) (sym (append-nil sent))
  write_bytes-Works conn works sent (b ∷ bytes) = works sent (b ∷ bytes)

  respond_lem :
      (conn : Conn) (works : Works conn) (s : Session) (line : List Bytes)
      → respond run conn s line ≡ exchange s (line ∷ [])
  unfolding respond
  respond_lem conn works s line =
      let o = run s.server line in
      ap
        (λ (w : Bytes × Bool).
          let t : Session = record {
            server = o.server;
            logged = s.logged ++ o.logged;
            sent = w.0;
          } in
          t)
        (write_bytes-Works conn works s.sent (reply_bytes o.reply))

  handle_all-commands :
      (conn : Conn) (works : Works conn) (s : Session) (lines : List (List Bytes))
      → handle_all run conn (commands_of lines ++ failed eof ∷ []) closed s
        ≡ (exchange s lines, client_closed)
  unfolding handle_all on_payload on_error on_reply is_gone
  handle_all-commands conn works s [] = refl
  handle_all-commands conn works s (line ∷ lines) =
      ap (handle_all run conn (commands_of lines ++ failed eof ∷ []) closed)
        (respond_lem conn works s line)
      ∙ handle_all-commands conn works (exchange s (line ∷ [])) lines

  -- A client that sends plain commands and then closes its side gets, over a connection that takes
  -- every write, exactly one reply for each command, in the order of the commands, and is closed.
  pub handler-written :
      (conn : Conn) (works : Works conn) (s : Session) (lines : List (List Bytes))
      → All CommandIsPlain lines
      → handler run conn eof (RoundTrip.written lines) s ≡ (exchange s lines, client_closed)
  unfolding handler
  handler-written conn works s lines plain =
      rw (parse_stream-written eof lines plain) (handle_all-commands conn works s lines)
