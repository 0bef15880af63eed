-- ===== src/Aof/Loading.antt =====
-- How LoadAof runs a file of plain commands.
use go_redis.Base.{◌≡◌, ap, ◌∙◌, Bool, Option, none, some, List, [], ◌∷◌, ◌++◌, Bytes, All}
use go_redis.Dict.{Order}
use go_redis.Reply.{Reply}
use go_redis.Reply.Framing.{is_err_reply-error_text}
use go_redis.Parser.{eof, failed, closed}
use go_redis.Parser.RoundTrip.{IsPlain, CommandIsPlain, commands_of, parse_stream-written}
use go_redis.Parser.RoundTrip
use go_redis.Database.Db.{Entity}
use go_redis.Database.Served.{Answered}
use go_redis.Database.Standalone.{Server, Outcome, exec_server}
use go_redis.Aof.{
  Loaded, done, load_aof, load_all, load_payload, load_reply, load_command, reply_is_err,
}

module _ (order : Order Entity) where
  -- Run from the server `s`, the lines are all answered and lead to `t`.
  abbrev pub Replays : Server → List (List Bytes) → Server → Type 0
  Replays s [] t = s ≡ t
  Replays s (line ∷ lines) t =
      Answered (exec_server order s line).reply × Replays (exec_server order s line).server lines t

  pub Replays-append :
      (s t u : Server) (xs ys : List (List Bytes))
      → Replays s xs t
      → Replays t ys u
      → Replays s (xs ++ ys) u
  Replays-append s t u [] ys h k = rw h k
  Replays-append s t u (line ∷ xs) ys h k =
      (h.0, Replays-append (exec_server order s line).server t u xs ys h.1 k)

  reply_is_err-Answered : (o : Option Reply) → Answered o → (b : Bool) × (reply_is_err o ≡ some b)
  unfolding reply_is_err
  reply_is_err-Answered none h = absurd h
  reply_is_err-Answered (some r) h = (_, is_err_reply-error_text r h)

  pub load_command-Answered :
      (o : Outcome) (rest : Server → Loaded)
      → Answered o.reply
      → load_command o rest ≡ rest o.server
  load_command-Answered o rest h =
      let (b, e) = reply_is_err-Answered o.reply h in unfold load_command in rw (e, load_command)

  -- LoadAof runs the commands of the file in turn, to its end.
  load_all-Replays :
      (s t : Server) (lines : List (List Bytes))
      → Replays s lines t
      → load_all order (commands_of lines ++ failed eof ∷ []) closed s ≡ done t
  unfolding load_all load_payload load_reply
  load_all-Replays s t [] h = ap done h
  load_all-Replays s t (line ∷ lines) h =
      load_command-Answered (exec_server order s line)
        (load_all order (commands_of lines ++ failed eof ∷ []) closed) h.0
      ∙ load_all-Replays (exec_server order s line).server t lines h.1

  -- A file of plain commands is loaded by running them from database 0.
  pub load_aof-written :
      (s t : Server) (lines : List (List Bytes))
      → All CommandIsPlain lines
      → Replays (record s { selected = 0 }) lines t
      → load_aof order s (RoundTrip.written lines) ≡ done t
  unfolding load_aof
  load_aof-written s t lines plain h =
      rw (parse_stream-written eof lines plain)
        (load_all-Replays (record s { selected = 0 }) t lines h)
