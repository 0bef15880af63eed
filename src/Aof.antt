-- ===== src/Aof.antt =====
-- aof/aof.go: appending commands to the file, and loading it.
pub mod Loading
pub mod System
pub mod Recovery
pub mod Cut
pub mod Crash
pub mod Start
pub mod Restart
use go_redis.Base.{
  ℕ, zero, suc, ◌+◌, ◌-◌, ◌*◌, ◌/◌, ◌%◌, ◌^◌, ◌≤◌, ◌<◌, min, max, ◌≡◌, refl, sym, ap, ◌∙◌, subst,
  ◌≡⟨◌⟩◌, ◌∎, ◌≢◌, ◌↔◌, ◌⊎◌, inl, inr, Bool, true, false, not, ◌&&◌, ◌||◌, Option, none, some, List,
  [], ◌∷◌, ◌++◌, map, append_assoc, append-nil, arith, Bytes, codes, bytes_eq, bytes_eq_refl,
  bytes_eq→eq, bytes_eq_iff, bytes_eq_of_ne, length, get_elem?, set, replicate, take, length-append,
  length-set, get_elem?-set_self, get_elem?-set_ne, set-get_elem?, set-set, get_elem?-lt, All,
  All-append, ltb, leb, ◌==◌, if◌then◌else◌, ltb→lt, lt→ltb, leb→le, ==_iff, ==_refl, Bool-cases,
  Option-cases, ◌>>=◌, ℤ, pos, negsuc, IsInt64,
}
use go_redis.Dict.{Order}
use go_redis.Strconv.{itoa}
use go_redis.Reply.{Reply, multi_bulk, to_bytes, is_err_reply}
use go_redis.Utils.{to_cmd_line}
use go_redis.Parser.{Err, eof, Payload, Stream, End, closed, crashed, parse_stream}
use go_redis.Database.Db.{Entity}
use go_redis.Database.Standalone.{Server, Outcome, exec_server}

-- The handler's file and the index of the database that its last line speaks of.
pub record Aof : Type 0 where
  pub file : Bytes
  pub current_db_index : ℕ

-- `os.File.Write`: a failed write may leave a part of the bytes in the file.
pub data Write : Type 0 where
  written : Write
  failed_after : ℕ → Write

abbrev write : Write → Bytes → Bytes → Bytes
write written file bytes = file ++ bytes
write (failed_after n) file bytes = file ++ take n bytes

abbrev succeeds : Write → Bool
succeeds written = true
succeeds (failed_after _) = false

-- The line itself; a failure of `Write` or of `Sync` is only reported.
write_line : Write → Aof → List Bytes → Aof
write_line w a line = record a { file = write w a.file (to_bytes (multi_bulk line)) }

-- The SELECT line in front of a line for another database.
abbrev pub select_line : ℕ → List Bytes
select_line i = to_cmd_line (codes "select" ∷ itoa i ∷ [])

write_select : Write → Aof → ℕ → Aof
write_select w a i =
    let file' = write w a.file (to_bytes (multi_bulk (select_line i))) in
    if succeeds w
    then record a { file = file'; current_db_index = i }
    else record a { file = file' }

-- `AddAof`, with the results of its first and second write.
unfoldable pub add_aof : Bool → Write → Write → Aof → ℕ → List Bytes → Aof
unfolding write_line write_select to_cmd_line
add_aof append_only w1 w2 a db_index line =
    if not append_only
    then a
    else if db_index == a.current_db_index
    then write_line w2 a line
    else if succeeds w1
    then write_line w2 (write_select w1 a db_index) line
    else write_select w1 a db_index

-- How `LoadAof` ends: at the end of the file, blocked on a channel that is never closed, or by a
-- panic (a `nil` reply has no bytes).
pub data Loaded : Type 0 where
  done blocked : Server → Loaded
  panicked : Loaded

-- The end of the loop when the channel has no more payloads.
after_payloads : Server → End → Loaded
after_payloads s closed = done s
after_payloads s _ = blocked s

reply_is_err : Option Reply → Option Bool
reply_is_err none = none
reply_is_err (some r) = is_err_reply r

-- A command is run with the fake connection; an error reply is only reported.
pub load_command : Outcome → (Server → Loaded) → Loaded
unfolding reply_is_err
load_command o rest = elim (reply_is_err o.reply) [ none ↦ panicked | some _ ↦ rest o.server ]

module _ (order : Order Entity) where
  -- What the loop does with one payload, before `rest`.
  load_reply : Option Reply → Server → (Server → Loaded) → Loaded
  unfolding load_command
  load_reply (some (multi_bulk args)) s rest = load_command (exec_server order s args) rest
  load_reply _ s rest = rest s

  load_payload : Payload → Server → (Server → Loaded) → Loaded
  unfolding load_reply
  load_payload p s rest = elim p.err [
    | none ↦ load_reply p.reply s rest
    | some eof ↦ done s
    | some _ ↦ rest s
  ]

  load_all : List Payload → End → Server → Loaded
  unfolding after_payloads
  load_all [] end s = after_payloads s end
  load_all (p ∷ ps) end s = load_payload p s (load_all ps end)

  -- `LoadAof` of a file that could be opened: the fake connection has selected database 0.
  unfoldable pub load_aof : Server → Bytes → Loaded
  unfolding load_all load_payload
  load_aof s file =
      let r = parse_stream eof file in load_all r.payloads r.end (record s { selected = 0 })
