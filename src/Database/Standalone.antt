-- ===== src/Database/Standalone.antt =====
-- database/standalone_database.go: the numbered databases, SELECT, and the recovery from panics.
use go_redis.Base.{
  ℕ, zero, suc, ◌+◌, Option, none, some, List, [], ◌∷◌, Bytes, codes, bytes_eq, length, get_elem?,
  set, leb, ◌==◌, if◌then◌else◌, ℤ, pos, negsuc,
}
use go_redis.Dict.{Order}
use go_redis.Strconv.{parse_int}
use go_redis.Reply.{Reply, ok, standard_err, arg_num_err}
use go_redis.Utils.{to_lower}
use go_redis.Database.Db.{Entity, Db, Effect, make_db}
use go_redis.Database.Commands.{exec}

-- The databases, and the index that the connection has selected.
pub record Server : Type 0 where
  pub db_set : List Db
  pub selected : ℕ

-- What one call of `Exec` does: a `nil` reply is a panic that was recovered. `logged` is given to
-- `AddAof`, with the index of the database.
pub record Outcome : Type 0 where
  pub server : Server
  pub logged : List (List Bytes)
  pub reply : Option Reply

abbrev pub replies : Server → Reply → Outcome
replies s r = record { server = s; logged = []; reply = some r }

abbrev pub recovered : Server → Outcome
recovered s = record { server = s; logged = []; reply = none }

make_dbs : ℕ → ℕ → List Db
make_dbs zero i = []
make_dbs (suc n) i = record make_db { index = i } ∷ make_dbs n (i + 1)

-- `NewStandaloneDatabase` without the append-only file: 0 stands for the default of 16.
unfoldable pub new_standalone : ℕ → List Db
unfolding make_dbs
new_standalone databases = if databases == 0 then make_dbs 16 0 else make_dbs databases 0

unfoldable pub select_index : Server → Option ℤ → Outcome
select_index s none = replies s (standard_err (codes "ERR invalid DB index"))
select_index s (some (negsuc _)) = replies s (standard_err (codes "ERR DB index out of range"))
select_index s (some (pos i)) =
    if leb (length s.db_set) i
    then replies s (standard_err (codes "ERR DB index out of range"))
    else replies (record s { selected = i }) ok

-- `execSelect`
unfoldable pub exec_select : Server → List Bytes → Outcome
unfolding select_index
exec_select s [] = recovered s
exec_select s (arg ∷ _) = select_index s (parse_int arg)

-- SELECT takes one argument.
unfoldable pub select_command : Server → List Bytes → Outcome
unfolding exec_select
select_command s (arg ∷ []) = exec_select s (arg ∷ [])
select_command s _ = replies s (arg_num_err (codes "select"))

-- The effect of a command on the selected database.
unfoldable pub finish : Server → Option Effect → Outcome
finish s none = recovered s
finish s (some e) = record {
  server = record s { db_set = set s.db_set s.selected e.db };
  logged = e.log;
  reply = some e.reply;
}

unfoldable pub on_selected : Order Entity → Server → List Bytes → Option Db → Outcome
unfolding finish
on_selected order s args none = recovered s
on_selected order s args (some db) = finish s (exec order db args)

-- `StandaloneDatabase.Exec`
unfoldable pub exec_server : Order Entity → Server → List Bytes → Outcome
unfolding select_command on_selected
exec_server order s [] = recovered s
exec_server order s (name ∷ args) =
    if bytes_eq (to_lower name) (codes "select")
    then select_command s args
    else on_selected order s (name ∷ args) (get_elem? s.db_set s.selected)
