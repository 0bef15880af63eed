-- ===== src/Aof/Start.antt =====
-- NewStandaloneDatabase of database/standalone_database.go, with NewAofHandler of aof/aof.go.
use go_redis.Base.{Bool, Option, none, some, List, [], Bytes, if◌then◌else◌, ℤ, pos, negsuc}
use go_redis.Dict.{Order}
use go_redis.Database.Db.{Entity, Db}
use go_redis.Database.Standalone.{Server, new_standalone}
use go_redis.Aof.{Aof, Loaded, done, blocked, panicked, load_aof}

-- What the start of the database comes to: a database, with the handler of its file if it has one; the
-- `nil` of an error; a load that never ends; or a panic.
pub data Started : Type 0 where
  running : List Db → Option Aof → Started
  absent stuck crashed : Started

-- `LoadAof` of the file, if there is one.
unfoldable pub load_file : Order Entity → Server → Option Bytes → Loaded
load_file order s file = elim file [ none ↦ done s | some bytes ↦ load_aof order s bytes ]

-- `NewAofHandler` behind its load: whether the file can be opened to write; a new file is empty.
unfoldable pub open_file : Bool → Option Bytes → Loaded → Started
open_file opens file (blocked s) = stuck
open_file opens file panicked = crashed
open_file opens file (done s) =
    let bytes : Bytes = elim file [ none ↦ [] | some b ↦ b ] in
    if opens
    then running s.db_set (some (record { file = bytes; current_db_index = 0 }))
    else absent

-- A negative number of databases is a panic of `make`.
unfoldable pub start_standalone : Order Entity → ℤ → Bool → Bool → Option Bytes → Started
unfolding load_file open_file
start_standalone order (negsuc n) append_only opens file = crashed
start_standalone order (pos n) append_only opens file =
    let fresh : Server = record { db_set = new_standalone n; selected = 0 } in
    if append_only
    then open_file opens file (load_file order fresh file)
    else running fresh.db_set none

-- `Close`: a failed Sync is only reported; the result is the error of closing the file.
unfoldable pub close : Bool → Option Bytes → Option Bytes
close syncs result = result
