-- ===== src/Aof/System.antt =====
-- The server with its append-only file: `NewStandaloneDatabase` gives each database an `addAof`
-- that calls `AddAof` with the index of that database.
use go_redis.Base.{ℕ, true, List, [], ◌∷◌, Bytes}
use go_redis.Dict.{Order}
use go_redis.Database.Db.{Entity, Db}
use go_redis.Database.Standalone.{exec_server}
use go_redis.Aof.{Aof, written, add_aof}

pub record System : Type 0 where
  pub dbs : List Db
  pub aof : Aof

-- `db.addAof` for the lines of one command, with writes that succeed.
unfoldable pub log_lines : Aof → ℕ → List (List Bytes) → Aof
unfolding add_aof
log_lines a db_index [] = a
log_lines a db_index (line ∷ lines) =
    log_lines (add_aof true written written a db_index line) db_index lines

module _ (order : Order Entity) where
  -- One command of a client that has selected database `i`.
  unfoldable pub serve : System → ℕ → List Bytes → System
  unfolding log_lines
  serve sys i line =
      let o = exec_server order (record { db_set = sys.dbs; selected = i }) line in
      record { dbs = o.server.db_set; aof = log_lines sys.aof i o.logged }

  unfoldable pub serve_all : System → List (ℕ × List Bytes) → System
  unfolding serve
  serve_all sys [] = sys
  serve_all sys ((i, line) ∷ requests) = serve_all (serve sys i line) requests
