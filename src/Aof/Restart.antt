-- ===== src/Aof/Restart.antt =====
-- A restart in front of a command for another database than the file ends with.
use go_redis.Base.{
  ◌≡◌, refl, sym, ap, ◌∙◌, ◌≢◌, some, List, [], ◌∷◌, ◌++◌, append-nil, Bytes, codes, bytes_eq,
  get_elem?, set, length-set, get_elem?-set_ne,
}
use go_redis.Dict.{Order}
use go_redis.Reply.{ok, multi_bulk, to_bytes, multi_bulk_to_bytes}
use go_redis.Utils.{to_lower}
use go_redis.Parser.RoundTrip.{CommandIsPlain}
use go_redis.Database.Db.{Entity, Db, put_entity}
use go_redis.Database.Strings.{entity_of}
use go_redis.Database.Behaviour.{set_line, exec-set}
use go_redis.Database.Served.{is_select, exec_server-named}
use go_redis.Database.Standalone.{Server, Outcome, exec_server, on_selected, finish}
use go_redis.Aof.{Aof, done, load_aof}
use go_redis.Aof.Recovery.{IsLogged, more-IsLogged, line-Replays, add_aof-here, load-IsLogged}
use go_redis.Aof.System.{System, log_lines, serve}

-- `NewAofHandler` on the file that is there: the index starts at 0 again.
abbrev pub restart : Aof → Aof
restart a = record { file = a.file; current_db_index = 0 }

module _ (order : Order Entity) where
  -- SET on a server whose selected database is there.
  exec_server-set :
      (s : Server) (k v : Bytes) (db : Db)
      → get_elem? s.db_set s.selected ≡ some db
      → exec_server order s (set_line k v) ≡ record {
        server = record s { db_set = set s.db_set s.selected (put_entity db k (entity_of v)).0 };
        logged = set_line k v ∷ [];
        reply = some ok;
      }
  exec_server-set s k v db g =
      exec_server-named order s (codes "set") (k ∷ v ∷ [])
        (unfold is_select bytes_eq to_lower in refl)
      ∙ ap (on_selected order s (set_line k v)) g
      ∙ unfold on_selected finish in ap (finish s) (exec-set order db k v)

  -- Take a server whose file restores its databases and ends on a database `j` other than 0, and a SET
  -- of a plain key and value on database 0 behind a restart. The file grows by the bytes of that line
  -- alone, with no SELECT in front. The server sets the key in database 0, and the next load sets it in
  -- database `j` instead. On either side the other of the two databases is unchanged.
  pub restart_misplaces :
      (start : List Db) (sys : System) (db0 dbj : Db) (k v : Bytes)
      → IsLogged order start sys
      → CommandIsPlain (set_line k v)
      → sys.aof.current_db_index ≢ 0
      → get_elem? sys.dbs 0 ≡ some db0
      → get_elem? sys.dbs sys.aof.current_db_index ≡ some dbj
      → let after =
          serve order (record { dbs = sys.dbs; aof = restart sys.aof }) 0 (set_line k v) in
        (after.aof.file ≡ sys.aof.file ++ multi_bulk_to_bytes (set_line k v))
        × (after.dbs ≡ set sys.dbs 0 (put_entity db0 k (entity_of v)).0)
        × (get_elem? after.dbs sys.aof.current_db_index ≡ some dbj)
        × (get_elem? (set sys.dbs sys.aof.current_db_index (put_entity dbj k (entity_of v)).0) 0
            ≡ some db0)
        × (load_aof order (record { db_set = start; selected = 0 }) after.aof.file
            ≡ done (record {
              db_set = set sys.dbs sys.aof.current_db_index (put_entity dbj k (entity_of v)).0;
              selected = sys.aof.current_db_index;
            }))
  unfolding serve log_lines to_bytes
  restart_misplaces start sys db0 dbj k v logged plain moved g0 gj =
      let j = sys.aof.current_db_index in
      let line = set_line k v in
      let first = exec_server-set (record { db_set = sys.dbs; selected = 0 }) k v db0 g0 in
      let here : (serve order (record { dbs = sys.dbs; aof = restart sys.aof }) 0 line).dbs
          ≡ set sys.dbs 0 (put_entity db0 k (entity_of v)).0 =
        ap (λ (o : Outcome). o.server.db_set) first in
      let second = exec_server-set (record { db_set = sys.dbs; selected = j }) k v dbj gj in
      let dbs' = set sys.dbs j (put_entity dbj k (entity_of v)).0 in
      let whole =
        more-IsLogged order start sys.dbs dbs' sys.aof (line ∷ []) j logged (plain, tt)
          (line-Replays order sys.dbs j line _ second (λ p. cc) refl)
          (length-set sys.dbs j (put_entity dbj k (entity_of v)).0) in
      let grown : log_lines (restart sys.aof) 0
            (exec_server order (record { db_set = sys.dbs; selected = 0 }) line).logged
          ≡ record { file = sys.aof.file ++ multi_bulk_to_bytes line; current_db_index = 0 } =
        ap (λ (o : Outcome). log_lines (restart sys.aof) 0 o.logged) first
        ∙ (add_aof-here (restart sys.aof) 0 line refl
            ∙ ap (λ (b : Bytes). record { file = sys.aof.file ++ b; current_db_index = 0 })
                (append-nil (to_bytes (multi_bulk line)))) in
      (
        ap (λ (a : Aof). a.file) grown,
        here,
        ap (λ (l : List Db). get_elem? l j) here
            ∙ get_elem?-set_ne sys.dbs 0 j _ (λ e. moved (sym e))
            ∙ gj,
        get_elem?-set_ne sys.dbs j 0 _ moved ∙ g0,
        ap
              (λ (o : Outcome).
                load_aof order (record { db_set = start; selected = 0 })
                  (log_lines (restart sys.aof) 0 o.logged).file)
              first
            ∙ ap (λ (a : Aof). load_aof order (record { db_set = start; selected = 0 }) a.file)
                (add_aof-here (restart sys.aof) 0 line refl)
            ∙ load-IsLogged order start _ whole,
      )
