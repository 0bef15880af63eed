-- ===== src/Tests/Storage.antt =====
-- Concrete inputs for the commands, the server and the append-only file.
use go_redis.Base.{
  ℕ, ◌≡◌, refl, ◌≢◌, none, some, List, [], ◌∷◌, ◌++◌, arith, Bytes, codes, get_elem?, set, take,
  ltb, if◌then◌else◌, pos,
}
use go_redis.Dict
use go_redis.Dict.{Dict, Order}
use go_redis.Reply.{int, multi_bulk_to_bytes, ok, no_reply}
use go_redis.Parser.RoundTrip
use go_redis.Parser.RoundTrip.{CommandIsPlain}
use go_redis.Database.Db.{Entity, Db, Effect, get_entity, put_entity}
use go_redis.Database.Strings.{entity_of}
use go_redis.Database.Keys.{exec_del, no_such_key}
use go_redis.Database.Commands.{exec}
use go_redis.Database.Safety.{exec-returns}
use go_redis.Database.Replay.{run_all, run_log, run_all-replay}
use go_redis.Database.Invariant.{EffectIsValid, exec-keeps}
use go_redis.Database.Behaviour.{
  get_line, set_line, rename_line, moved_entity, exec-set, rename_lem,
}
use go_redis.Database.Behaviour.Removal.{named, has, count_present, del_lem}
use go_redis.Database.Standalone.{Server}
use go_redis.Aof.{done, load_aof, select_line}
use go_redis.Aof.System.{System, serve, serve_all}
use go_redis.Aof.Recovery.{IsLogged, empty_aof, recovery, select_line-plain, select-Replays}
use go_redis.Aof.Crash.{history, crash_restores}
use go_redis.Database.Workers.{ready, finished, Shared, Reach, set_race}
use go_redis.Aof.Restart.{restart, restart_misplaces}

-- `Range` in the order of the entries.
abbrev in_order : Order Entity
in_order m = m

abbrev k : Bytes
k = codes "k"

abbrev j : Bytes
j = codes "j"

abbrev v : Bytes
v = codes "v"

abbrev full_db : Db
full_db = record { index = 0; table = (k, entity_of v) ∷ [] }

abbrev empty_db : Db
empty_db = record { index = 1; table = [] }

abbrev two_dbs : List Db
two_dbs = full_db ∷ empty_db ∷ []

set_line-plain : CommandIsPlain (set_line k v)
set_line-plain = (
  λ e. cc,
  omega arith,
  ((λ e. cc, omega arith), ((λ e. cc, omega arith), ((λ e. cc, omega arith), tt))),
)

get_line-plain : CommandIsPlain (get_line k)
get_line-plain = (λ e. cc, omega arith, ((λ e. cc, omega arith), ((λ e. cc, omega arith), tt)))

abbrev requests : List (ℕ × List Bytes)
requests = (0, set_line k v) ∷ (1, set_line k v) ∷ (0, get_line k) ∷ []

recovery_example :
    let sys = serve_all in_order (record { dbs = two_dbs; aof = empty_aof }) requests in
    load_aof in_order (record { db_set = two_dbs; selected = 0 }) sys.aof.file
    ≡ done (record { db_set = sys.dbs; selected = sys.aof.current_db_index })
recovery_example =
    recovery in_order two_dbs requests (omega arith)
      (set_line-plain, (set_line-plain, (get_line-plain, tt)))

-- A file that ends on database 1.
abbrev moved_system : System
moved_system = record {
  dbs = two_dbs;
  aof = record { file = RoundTrip.written (select_line 1 ∷ []); current_db_index = 1 };
}

moved_system-IsLogged : IsLogged in_order two_dbs moved_system
moved_system-IsLogged = record {
  lines = select_line 1 ∷ [];
  text = refl;
  plain = (select_line-plain 1 (omega arith), tt);
  leads = select-Replays in_order two_dbs 0 1 (omega arith) (omega arith);
  small = omega arith;
}

restart_misplaces_example :
    let after =
      serve in_order (record { dbs = two_dbs; aof = restart moved_system.aof }) 0 (set_line k v) in
    (after.aof.file ≡ moved_system.aof.file ++ multi_bulk_to_bytes (set_line k v))
    × (after.dbs ≡ set two_dbs 0 (put_entity full_db k (entity_of v)).0)
    × (get_elem? after.dbs 1 ≡ some empty_db)
    × (get_elem? (set two_dbs 1 (put_entity empty_db k (entity_of v)).0) 0 ≡ some full_db)
    × (load_aof in_order (record { db_set = two_dbs; selected = 0 }) after.aof.file
        ≡ done (record {
          db_set = set two_dbs 1 (put_entity empty_db k (entity_of v)).0;
          selected = 1;
        }))
restart_misplaces_example =
    restart_misplaces in_order two_dbs moved_system full_db empty_db k v moved_system-IsLogged
      set_line-plain (λ e. cc) refl refl

run_all-replay_example :
    run_log in_order empty_db (set_line k v ∷ []) ≡ some (put_entity empty_db k (entity_of v)).0
run_all-replay_example =
    run_all-replay in_order empty_db (put_entity empty_db k (entity_of v)).0 (set_line k v ∷ [])
      (set_line k v ∷ []) (rw (exec-set in_order empty_db k v) refl)

exec-returns_example :
    (e : Effect) × (exec in_order empty_db (codes "NoSuch" ∷ k ∷ []) ≡ some e)
    × (e.reply ≢ no_reply)
exec-returns_example = exec-returns in_order empty_db (codes "NoSuch") (k ∷ [])

exec-keeps_example : EffectIsValid (exec in_order full_db (set_line j v))
unfolding Dict.load
exec-keeps_example = exec-keeps in_order full_db (codes "set") (j ∷ v ∷ []) ((refl, tt), (tt, tt))

-- A key that is renamed to itself.
rename_lem_example :
    (e : Effect) × (exec in_order full_db (rename_line k k) ≡ some e)
    × (e.reply ≡ (if Dict.is_some (get_entity full_db k) then ok else no_such_key))
    × (e.log ≡ (if Dict.is_some (get_entity full_db k) then rename_line k k ∷ [] else []))
    × (get_entity e.db k ≡ moved_entity full_db k k k (get_entity full_db k))
rename_lem_example = rename_lem in_order full_db k k k

del_lem_example :
    (e : Effect) × (exec_del full_db (k ∷ k ∷ j ∷ []) ≡ some e)
    × (e.reply ≡ int (pos (count_present (has full_db.table) (k ∷ k ∷ j ∷ []))))
    × (e.log ≡ (
        if ltb 0 (count_present (has full_db.table) (k ∷ k ∷ j ∷ []))
        then (codes "del" ∷ k ∷ k ∷ j ∷ []) ∷ []
        else []))
    × (get_entity e.db k ≡ (if named (k ∷ k ∷ j ∷ []) k then none else get_entity full_db k))
del_lem_example = del_lem full_db (k ∷ k ∷ j ∷ []) k

crash_restores_example :
    let first : System = record { dbs = two_dbs; aof = empty_aof } in
    (s : Server) × (n : ℕ) × (load_aof in_order
        (record { db_set = two_dbs; selected = 0 })
        (take 40 (serve_all in_order first requests).aof.file)
      ≡ done s)
    × (get_elem? (history in_order first requests) n ≡ some s.db_set)
crash_restores_example =
    crash_restores in_order two_dbs requests 40 (omega arith)
      (set_line-plain, (set_line-plain, (get_line-plain, tt)))

set_race_example :
    (t : Shared) × (last : Db) × (log : List (List Bytes)) × Reach in_order
      (ready (set_line k v) ∷ ready (set_line k j) ∷ [])
      (record { db = empty_db; log = [] })
      (finished ∷ finished ∷ [])
      t
    × (get_entity t.db k ≡ some (entity_of j))
    × (run_all in_order empty_db t.log ≡ some (last, log))
    × (get_entity last k ≡ some (entity_of v))
set_race_example = set_race in_order empty_db k v j
