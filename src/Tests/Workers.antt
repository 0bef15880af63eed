-- ===== src/Tests/Workers.antt =====
-- Concrete inputs for clients that work at once.
use go_redis.Base.{◌≡◌, refl, some, List, [], ◌∷◌, Bytes, codes, bytes_eq}
use go_redis.Dict.{Order}
use go_redis.Database.Db.{Entity, Db, make_db, get_entity, put_entity}
use go_redis.Database.Strings.{entity_of}
use go_redis.Database.Behaviour.{set_line, exec-set}
use go_redis.Database.Replay.{run_log}
use go_redis.Database.Workers.{finished, Reach, start, step-ready, step-changed}
use go_redis.Database.Workers.Overlay.{setters}
use go_redis.Database.Workers.Distinct.{distinct_sets-replay}

abbrev in_order : Order Entity
in_order m = m

abbrev a : Bytes
a = codes "a"

abbrev b : Bytes
b = codes "b"

abbrev sets : List (Bytes × Bytes)
sets = (a, codes "1") ∷ (b, codes "2") ∷ []

abbrev db_a : Db
db_a = (put_entity make_db a (entity_of (codes "1"))).0

abbrev db_ab : Db
db_ab = (put_entity db_a b (entity_of (codes "2"))).0

abbrev log_ba : List (List Bytes)
log_ba = set_line b (codes "2") ∷ set_line a (codes "1") ∷ []

-- The one that changes the data last is the first to log.
both_set :
    Reach in_order
      (setters sets)
      (record { db = make_db; log = [] })
      (finished ∷ finished ∷ [])
      (record { db = db_ab; log = log_ba })
both_set =
    step-changed in_order 0 (set_line a (codes "1") ∷ [])
      (step-changed in_order 1 (set_line b (codes "2") ∷ [])
        (step-ready in_order 1 (set_line b (codes "2")) _
          (step-ready in_order 0 (set_line a (codes "1")) _ start refl
            (exec-set in_order make_db a (codes "1")))
          refl (exec-set in_order db_a b (codes "2")))
        refl)
      refl

distinct_sets-replay_example :
    (last : Db) × (run_log in_order make_db log_ba ≡ some last)
    × ((j : Bytes) → get_entity last j ≡ get_entity db_ab j)
unfolding bytes_eq
distinct_sets-replay_example =
    distinct_sets-replay in_order sets make_db ((refl, tt), (tt, tt)) both_set (refl, (refl, tt))
