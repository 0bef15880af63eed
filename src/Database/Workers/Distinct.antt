-- ===== src/Database/Workers/Distinct.antt =====
-- Clients that set different keys: the file gives what the memory has, whatever the order of the steps.
use go_redis.Base.{
  ℕ, ◌≡◌, refl, sym, ap, ◌∙◌, subst, some, List, [], ◌∷◌, Bytes, bytes_eq, get_elem?, set,
  set-get_elem?, All, if◌then◌else◌,
}
use go_redis.Dict.{Order}
use go_redis.Database.Db.{Entity, Db, get_entity, put_entity}
use go_redis.Database.Strings.{entity_of}
use go_redis.Database.Behaviour.{set_line, exec-set, get_entity-put}
use go_redis.Database.Replay.{run_log, run_log-append}
use go_redis.Database.Workers.{Worker, ready, changed, finished, Shared, work, Reach, start, step}
use go_redis.Database.Workers.Overlay.{
  Sets, not_yet, unlogged, done, AllSet, setters, AreDistinct, overlay, set_of, set-AllSet,
  overlay-changed, overlay-finished, setters-AllSet, overlay-setters, overlay-returned,
}

module _ (order : Order Entity) (sets : List (Bytes × Bytes)) (distinct : AreDistinct sets)
    (db : Db) where
  record Inv (ws : List Worker) (t : Shared) : Type 0 where
    set_by : AllSet sets ws
    last : Db
    replays : run_log order db t.log ≡ some last
    agrees : (j : Bytes) → get_entity t.db j ≡ overlay sets ws j (get_entity last j)

  work-Inv :
      (ws : List Worker) (t : Shared) (i : ℕ) (s : Bytes × Bytes) (w : Worker)
      → Inv ws t
      → get_elem? ws i ≡ some w
      → get_elem? sets i ≡ some s
      → Sets s.0 s.1 w
      → Inv (set ws i (work order w t).0) (work order w t).1
  unfolding work
  work-Inv ws t i (k, v) w inv at e not_yet =
      let line = set_line k v in
      let db' = (put_entity t.db k (entity_of v)).0 in
      let now : work order (ready line) t ≡ (changed (line ∷ []), record t { db = db' }) =
        simp (work, exec-set order t.db k v) refl in
      subst (λ (p : Worker × Shared). Inv (set ws i p.0) p.1) (sym now)
        (record {
          set_by = set-AllSet sets ws i (k, v) (changed (line ∷ [])) inv.set_by e unlogged;
          last = inv.last;
          replays = inv.replays;
          agrees = λ j.
              get_entity-put order t.db k j (entity_of v)
              ∙ (ap (λ x. if bytes_eq k j then some (entity_of v) else x) (inv.agrees j)
                  ∙ sym (
                      overlay-changed sets ws i (k, v) (line ∷ []) j (get_entity inv.last j)
                        distinct inv.set_by e at));
        })
  work-Inv ws t i (k, v) w inv at e unlogged =
      let line = set_line k v in
      record {
        set_by = set-AllSet sets ws i (k, v) finished inv.set_by e done;
        last = (put_entity inv.last k (entity_of v)).0;
        replays =
            run_log-append order db t.log (line ∷ [])
            ∙ rw (inv.replays, exec-set order inv.last k v) refl;
        agrees = λ j.
            inv.agrees j
            ∙ (sym (
                  overlay-finished sets ws i (k, v) (line ∷ []) j (get_entity inv.last j) distinct
                    inv.set_by e at)
                ∙ ap (overlay sets (set ws i finished) j)
                    (sym (get_entity-put order inv.last k j (entity_of v))));
      }
  work-Inv ws t i (k, v) w inv at e done =
      subst (λ (us : List Worker). Inv us t) (sym (set-get_elem? ws i finished at)) inv

  Reach-Inv :
      {ws : List Worker} {s : Shared} {us : List Worker} {t : Shared}
      → Inv ws s
      → Reach order ws s us t
      → Inv us t
  Reach-Inv inv start = inv
  Reach-Inv inv (step {us = us} {t = t} i w r at) =
      let now = Reach-Inv inv r in
      let (s, e, a) = set_of sets us i w now.set_by at in work-Inv us t i s w now at e a

-- Any number of clients SET different keys on one database, in any interleaving of their changes and
-- their calls of AddAof. Once all have returned, the lines in the file, run on the database as it was, end
-- with one that has the same value for every key as the memory.
pub distinct_sets-replay :
    (order : Order Entity) (sets : List (Bytes × Bytes)) (db : Db) {us : List Worker} {t : Shared}
    → AreDistinct sets
    → Reach order (setters sets) (record { db = db; log = [] }) us t
    → All (λ w. w ≡ finished) us
    → (last : Db) × (run_log order db t.log ≡ some last)
      × ((j : Bytes) → get_entity last j ≡ get_entity t.db j)
distinct_sets-replay order sets db {us} {t} distinct r returned =
    let first : Inv order sets distinct db (setters sets) (record { db = db; log = [] }) = record {
      set_by = setters-AllSet sets;
      last = db;
      replays = refl;
      agrees = λ j. sym (overlay-setters sets j (get_entity db j));
    } in
    let inv = Reach-Inv order sets distinct db first r in
    (
      inv.last,
      inv.replays,
      λ j. sym (inv.agrees j ∙ overlay-returned sets us j (get_entity inv.last j) returned),
    )
