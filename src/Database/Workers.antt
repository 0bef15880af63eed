-- ===== src/Database/Workers.antt =====
-- database/: two clients on one database. A command changes the data first and gives its line to
-- AddAof after that, with nothing to keep another client from coming between.
pub mod Overlay
pub mod Distinct
use go_redis.Base.{
  ℕ, ◌≡◌, refl, ◌∙◌, subst, none, some, List, [], ◌∷◌, ◌++◌, Bytes, bytes_eq_refl, get_elem?, set,
}
use go_redis.Dict.{Order}
use go_redis.Database.Db.{Entity, Db, Effect, get_entity, put_entity}
use go_redis.Database.Commands.{exec}
use go_redis.Database.Strings.{entity_of}
use go_redis.Database.Behaviour.{set_line, exec-set, get_entity-put}
use go_redis.Database.Replay.{run_all}

-- A goroutine of the server: with a line to run, behind its change of the data, or behind `AddAof`.
pub data Worker : Type 0 where
  ready : List Bytes → Worker
  changed : List (List Bytes) → Worker
  finished : Worker

-- The database and the lines in the file, which the goroutines share.
pub record Shared : Type 0 where
  pub db : Db
  pub log : List (List Bytes)

module _ (order : Order Entity) where
  -- The change of the data, or the lock, write and sync of `AddAof`. A panic ends the goroutine.
  unfoldable pub work : Worker → Shared → Worker × Shared
  work (ready line) s = elim (exec order s.db line) [
    | none ↦ (finished, s)
    | some e ↦ (changed e.log, record s { db = e.db })
  ]
  work (changed lines) s = (finished, record s { log = s.log ++ lines })
  work finished s = (finished, s)

  -- What any interleaving of the goroutines reaches.
  pub data Reach (ws : List Worker) (s : Shared) : List Worker → Shared → Type 0 where
    start : Reach ws s ws s
    step :
        {us : List Worker} {t : Shared} (i : ℕ) (w : Worker)
        → Reach ws s us t
        → get_elem? us i ≡ some w
        → Reach ws s (set us i (work w t).0) (work w t).1

  -- A command that does not panic, as a step.
  pub step-ready :
      {ws us : List Worker} {s t : Shared} (i : ℕ) (line : List Bytes) (e : Effect)
      → Reach ws s us t
      → get_elem? us i ≡ some (ready line)
      → exec order t.db line ≡ some e
      → Reach ws s (set us i (changed e.log)) (record t { db = e.db })
  unfolding work
  step-ready {ws} {us} {s} {t} i line e r at is =
      let now : work (ready line) t ≡ (changed e.log, record t { db = e.db }) =
        simp (work, is) refl in
      subst (λ (p : Worker × Shared). Reach ws s (set us i p.0) p.1) now (step i (ready line) r at)

  -- `AddAof`, as a step.
  pub step-changed :
      {ws us : List Worker} {s t : Shared} (i : ℕ) (lines : List (List Bytes))
      → Reach ws s us t
      → get_elem? us i ≡ some (changed lines)
      → Reach ws s (set us i finished) (record t { log = t.log ++ lines })
  unfolding work
  step-changed i lines r at = step i (changed lines) r at

  two-sets :
      (db : Db) (k v w : Bytes)
      → let db1 = (put_entity db k (entity_of w)).0 in
        run_all order db (set_line k w ∷ set_line k v ∷ [])
        ≡ some ((put_entity db1 k (entity_of v)).0, set_line k w ∷ set_line k v ∷ [])
  two-sets db k v w =
      let db1 = (put_entity db k (entity_of w)).0 in
      rw (exec-set order db k w, exec-set order db1 k v) refl

  put-value :
      (db : Db) (k v : Bytes) → get_entity (put_entity db k (entity_of v)).0 k ≡ some (entity_of v)
  put-value db k v = get_entity-put order db k k (entity_of v) ∙ rw (bytes_eq_refl k) refl

  -- Two clients that SET one key can leave it with one value in memory and, once the file is
  -- loaded, with the other: a run of their steps ends with w in the database, and the lines in the
  -- file give v.
  pub set_race :
      (db : Db) (k v w : Bytes)
      → (t : Shared) × (last : Db) × (log : List (List Bytes)) × Reach
          (ready (set_line k v) ∷ ready (set_line k w) ∷ [])
          (record { db = db; log = [] })
          (finished ∷ finished ∷ [])
          t
        × (get_entity t.db k ≡ some (entity_of w))
        × (run_all order db t.log ≡ some (last, log))
        × (get_entity last k ≡ some (entity_of v))
  set_race db k v w =
      let s : Shared = record { db = db; log = [] } in
      let db1 = (put_entity db k (entity_of v)).0 in
      (
        _,
        _,
        _,
        step-changed 0 (set_line k v ∷ [])
            (step-changed 1 (set_line k w ∷ [])
              (step-ready 1 (set_line k w) _
                (step-ready 0 (set_line k v) _ start refl (exec-set order db k v)) refl
                (exec-set order db1 k w))
              refl)
            refl,
        put-value db1 k w,
        two-sets db k v w,
        put-value (put_entity db k (entity_of w)).0 k v,
      )
