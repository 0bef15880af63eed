-- ===== src/Database/Replay.antt =====
-- What a command logs, run again on the database that it started from, leads to the same database.
use go_redis.Base.{
  ℕ, ◌+◌, ◌≤◌, ◌≡◌, refl, sym, ap, ◌∙◌, subst, ◌⊎◌, inl, inr, false, Option, none, some, List, [],
  ◌∷◌, ◌++◌, arith, Bytes, codes, ltb, if◌then◌else◌, Bool-cases, Option-cases, ◌>>=◌,
}
use go_redis.Dict
use go_redis.Dict.{Dict, Order}
use go_redis.Utils.{to_lower}
use go_redis.Database.Db.{Entity, Db, Effect, ExecFunc, removes, remove_loop}
use go_redis.Database.Strings.{exec_get, exec_set, exec_setnx, exec_getset, exec_strlen}
use go_redis.Database.Keys.{
  exec_del, exec_exists, exec_flushdb, exec_type, exec_rename, exec_renamenx, exec_keys, ping,
}
use go_redis.Database.Commands.{Command, cmd_table, exec}
use go_redis.Database.Commands.Lookup.{
  Entries, load-Entries, cmd_table-entries, Run, unknown, refused, runs, exec-Run, exec-to_lower,
  ◌&◌,
}

-- A command logs nothing and changes nothing, or logs itself under its own name.
abbrev pub LogsItself : Bytes → List Bytes → Db → Option Effect → Type 0
LogsItself k args db none = Unit
LogsItself k args db (some e) = ((e.log ≡ []) × (e.db ≡ db)) ⊎ (e.log ≡ (k ∷ args) ∷ [])

Logs : Bytes → Command → Type 0
Logs k c = (db : Db) (args : List Bytes) → LogsItself k args db (c.exector db args)

-- The count of `Removes` never falls, and removing nothing leaves the table as it is.
remove_loop-le : (m : Dict Entity) (keys : List Bytes) (n : ℕ) → n ≤ (remove_loop m keys n).1
unfolding remove_loop
remove_loop-le m [] n = omega arith
remove_loop-le m (k ∷ keys) n = ground (
  arith,
  remove_loop-le (Dict.remove m k).0 keys (if ltb 0 (Dict.remove m k).1 then n + 1 else n),
)

remove-none :
    (m : Dict Entity) (k : Bytes) → ltb 0 (Dict.remove m k).1 ≡ false → (Dict.remove m k).0 ≡ m
unfolding Dict.remove
remove-none m k h = ground arith

remove_loop-none :
    (m : Dict Entity) (keys : List Bytes) (n : ℕ)
    → (remove_loop m keys n).1 ≡ n
    → (remove_loop m keys n).0 ≡ m
unfolding remove_loop
remove_loop-none m [] n h = refl
remove_loop-none m (k ∷ keys) n h = elim (Bool-cases (ltb 0 (Dict.remove m k).1)) [
  | inl e ↦ absurd (
      ground (
        arith,
        e,
        remove_loop-le (Dict.remove m k).0 keys (if ltb 0 (Dict.remove m k).1 then n + 1 else n),
      ))
  | inr e ↦ ground (
    arith,
    e,
    remove_loop-none (Dict.remove m k).0 keys (if ltb 0 (Dict.remove m k).1 then n + 1 else n),
    remove-none m k e,
  )
]

removes-none : (db : Db) (keys : List Bytes) → (removes db keys).1 ≡ 0 → (removes db keys).0 ≡ db
unfolding removes
removes-none db keys h =
    ap (λ (m : Dict Entity). record db { table = m }) (remove_loop-none db.table keys 0 h)

del-Logs : (db : Db) (args : List Bytes) → LogsItself (codes "del") args db (exec_del db args)
unfolding exec_del
del-Logs db args = ground (arith, removes-none db args)

set-Logs : (db : Db) (args : List Bytes) → LogsItself (codes "set") args db (exec_set db args)
unfolding exec_set
set-Logs db [] = tt
set-Logs db (_ ∷ []) = tt
set-Logs db (k ∷ v ∷ rest) = inr refl

setnx-Logs : (db : Db) (args : List Bytes) → LogsItself (codes "setnx") args db (exec_setnx db args)
unfolding exec_setnx
setnx-Logs db [] = tt
setnx-Logs db (_ ∷ []) = tt
setnx-Logs db (k ∷ v ∷ rest) = inr refl

getset-Logs :
    (db : Db) (args : List Bytes) → LogsItself (codes "getset") args db (exec_getset db args)
unfolding exec_getset
getset-Logs db [] = tt
getset-Logs db (_ ∷ []) = tt
getset-Logs db (k ∷ v ∷ rest) = inr refl

rename-Logs :
    (db : Db) (args : List Bytes) → LogsItself (codes "rename") args db (exec_rename db args)
unfolding exec_rename
rename-Logs db [] = tt
rename-Logs db (_ ∷ []) = tt
rename-Logs db (k ∷ v ∷ rest) = ground arith

renamenx-Logs :
    (db : Db) (args : List Bytes) → LogsItself (codes "renamenx") args db (exec_renamenx db args)
unfolding exec_renamenx
renamenx-Logs db [] = tt
renamenx-Logs db (_ ∷ []) = tt
renamenx-Logs db (k ∷ v ∷ rest) = ground arith

-- A command that only reads, for each length of its arguments.
reads-Logs :
    (k : Bytes) (f : ExecFunc)
    → ((db : Db) → LogsItself k [] db (f db []))
    → ((db : Db) (a : Bytes) (args : List Bytes) → LogsItself k (a ∷ args) db (f db (a ∷ args)))
    → (db : Db) (args : List Bytes) → LogsItself k args db (f db args)
reads-Logs k f h0 h db [] = h0 db
reads-Logs k f h0 h db (a ∷ args) = h db a args

table-Logs : (order : Order Entity) → Entries Logs (cmd_table order)
unfolding Logs exec_exists exec_flushdb exec_type exec_keys ping exec_get exec_strlen
table-Logs order = subst (Entries Logs) (sym (cmd_table-entries order)) (
    del-Logs
    & (λ db args. inl (refl, refl))
    & (λ db args. inr refl)
    & reads-Logs (codes "type") exec_type (λ db. tt) (λ db a args. inl (refl, refl))
    & rename-Logs
    & renamenx-Logs
    & reads-Logs (codes "keys") (exec_keys order) (λ db. tt) (λ db a args. inl (refl, refl))
    & (λ db args. inl (refl, refl))
    & set-Logs
    & reads-Logs (codes "get") exec_get (λ db. tt) (λ db a args. inl (refl, refl))
    & setnx-Logs
    & getset-Logs
    & reads-Logs (codes "strlen") exec_strlen (λ db. tt) (λ db a args. inl (refl, refl))
    & tt)

-- The lines of a log, run one after another; `none` if one panics.
abbrev pub run_log : Order Entity → Db → List (List Bytes) → Option Db
run_log order db [] = some db
run_log order db (line ∷ log) = exec order db line >>= λ e. run_log order e.db log

-- Any sequence of command lines: the last database, and all that was logged on the way.
abbrev pub run_all : Order Entity → Db → List (List Bytes) → Option (Db × List (List Bytes))
run_all order db [] = some (db, [])
run_all order db (line ∷ lines) =
    exec order db line >>= λ e. run_all order e.db lines >>= λ r. some (r.0, e.log ++ r.1)

pub run_log-append :
    (order : Order Entity) (db : Db) (xs ys : List (List Bytes))
    → run_log order db (xs ++ ys) ≡ (run_log order db xs >>= λ d. run_log order d ys)
run_log-append order db [] ys = refl
run_log-append order db (line ∷ xs) ys = elim (Option-cases (exec order db line)) [
  | inl e ↦ rw e
  | inr (r, e) ↦ rw e (run_log-append order r.db xs ys)
]

-- From what a command did, the same command again.
again :
    (order : Order Entity) (db : Db) (name : Bytes) (args : List Bytes) (e : Effect)
    → exec order db (name ∷ args) ≡ some e
    → LogsItself (to_lower name) args db (some e)
    → run_log order db e.log ≡ some e.db
again order db name args e h (inl (no_log, same)) = rw no_log (ap some (sym same))
again order db name args e h (inr line) = rw (line, exec-to_lower order db name args, h) refl

exec-Run_logged :
    (order : Order Entity) (db : Db) (name : Bytes) (args : List Bytes) (e : Effect)
    → Run order db name args
    → exec order db (name ∷ args) ≡ some e
    → LogsItself (to_lower name) args db (some e)
unfolding Logs
exec-Run_logged order db name args e (unknown u) h = inl (ground (arith, u))
exec-Run_logged order db name args e (refused u) h = inl (ground (arith, u))
exec-Run_logged order db name args e (runs c found fits u) h =
    subst (LogsItself (to_lower name) args db) (sym u ∙ h)
      (load-Entries Logs (to_lower name) c _ (table-Logs order) found db args)

pub exec-LogsItself :
    (order : Order Entity) (db : Db) (name : Bytes) (args : List Bytes) (e : Effect)
    → exec order db (name ∷ args) ≡ some e
    → LogsItself (to_lower name) args db (some e)
exec-LogsItself order db name args e =
    exec-Run_logged order db name args e (exec-Run order db name args)

-- What one command logs, run on the database before it, gives the database behind it.
pub exec-replay :
    (order : Order Entity) (db : Db) (name : Bytes) (args : List Bytes) (e : Effect)
    → exec order db (name ∷ args) ≡ some e
    → run_log order db e.log ≡ some e.db
exec-replay order db name args e h =
    again order db name args e h (exec-LogsItself order db name args e h)

abbrev Restores : Order Entity → Db → Option (Db × List (List Bytes)) → Type 0
Restores order db none = Unit
Restores order db (some (last, log)) = run_log order db log ≡ some last

-- Whatever sequence of commands has run without a panic, running what it logged on the first
-- database gives the last, without a panic.
pub run_all-replay :
    (order : Order Entity) (db last : Db) (lines log : List (List Bytes))
    → run_all order db lines ≡ some (last, log)
    → run_log order db log ≡ some last
run_all-replay order db last [] log h = ground (arith, h)
run_all-replay order db last ([] ∷ lines) log h = unfold exec in cc
run_all-replay order db last ((name ∷ args) ∷ lines) log h =
    elim (Option-cases (exec order db (name ∷ args))) [
      | inl e ↦ ground (arith, rw e at h)
      | inr (r, e) ↦ elim (Option-cases (run_all order r.db lines)) [
        | inl f ↦ ground (arith, rw (e, f) at h)
        | inr ((d, l), f) ↦ subst (Restores order db) (rw (e, f) at h) (
            run_log-append order db r.log l
            ∙ ap (λ (o : Option Db). o >>= λ b. run_log order b l)
                (exec-replay order db name args r e)
            ∙ run_all-replay order r.db d lines l f)
      ]
    ]
