-- ===== src/Database/Safety.antt =====
-- No command panics once its arity is checked, and the commands keep the database well formed.
use go_redis.Base.{
  ◌≡◌, refl, sym, subst, ◌≢◌, true, Option, none, some, List, [], ◌∷◌, arith, Bytes, pos,
}
use go_redis.Dict.{Order}
use go_redis.Reply.{no_reply}
use go_redis.Database.Db.{Entity, Db, Effect, ExecFunc, validate_arity}
use go_redis.Database.Strings.{exec_get, exec_set, exec_setnx, exec_getset, exec_strlen}
use go_redis.Database.Keys.{
  exec_del, exec_exists, exec_flushdb, exec_type, exec_rename, exec_renamenx, exec_keys, ping,
}
use go_redis.Database.Commands.{Command, cmd_table, exec}
use go_redis.Database.Commands.Lookup.{
  Entries, load-Entries, cmd_table-entries, Run, unknown, refused, runs, exec-Run, ◌&◌,
}

-- An effect, whose reply has bytes.
abbrev Answers : Option Effect → Type 0
Answers o = (e : Effect) × (o ≡ some e) × (e.reply ≢ no_reply)

abbrev Speaks : Option Effect → Type 0
Speaks none = ⊥
Speaks (some e) = e.reply ≢ no_reply

-- A command whose arity fits returns.
Returns : Bytes → Command → Type 0
Returns k c =
    (db : Db) (name : Bytes) (args : List Bytes)
    → validate_arity c.arity (name ∷ args) ≡ true
    → Answers (c.exector db args)

answers : (o : Option Effect) → Speaks o → Answers o
answers none h = absurd h
answers (some e) h = (e, refl, h)

two_args :
    (f : ExecFunc)
    → ((db : Db) (a b : Bytes) → Speaks (f db (a ∷ b ∷ [])))
    → (db : Db) (name : Bytes) (args : List Bytes) → validate_arity (pos 3) (name ∷ args) ≡ true
    → Answers (f db args)
unfolding validate_arity
two_args f h db name [] v = cc
two_args f h db name (a ∷ []) v = cc
two_args f h db name (a ∷ b ∷ []) v = answers _ (h db a b)
two_args f h db name (a ∷ b ∷ c ∷ r) v = absurd (ground arith)

one_arg :
    (f : ExecFunc)
    → ((db : Db) (a : Bytes) → Speaks (f db (a ∷ [])))
    → (db : Db) (name : Bytes) (args : List Bytes) → validate_arity (pos 2) (name ∷ args) ≡ true
    → Answers (f db args)
unfolding validate_arity
one_arg f h db name [] v = cc
one_arg f h db name (a ∷ []) v = answers _ (h db a)
one_arg f h db name (a ∷ b ∷ r) v = absurd (ground arith)

table-Returns : (order : Order Entity) → Entries Returns (cmd_table order)
unfolding Returns exec_del exec_exists exec_flushdb exec_type exec_rename exec_renamenx exec_keys
    ping exec_set exec_get exec_setnx exec_getset exec_strlen
table-Returns order = subst (Entries Returns) (sym (cmd_table-entries order)) (
    (λ db name args v. answers (exec_del db args) (ground arith))
    & (λ db name args v. answers (exec_exists db args) (ground arith))
    & (λ db name args v. answers (exec_flushdb db args) (ground arith))
    & one_arg exec_type (λ db a. ground arith)
    & two_args exec_rename (λ db a b. ground arith)
    & two_args exec_renamenx (λ db a b. ground arith)
    & one_arg (exec_keys order) (λ db a. ground arith)
    & (λ db name args v. answers (ping db args) (ground arith))
    & two_args exec_set (λ db a b. ground arith)
    & one_arg exec_get (λ db a. ground arith)
    & two_args exec_setnx (λ db a b. ground arith)
    & two_args exec_getset (λ db a b. ground arith)
    & one_arg exec_strlen (λ db a. ground arith)
    & tt)

exec-Run_returns :
    (order : Order Entity) (db : Db) (name : Bytes) (args : List Bytes)
    → Run order db name args
    → Answers (exec order db (name ∷ args))
unfolding Returns
exec-Run_returns order db name args (unknown e) = (_, e, λ p. cc)
exec-Run_returns order db name args (refused e) = (_, e, λ p. cc)
exec-Run_returns order db name args (runs c found fits e) =
    rw e (load-Entries Returns _ c _ (table-Returns order) found db name args fits)

-- DB.Exec panics on no command line that has a name: whatever the name, the arguments and the
-- database, it returns a reply, and the reply has bytes.
pub exec-returns :
    (order : Order Entity) (db : Db) (name : Bytes) (args : List Bytes)
    → (e : Effect) × (exec order db (name ∷ args) ≡ some e) × (e.reply ≢ no_reply)
exec-returns order db name args = exec-Run_returns order db name args (exec-Run order db name args)
