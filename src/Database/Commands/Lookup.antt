-- ===== src/Database/Commands/Lookup.antt =====
-- To prove a fact of every registered command, and how `DB.Exec` reaches them.
use go_redis.Base.{
  ◌≡◌, refl, ap, ◌∙◌, subst, inl, inr, Bool, true, Option, none, some, List, [], ◌∷◌, ◌++◌, Bytes,
  codes, bytes_eq, bytes_eq→eq, if◌then◌else◌, Bool-cases, ℤ, pos, negsuc,
}
use go_redis.Dict.{Dict, Order, load, store, get}
use go_redis.Reply.{standard_err, arg_num_err}
use go_redis.Utils.{to_lower, to_lower-to_lower}
use go_redis.Database.Db.{Entity, Db, ExecFunc, answer, validate_arity}
use go_redis.Database.Strings.{exec_get, exec_set, exec_setnx, exec_getset, exec_strlen}
use go_redis.Database.Keys.{
  exec_del, exec_exists, exec_flushdb, exec_type, exec_rename, exec_renamenx, exec_keys, ping,
}
use go_redis.Database.Commands.{Command, cmd_table, exec, dispatch}

abbrev pub Entries : (Bytes → Command → Type 0) → Dict Command → Type 0
Entries P [] = Unit
Entries P ((k, c) ∷ table) = P k c × Entries P table

-- To write the proofs for the entries in a row.
infixr 20 ◌&◌
abbrev pub ◌&◌ : {P Q : Type 0} → P → Q → P × Q
p & q = (p, q)

abbrev OptionHolds : (Command → Type 0) → Option Command → Type 0
OptionHolds P none = Unit
OptionHolds P (some c) = P c

pub load-Entries :
    (P : Bytes → Command → Type 0) (k : Bytes) (c : Command) (table : Dict Command)
    → Entries P table
    → load k table ≡ some c
    → P k c
unfolding load
load-Entries P k c [] h e = cc
load-Entries P k c ((j, d) ∷ table) h e = elim (Bool-cases (bytes_eq j k)) [
  | inl same ↦
      let e' : some d ≡ some c = rw same at e in
      subst (λ (i : Bytes). P i c) (bytes_eq→eq j k same)
        (subst (λ (o : Option Command). OptionHolds (P j) o) e' h.0)
  | inr other ↦ load-Entries P k c table h.1 (rw other at e)
]

abbrev entry : ExecFunc → ℤ → Command
entry f n = record { exector = f; arity = n }

-- The whole command table.
pub cmd_table-entries :
    (order : Order Entity)
    → cmd_table order
      ≡ (codes "del", entry exec_del (negsuc 1))
        ∷ (codes "exists", entry exec_exists (negsuc 1))
        ∷ (codes "flushdb", entry exec_flushdb (negsuc 0))
        ∷ (codes "type", entry exec_type (pos 2))
        ∷ (codes "rename", entry exec_rename (pos 3))
        ∷ (codes "renamenx", entry exec_renamenx (pos 3))
        ∷ (codes "keys", entry (exec_keys order) (pos 2))
        ∷ (codes "ping", entry ping (pos 1))
        ∷ (codes "set", entry exec_set (pos 3))
        ∷ (codes "get", entry exec_get (pos 2))
        ∷ (codes "setnx", entry exec_setnx (pos 3))
        ∷ (codes "getset", entry exec_getset (pos 3))
        ∷ (codes "strlen", entry exec_strlen (pos 2))
        ∷ []
unfolding cmd_table store bytes_eq to_lower
cmd_table-entries order = refl

-- The line counts by its length alone.
dispatch-line :
    (order : Order Entity) (db : Db) (k x y : Bytes) (args : List Bytes) (o : Option Command)
    → dispatch order db k (x ∷ args) args o ≡ dispatch order db k (y ∷ args) args o
unfolding dispatch
dispatch-line order db k x y args none = refl
dispatch-line order db k x y args (some c) =
    ap (λ (b : Bool). if b then c.exector db args else answer db (arg_num_err k)) (same c.arity)
  where
    same : (a : ℤ) → validate_arity a (x ∷ args) ≡ validate_arity a (y ∷ args)
    same (pos n) = unfold validate_arity in refl
    same (negsuc n) = unfold validate_arity in refl

-- The name of a command is read without regard to the case of its letters.
pub exec-to_lower :
    (order : Order Entity) (db : Db) (name : Bytes) (args : List Bytes)
    → exec order db (to_lower name ∷ args) ≡ exec order db (name ∷ args)
unfolding exec
exec-to_lower order db name args =
    ap (λ (n : Bytes). dispatch order db n (to_lower name ∷ args) args (get (cmd_table order) n))
      (to_lower-to_lower name)
    ∙ dispatch-line order db (to_lower name) (to_lower name) name args
        (get (cmd_table order) (to_lower name))

-- What `DB.Exec` does with a registered command and without one.
pub data Run (order : Order Entity) (db : Db) (name : Bytes) (args : List Bytes) : Type 0 where
  unknown :
      exec order db (name ∷ args)
        ≡ answer db (standard_err (codes "ERR unknown command '" ++ (to_lower name ++ codes "'")))
      → Run order db name args
  refused :
      exec order db (name ∷ args) ≡ answer db (arg_num_err (to_lower name)) → Run order db name args
  runs :
      (c : Command)
      → load (to_lower name) (cmd_table order) ≡ some c
      → validate_arity c.arity (name ∷ args) ≡ true
      → exec order db (name ∷ args) ≡ c.exector db args
      → Run order db name args

dispatch-Run :
    (order : Order Entity) (db : Db) (name : Bytes) (args : List Bytes) (o : Option Command)
    → get (cmd_table order) (to_lower name) ≡ o
    → Run order db name args
unfolding get
dispatch-Run order db name args none e = unknown (unfold exec dispatch get in rw e)
dispatch-Run order db name args (some c) e =
    elim (Bool-cases (validate_arity c.arity (name ∷ args))) [
      | inl fits ↦ runs c e fits (unfold exec dispatch get in rw (e, dispatch, fits))
      | inr not_fits ↦ refused (unfold exec dispatch get in rw (e, dispatch, not_fits))
    ]

pub exec-Run :
    (order : Order Entity) (db : Db) (name : Bytes) (args : List Bytes) → Run order db name args
exec-Run order db name args = dispatch-Run order db name args _ refl
