-- ===== src/Database/Commands.antt =====
-- database/commend.go, the `init` functions, and `DB.Exec`.
pub mod Lookup
use go_redis.Base.{
  ℕ, zero, suc, ◌+◌, ◌-◌, ◌*◌, ◌/◌, ◌%◌, ◌^◌, ◌≤◌, ◌<◌, min, max, ◌≡◌, refl, sym, ap, ◌∙◌, subst,
  ◌≡⟨◌⟩◌, ◌∎, ◌≢◌, ◌↔◌, ◌⊎◌, inl, inr, Bool, true, false, not, ◌&&◌, ◌||◌, Option, none, some, List,
  [], ◌∷◌, ◌++◌, map, append_assoc, append-nil, arith, Bytes, codes, bytes_eq, bytes_eq_refl,
  bytes_eq→eq, bytes_eq_iff, bytes_eq_of_ne, length, get_elem?, set, replicate, take, length-append,
  length-set, get_elem?-set_self, get_elem?-set_ne, set-get_elem?, set-set, get_elem?-lt, All,
  All-append, ltb, leb, ◌==◌, if◌then◌else◌, ltb→lt, lt→ltb, leb→le, ==_iff, ==_refl, Bool-cases,
  Option-cases, ◌>>=◌, ℤ, pos, negsuc, IsInt64,
}
use go_redis.Dict
use go_redis.Dict.{Dict, Order}
use go_redis.Reply.{standard_err, arg_num_err}
use go_redis.Utils.{to_lower}
use go_redis.Database.Db.{Entity, Db, Effect, ExecFunc, answer, validate_arity}
use go_redis.Database.Strings.{exec_get, exec_set, exec_setnx, exec_getset, exec_strlen}
use go_redis.Database.Keys.{
  exec_del, exec_exists, exec_flushdb, exec_type, exec_rename, exec_renamenx, exec_keys, ping,
}

pub record Command : Type 0 where
  pub exector : ExecFunc
  pub arity : ℤ

unfoldable pub register_command : Bytes → ExecFunc → ℤ → Dict Command → Dict Command
register_command name exector arity table =
    Dict.store (to_lower name) (record { exector = exector; arity = arity }) table

module _ (order : Order Entity) where
  unfoldable pub register_keys : Dict Command → Dict Command
  unfolding register_command
  register_keys t0 =
      let t1 = register_command (codes "del") exec_del (negsuc 1) t0 in
      let t2 = register_command (codes "exists") exec_exists (negsuc 1) t1 in
      let t3 = register_command (codes "flushdb") exec_flushdb (negsuc 0) t2 in
      let t4 = register_command (codes "type") exec_type (pos 2) t3 in
      let t5 = register_command (codes "rename") exec_rename (pos 3) t4 in
      let t6 = register_command (codes "renamenx") exec_renamenx (pos 3) t5 in
      register_command (codes "keys") (exec_keys order) (pos 2) t6

  unfoldable pub register_ping : Dict Command → Dict Command
  unfolding register_command
  register_ping t = register_command (codes "ping") ping (pos 1) t

  unfoldable pub register_strings : Dict Command → Dict Command
  unfolding register_command
  register_strings t0 =
      let t1 = register_command (codes "SET") exec_set (pos 3) t0 in
      let t2 = register_command (codes "GET") exec_get (pos 2) t1 in
      let t3 = register_command (codes "SETNX") exec_setnx (pos 3) t2 in
      let t4 = register_command (codes "GETSET") exec_getset (pos 3) t3 in
      register_command (codes "STRLEN") exec_strlen (pos 2) t4

  -- `cmdTable` behind the `init` functions, which run in the order of their files.
  unfoldable pub cmd_table : Dict Command
  unfolding register_keys register_ping register_strings
  cmd_table = register_strings (register_ping (register_keys []))

  dispatch : Db → Bytes → List Bytes → List Bytes → Option Command → Option Effect
  dispatch db cmd_name line args none =
      answer db (standard_err (codes "ERR unknown command '" ++ (cmd_name ++ codes "'")))
  dispatch db cmd_name line args (some cmd) =
      if validate_arity cmd.arity line
      then cmd.exector db args
      else answer db (arg_num_err cmd_name)

  -- `DB.Exec`; an empty line is an index panic.
  unfoldable pub exec : Db → List Bytes → Option Effect
  unfolding dispatch
  exec db [] = none
  exec db (name ∷ args) =
      let cmd_name = to_lower name in
      dispatch db cmd_name (name ∷ args) args (Dict.get cmd_table cmd_name)
