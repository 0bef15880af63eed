-- ===== src/Database/Keys.antt =====
-- database/keys.go and ping.go: DEL, EXISTS, FLUSHDB, TYPE, RENAME, RENAMENX, KEYS and PING.
use go_redis.Base.{
  ℕ, ◌+◌, Option, none, some, List, [], ◌∷◌, ◌++◌, Bytes, codes, ltb, if◌then◌else◌, pos,
}
use go_redis.Dict
use go_redis.Dict.{Order}
use go_redis.Reply.{Reply, pong, ok, int, status, standard_err, multi_bulk, unknown_err}
use go_redis.Utils.{to_cmd_line3}
use go_redis.Wildcard.{compile_pattern, is_match}
use go_redis.Database.Db.{
  byte_slice, other_kind, Entity, Db, Effect, ExecFunc, answer, logged, get_entity, put_entity,
  remove_entity, removes, flush,
}

unfoldable pub exec_del : ExecFunc
exec_del db args =
    let (db', deleted) = removes db args in
    if ltb 0 deleted
    then logged db' (to_cmd_line3 (codes "del") args) (int (pos deleted))
    else answer db' (int (pos deleted))

-- The loop of EXISTS: a key that is named twice counts twice.
unfoldable pub count_existing : Db → List Bytes → ℕ → ℕ
count_existing db [] result = result
count_existing db (key ∷ keys) result =
    count_existing db keys (if Dict.is_some (get_entity db key) then result + 1 else result)

unfoldable pub exec_exists : ExecFunc
exec_exists db args = answer db (int (pos (count_existing db args 0)))

unfoldable pub exec_flushdb : ExecFunc
exec_flushdb db args = logged (flush db) (to_cmd_line3 (codes "flushdb") args) ok

unfoldable pub type_reply : Option Entity → Reply
type_reply none = status (codes "none")
type_reply (some e) = elim e.value [
  | byte_slice b ↦ status (codes "string")
  | other_kind ↦ unknown_err
]

unfoldable pub exec_type : ExecFunc
unfolding type_reply
exec_type db [] = none
exec_type db (key ∷ _) = answer db (type_reply (get_entity db key))

abbrev pub no_such_key : Reply
no_such_key = standard_err (codes "no such key")

-- `Put` of the new key, then `Remove` of the old.
unfoldable pub move_entity : Db → Bytes → Bytes → Entity → Db
move_entity db old_key new_key e = remove_entity (put_entity db new_key e).0 old_key

rename_found : Db → Bytes → Bytes → List Bytes → Option Entity → Option Effect
rename_found db old_key new_key args none = answer db no_such_key
rename_found db old_key new_key args (some e) =
    logged (move_entity db old_key new_key e) (to_cmd_line3 (codes "rename") args) ok

unfoldable pub exec_rename : ExecFunc
unfolding rename_found
exec_rename db (old_key ∷ new_key ∷ rest) =
    rename_found db old_key new_key (old_key ∷ new_key ∷ rest) (get_entity db old_key)
exec_rename db _ = none

renamenx_found : Db → Bytes → Bytes → List Bytes → Option Entity → Option Entity → Option Effect
renamenx_found db old_key new_key args (some _) _ = answer db (int (pos 0))
renamenx_found db old_key new_key args none none = answer db no_such_key
renamenx_found db old_key new_key args none (some e) =
    logged (move_entity db old_key new_key e) (to_cmd_line3 (codes "renamenx") args) (int (pos 1))

unfoldable pub exec_renamenx : ExecFunc
unfolding renamenx_found
exec_renamenx db (old_key ∷ new_key ∷ rest) =
    renamenx_found db old_key new_key (old_key ∷ new_key ∷ rest) (get_entity db new_key)
      (get_entity db old_key)
exec_renamenx db _ = none

-- KEYS, with the order in which the dictionary is visited.
unfoldable pub exec_keys : Order Entity → ExecFunc
exec_keys order db [] = none
exec_keys order db (src ∷ _) =
    let pattern = compile_pattern src in
    answer db (
      multi_bulk (
        Dict.for_each order db.table
          (λ result key value. if is_match pattern key then result ++ key ∷ [] else result) []))

-- ping.go
unfoldable pub ping : ExecFunc
ping db args = answer db pong
