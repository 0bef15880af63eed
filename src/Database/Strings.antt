-- ===== src/Database/Strings.antt =====
-- database/string.go: GET, SET, SETNX, GETSET and STRLEN.
use go_redis.Base.{Option, none, some, [], ◌∷◌, Bytes, codes, length, pos}
use go_redis.Reply.{Reply, ok, null_bulk, bulk, int, standard_err}
use go_redis.Utils.{to_cmd_line3}
use go_redis.Database.Db.{
  byte_slice, other_kind, Entity, ExecFunc, answer, logged, get_entity, put_entity,
  put_entity_if_absent,
}

abbrev pub wrong_type : Reply
wrong_type =
    standard_err (codes "WRONGTYPE Operation against a key holding the wrong kind of value")

abbrev pub entity_of : Bytes → Entity
entity_of value = record { value = byte_slice value }

-- The reply with the value of an entity, or the one for a missing key or another kind.
unfoldable pub value_reply : Option Entity → Reply
value_reply none = null_bulk
value_reply (some e) = elim e.value [ byte_slice b ↦ bulk b | other_kind ↦ wrong_type ]

unfoldable pub exec_get : ExecFunc
unfolding value_reply
exec_get db [] = none
exec_get db (key ∷ _) = answer db (value_reply (get_entity db key))

unfoldable pub exec_set : ExecFunc
exec_set db (key ∷ value ∷ rest) =
    logged (put_entity db key (entity_of value)).0 (to_cmd_line3 (codes "set") (key ∷ value ∷ rest))
      ok
exec_set db _ = none

unfoldable pub exec_setnx : ExecFunc
exec_setnx db (key ∷ value ∷ rest) =
    let (db', result) = put_entity_if_absent db key (entity_of value) in
    logged db' (to_cmd_line3 (codes "setnx") (key ∷ value ∷ rest)) (int (pos result))
exec_setnx db _ = none

unfoldable pub exec_getset : ExecFunc
unfolding value_reply
exec_getset db (key ∷ value ∷ rest) =
    logged (put_entity db key (entity_of value)).0
      (to_cmd_line3 (codes "getset") (key ∷ value ∷ rest)) (value_reply (get_entity db key))
exec_getset db _ = none

-- The reply of STRLEN.
unfoldable pub length_reply : Option Entity → Reply
length_reply none = null_bulk
length_reply (some e) = elim e.value [
  | byte_slice b ↦ int (pos (length b))
  | other_kind ↦ wrong_type
]

unfoldable pub exec_strlen : ExecFunc
unfolding length_reply
exec_strlen db [] = none
exec_strlen db (key ∷ _) = answer db (length_reply (get_entity db key))
