-- ===== src/Database/Db.antt =====
-- database/db.go: one database and its access to the dictionary.
use go_redis.Base.{
  ℕ, ◌+◌, Bool, Option, some, List, [], ◌∷◌, Bytes, length, ltb, leb, ◌==◌, if◌then◌else◌, ℤ, pos,
  negsuc,
}
use go_redis.Dict
use go_redis.Dict.{Dict}
use go_redis.Reply.{Reply}

-- The dynamic types of `DataEntity.Data` that the commands tell apart.
pub data Data : Type 0 where
  byte_slice : Bytes → Data
  other_kind : Data

-- `interface/database.DataEntity`
pub record Entity : Type 0 where
  pub value : Data

pub record Db : Type 0 where
  pub index : ℕ
  pub table : Dict Entity

-- `makeDB`: `addAof` does nothing until the append-only file is set up.
abbrev pub make_db : Db
make_db = record { index = 0; table = [] }

-- What one command does: the database behind it, the lines given to `addAof`, and the reply.
pub record Effect : Type 0 where
  pub db : Db
  pub log : List (List Bytes)
  pub reply : Reply

-- `none` is a panic.
abbrev pub ExecFunc : Type 0
ExecFunc = Db → List Bytes → Option Effect

abbrev pub answer : Db → Reply → Option Effect
answer db r = some (record { db = db; log = []; reply = r })

abbrev pub logged : Db → List Bytes → Reply → Option Effect
logged db line r = some (record { db = db; log = line ∷ []; reply = r })

unfoldable pub get_entity : Db → Bytes → Option Entity
get_entity db key = Dict.get db.table key

unfoldable pub put_entity : Db → Bytes → Entity → Db × ℕ
put_entity db key e = let (m, n) = Dict.put db.table key e in (record db { table = m }, n)

unfoldable pub put_entity_if_exists : Db → Bytes → Entity → Db × ℕ
put_entity_if_exists db key e =
    let (m, n) = Dict.put_if_exists db.table key e in (record db { table = m }, n)

unfoldable pub put_entity_if_absent : Db → Bytes → Entity → Db × ℕ
put_entity_if_absent db key e =
    let (m, n) = Dict.put_if_absent db.table key e in (record db { table = m }, n)

unfoldable pub remove_entity : Db → Bytes → Db
remove_entity db key = record db { table = (Dict.remove db.table key).0 }

-- The loop of `Removes`, with its count.
unfoldable pub remove_loop : Dict Entity → List Bytes → ℕ → Dict Entity × ℕ
remove_loop m [] deleted = (m, deleted)
remove_loop m (key ∷ keys) deleted =
    let (m', n) = Dict.remove m key in
    remove_loop m' keys (if ltb 0 n then deleted + 1 else deleted)

unfoldable pub removes : Db → List Bytes → Db × ℕ
unfolding remove_loop
removes db keys = let (m, n) = remove_loop db.table keys 0 in (record db { table = m }, n)

unfoldable pub flush : Db → Db
flush db = record db { table = Dict.clear db.table }

-- `validateArity`: a count, or from a negative number the least count.
unfoldable pub validate_arity : ℤ → List Bytes → Bool
validate_arity (pos n) args = n == length args
validate_arity (negsuc n) args = leb (n + 1) (length args)
