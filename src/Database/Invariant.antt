-- ===== src/Database/Invariant.antt =====
-- The commands keep the database well formed, and no reply speaks of another kind of value.
use go_redis.Base.{
  ℕ, ◌≡◌, refl, sym, ap, subst, ◌≢◌, inl, inr, Bool, true, false, Option, none, some, List, [], ◌∷◌,
  ◌++◌, arith, Bytes, codes, ltb, ◌==◌, Bool-cases, Option-cases, pos, negsuc,
}
use go_redis.Dict
use go_redis.Dict.{Dict, Order, load, store, delete}
use go_redis.Dict.Laws.{IsDistinct, store-IsDistinct, delete-IsDistinct}
use go_redis.Reply.{Reply, unknown_err, standard_err}
use go_redis.Utils.{to_lower}
use go_redis.Database.Db.{
  Data, byte_slice, other_kind, Entity, Db, Effect, get_entity, put_entity, put_entity_if_absent,
  remove_entity, removes, flush, remove_loop,
}
use go_redis.Database.Strings.{
  value_reply, length_reply, exec_get, exec_set, exec_setnx, exec_getset, exec_strlen, wrong_type,
  entity_of,
}
use go_redis.Database.Keys.{
  type_reply, exec_del, exec_exists, exec_flushdb, exec_type, exec_rename, exec_renamenx, exec_keys,
  ping, move_entity,
}
use go_redis.Database.Commands.{Command, cmd_table, exec}
use go_redis.Database.Commands.Lookup.{
  Entries, load-Entries, cmd_table-entries, Run, unknown, refused, runs, exec-Run, ◌&◌,
}

abbrev pub IsBytes : Data → Type 0
IsBytes (byte_slice b) = Unit
IsBytes other_kind = ⊥

abbrev pub AllBytes : Dict Entity → Type 0
AllBytes [] = Unit
AllBytes ((k, e) ∷ m) = IsBytes e.value × AllBytes m

store-AllBytes :
    (k : Bytes) (e : Entity) (m : Dict Entity)
    → IsBytes e.value
    → AllBytes m
    → AllBytes (store k e m)
unfolding store
store-AllBytes k e [] b h = (b, tt)
store-AllBytes k e ((j, w) ∷ m) b (f, h) = ground (arith, store-AllBytes k e m b h)

delete-AllBytes : (k : Bytes) (m : Dict Entity) → AllBytes m → AllBytes (delete k m)
unfolding delete
delete-AllBytes k [] h = tt
delete-AllBytes k ((j, w) ∷ m) (f, h) = ground (arith, delete-AllBytes k m h)

load-AllBytes :
    (k : Bytes) (e : Entity) (m : Dict Entity) → AllBytes m → load k m ≡ some e → IsBytes e.value
unfolding load
load-AllBytes k e [] h p = cc
load-AllBytes k e ((j, w) ∷ m) (f, h) p = ground (arith, load-AllBytes k e m h)

-- Keys are distinct and every value is a byte slice.
abbrev pub TableIsValid : Dict Entity → Type 0
TableIsValid m = IsDistinct m × AllBytes m

put-valid :
    (m : Dict Entity) (k : Bytes) (e : Entity)
    → IsBytes e.value
    → TableIsValid m
    → TableIsValid (store k e m)
put-valid m k e b (d, s) = (store-IsDistinct k e m d, store-AllBytes k e m b s)

delete-valid : (m : Dict Entity) (k : Bytes) → TableIsValid m → TableIsValid (delete k m)
delete-valid m k (d, s) = (delete-IsDistinct k m d, delete-AllBytes k m s)

remove-valid : (m : Dict Entity) (k : Bytes) → TableIsValid m → TableIsValid (Dict.remove m k).0
unfolding Dict.remove
remove-valid m k v = elim (Bool-cases (Dict.is_some (load k m))) [
  | inl e ↦ rw e (delete-valid m k v)
  | inr e ↦ rw e v
]

remove_loop-valid :
    (m : Dict Entity) (keys : List Bytes) (n : ℕ)
    → TableIsValid m
    → TableIsValid (remove_loop m keys n).0
unfolding remove_loop
remove_loop-valid m [] n v = v
remove_loop-valid m (k ∷ keys) n v =
    remove_loop-valid (Dict.remove m k).0 keys _ (remove-valid m k v)

put_if_absent-valid :
    (m : Dict Entity) (k : Bytes) (e : Entity)
    → IsBytes e.value
    → TableIsValid m
    → TableIsValid (Dict.put_if_absent m k e).0
unfolding Dict.put_if_absent Dict.load_or_store
put_if_absent-valid m k e b v =
    ground (arith, put-valid m k e b v, put-valid (store k e m) k e b (put-valid m k e b v))

-- What a command leaves: a valid database, and a reply that is no complaint about a value's kind.
abbrev pub EffectIsValid : Option Effect → Type 0
EffectIsValid none = Unit
EffectIsValid (some e) = TableIsValid e.db.table × (e.reply ≢ wrong_type) × (e.reply ≢ unknown_err)

KeepsValid : Bytes → Command → Type 0
KeepsValid k c =
    (db : Db) (args : List Bytes) → TableIsValid db.table → EffectIsValid (c.exector db args)

abbrev Kindly : Reply → Type 0
Kindly r = (r ≢ wrong_type) × (r ≢ unknown_err)

abbrev KindReplies : Option Entity → Type 0
KindReplies o = Kindly (value_reply o) × Kindly (length_reply o) × Kindly (type_reply o)

bytes-Kindly : (d : Data) → IsBytes d → KindReplies (some (record { value = d }))
unfolding value_reply length_reply type_reply
bytes-Kindly (byte_slice b) h = ((λ p. cc, λ p. cc), (λ p. cc, λ p. cc), (λ p. cc, λ p. cc))
bytes-Kindly other_kind h = absurd h

-- The replies about a value, when the value is a byte slice.
value_reply-Kindly :
    (k : Bytes) (m : Dict Entity) → AllBytes m → (o : Option Entity) → load k m ≡ o → KindReplies o
unfolding value_reply length_reply type_reply
value_reply-Kindly k m s none h = ((λ p. cc, λ p. cc), (λ p. cc, λ p. cc), (λ p. cc, λ p. cc))
value_reply-Kindly k m s (some e) h = bytes-Kindly e.value (load-AllBytes k e m s h)

get-Kindly : (db : Db) (k : Bytes) → TableIsValid db.table → KindReplies (get_entity db k)
unfolding get_entity Dict.get
get-Kindly db k (d, s) = value_reply-Kindly k db.table s (load k db.table) refl

get-keeps : KeepsValid (codes "get") (record { exector = exec_get; arity = pos 2 })
unfolding KeepsValid exec_get
get-keeps db [] v = tt
get-keeps db (k ∷ r) v = let (p, q) = (get-Kindly db k v).0 in (v, p, q)

strlen-keeps : KeepsValid (codes "strlen") (record { exector = exec_strlen; arity = pos 2 })
unfolding KeepsValid exec_strlen
strlen-keeps db [] v = tt
strlen-keeps db (k ∷ r) v = let (_, (p, q), _) = get-Kindly db k v in (v, p, q)

type-keeps : KeepsValid (codes "type") (record { exector = exec_type; arity = pos 2 })
unfolding KeepsValid exec_type
type-keeps db [] v = tt
type-keeps db (k ∷ r) v = let (_, _, (p, q)) = get-Kindly db k v in (v, p, q)

set-keeps : KeepsValid (codes "set") (record { exector = exec_set; arity = pos 3 })
unfolding KeepsValid exec_set put_entity Dict.put
set-keeps db [] v = tt
set-keeps db (k ∷ []) v = tt
set-keeps db (k ∷ x ∷ r) v = (put-valid db.table k (entity_of x) tt v, λ p. cc, λ p. cc)

setnx-keeps : KeepsValid (codes "setnx") (record { exector = exec_setnx; arity = pos 3 })
unfolding KeepsValid exec_setnx put_entity_if_absent
setnx-keeps db [] v = tt
setnx-keeps db (k ∷ []) v = tt
setnx-keeps db (k ∷ x ∷ r) v = (put_if_absent-valid db.table k (entity_of x) tt v, λ p. cc, λ p. cc)

getset-keeps : KeepsValid (codes "getset") (record { exector = exec_getset; arity = pos 3 })
unfolding KeepsValid exec_getset put_entity Dict.put
getset-keeps db [] v = tt
getset-keeps db (k ∷ []) v = tt
getset-keeps db (k ∷ x ∷ r) v =
    let (p, q) = (get-Kindly db k v).0 in (put-valid db.table k (entity_of x) tt v, p, q)

del-keeps : KeepsValid (codes "del") (record { exector = exec_del; arity = negsuc 1 })
unfolding KeepsValid exec_del removes
del-keeps db args v = elim (Bool-cases (ltb 0 (remove_loop db.table args 0).1)) [
  | inl e ↦ rw e (remove_loop-valid db.table args 0 v, λ p. cc, λ p. cc)
  | inr e ↦ rw e (remove_loop-valid db.table args 0 v, λ p. cc, λ p. cc)
]

move-valid :
    (db : Db) (old_key new_key : Bytes) (e : Entity)
    → IsBytes e.value
    → TableIsValid db.table
    → TableIsValid (move_entity db old_key new_key e).table
unfolding move_entity put_entity Dict.put remove_entity
move-valid db old_key new_key e b v =
    remove-valid (store new_key e db.table) old_key (put-valid db.table new_key e b v)

entity-IsBytes :
    (db : Db) (k : Bytes) (e : Entity)
    → TableIsValid db.table
    → get_entity db k ≡ some e
    → IsBytes e.value
unfolding get_entity Dict.get
entity-IsBytes db k e (d, s) h = load-AllBytes k e db.table s h

rename-keeps : KeepsValid (codes "rename") (record { exector = exec_rename; arity = pos 3 })
unfolding KeepsValid exec_rename
rename-keeps db [] v = tt
rename-keeps db (a ∷ []) v = tt
rename-keeps db (a ∷ b ∷ r) v = elim (Option-cases (get_entity db a)) [
  | inl h ↦ rw h (v, λ p. cc, λ p. cc)
  | inr (e, h) ↦ rw h (move-valid db a b e (entity-IsBytes db a e v h) v, λ p. cc, λ p. cc)
]

renamenx-keeps : KeepsValid (codes "renamenx") (record { exector = exec_renamenx; arity = pos 3 })
unfolding KeepsValid exec_renamenx
renamenx-keeps db [] v = tt
renamenx-keeps db (a ∷ []) v = tt
renamenx-keeps db (a ∷ b ∷ r) v = elim (Option-cases (get_entity db b)) [
  | inr (e, g) ↦ rw g (v, λ p. cc, λ p. cc)
  | inl g ↦ elim (Option-cases (get_entity db a)) [
    | inl h ↦ rw (g, h) (v, λ p. cc, λ p. cc)
    | inr (e, h) ↦ rw (g, h) (move-valid db a b e (entity-IsBytes db a e v h) v, λ p. cc, λ p. cc)
  ]
]

keys-keeps :
    (order : Order Entity)
    → KeepsValid (codes "keys") (record { exector = exec_keys order; arity = pos 2 })
unfolding KeepsValid exec_keys
keys-keeps order db [] v = tt
keys-keeps order db (k ∷ r) v = (v, λ p. cc, λ p. cc)

table-keeps : (order : Order Entity) → Entries KeepsValid (cmd_table order)
unfolding KeepsValid exec_exists exec_flushdb flush Dict.clear ping
table-keeps order = subst (Entries KeepsValid) (sym (cmd_table-entries order)) (
    del-keeps
    & (λ db args v. (v, λ p. cc, λ p. cc))
    & (λ db args v. ((tt, tt), λ p. cc, λ p. cc))
    & type-keeps
    & rename-keeps
    & renamenx-keeps
    & keys-keeps order
    & (λ db args v. (v, λ p. cc, λ p. cc))
    & set-keeps
    & get-keeps
    & setnx-keeps
    & getset-keeps
    & strlen-keeps
    & tt)

starts_with_e : Reply → Bool
starts_with_e (standard_err (c ∷ _)) = c == 69
starts_with_e _ = false

true_ne_false : true ≢ false
true_ne_false p = cc

unknown-Kindly : (text : Bytes) → Kindly (standard_err (codes "ERR unknown command '" ++ text))
unfolding starts_with_e
unknown-Kindly text =
    (λ p. true_ne_false (ap starts_with_e p), λ p. true_ne_false (ap starts_with_e p))

exec-Run_keeps :
    (order : Order Entity) (db : Db) (name : Bytes) (args : List Bytes)
    → Run order db name args
    → TableIsValid db.table
    → EffectIsValid (exec order db (name ∷ args))
unfolding KeepsValid
exec-Run_keeps order db name args (unknown e) v =
    let (p, q) = unknown-Kindly (to_lower name ++ codes "'") in rw e (v, p, q)
exec-Run_keeps order db name args (refused e) v = rw e (v, λ p. cc, λ p. cc)
exec-Run_keeps order db name args (runs c found fits e) v =
    rw e (load-Entries KeepsValid _ c _ (table-keeps order) found db args v)

-- DB.Exec keeps the database well formed: if its keys are distinct and its values are byte slices,
-- so are they after any command line, and the reply is then neither the WRONGTYPE error nor the
-- unknown error of TYPE.
pub exec-keeps :
    (order : Order Entity) (db : Db) (name : Bytes) (args : List Bytes)
    → TableIsValid db.table
    → EffectIsValid (exec order db (name ∷ args))
exec-keeps order db name args = exec-Run_keeps order db name args (exec-Run order db name args)
