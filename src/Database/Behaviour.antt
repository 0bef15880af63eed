-- ===== src/Database/Behaviour.antt =====
-- What the commands do, through `DB.Exec`, as later reads see it.
pub mod Removal
use go_redis.Base.{
  ℕ, zero, suc, ◌+◌, ◌-◌, ◌*◌, ◌/◌, ◌%◌, ◌^◌, ◌≤◌, ◌<◌, min, max, ◌≡◌, refl, sym, ap, ◌∙◌, subst,
  ◌≡⟨◌⟩◌, ◌∎, ◌≢◌, ◌↔◌, ◌⊎◌, inl, inr, Bool, true, false, not, ◌&&◌, ◌||◌, Option, none, some, List,
  [], ◌∷◌, ◌++◌, map, append_assoc, append-nil, arith, Bytes, codes, bytes_eq, bytes_eq_refl,
  bytes_eq→eq, bytes_eq_iff, bytes_eq_of_ne, length, get_elem?, set, replicate, take, length-append,
  length-set, get_elem?-set_self, get_elem?-set_ne, set-get_elem?, set-set, get_elem?-lt, All,
  All-append, ltb, leb, ◌==◌, if◌then◌else◌, ltb→lt, lt→ltb, leb→le, ==_iff, ==_refl, Bool-cases,
  Option-cases, ◌>>=◌, ℤ, pos, negsuc, IsInt64,
}
use go_redis.Dict
use go_redis.Dict.{Dict, Order, load, store}
use go_redis.Dict.Laws.{load-store, load-delete, put_lem, remove_lem, put_if_absent_lem}
use go_redis.Reply.{Reply, ok, int, bulk, null_bulk, multi_bulk}
use go_redis.Utils.{to_lower}
use go_redis.Database.Db.{
  Data, byte_slice, other_kind, Entity, Db, Effect, answer, logged, validate_arity, get_entity,
  put_entity, put_entity_if_absent, remove_entity,
}
use go_redis.Database.Strings.{
  exec_get, exec_set, exec_setnx, exec_getset, exec_strlen, value_reply, entity_of,
}
use go_redis.Database.Keys.{exec_rename, exec_renamenx, move_entity, no_such_key, exec_keys}
use go_redis.Database.Commands.{exec, cmd_table}
use go_redis.Wildcard.{compile_pattern, is_match}

abbrev pub get_line : Bytes → List Bytes
get_line k = codes "get" ∷ k ∷ []

abbrev pub set_line : Bytes → Bytes → List Bytes
set_line k v = codes "set" ∷ k ∷ v ∷ []

abbrev pub setnx_line : Bytes → Bytes → List Bytes
setnx_line k v = codes "setnx" ∷ k ∷ v ∷ []

abbrev pub rename_line : Bytes → Bytes → List Bytes
rename_line old_key new_key = codes "rename" ∷ old_key ∷ new_key ∷ []

abbrev pub renamenx_line : Bytes → Bytes → List Bytes
renamenx_line old_key new_key = codes "renamenx" ∷ old_key ∷ new_key ∷ []

module _ (order : Order Entity) (db : Db) where
  pub exec-get :
      (k : Bytes) → exec order db (get_line k) ≡ answer db (value_reply (get_entity db k))
  unfolding exec cmd_table load store bytes_eq to_lower validate_arity exec_get Dict.get
  exec-get k = refl

  pub exec-set :
      (k v : Bytes)
      → exec order db (set_line k v) ≡ logged (put_entity db k (entity_of v)).0 (set_line k v) ok
  unfolding exec cmd_table load store bytes_eq to_lower validate_arity exec_set Dict.get
  exec-set k v = refl

  exec-setnx :
      (k v : Bytes)
      → exec order db (setnx_line k v)
        ≡ logged
            (put_entity_if_absent db k (entity_of v)).0
            (setnx_line k v)
            (int (pos (put_entity_if_absent db k (entity_of v)).1))
  unfolding exec cmd_table load store bytes_eq to_lower validate_arity exec_setnx Dict.get
  exec-setnx k v = refl

  exec-rename :
      (old_key new_key : Bytes)
      → exec order db (rename_line old_key new_key) ≡ exec_rename db (old_key ∷ new_key ∷ [])
  unfolding exec cmd_table load store bytes_eq to_lower validate_arity Dict.get
  exec-rename old_key new_key = refl

  exec-renamenx :
      (old_key new_key : Bytes)
      → exec order db (renamenx_line old_key new_key) ≡ exec_renamenx db (old_key ∷ new_key ∷ [])
  unfolding exec cmd_table load store bytes_eq to_lower validate_arity Dict.get
  exec-renamenx old_key new_key = refl

  pub get_entity-put :
      (k j : Bytes) (e : Entity)
      → get_entity (put_entity db k e).0 j ≡ (if bytes_eq k j then some e else get_entity db j)
  unfolding get_entity put_entity
  get_entity-put k j e = (put_lem db.table k j e).0

  get_entity-put_if_absent :
      (k j : Bytes) (e : Entity)
      → get_entity (put_entity_if_absent db k e).0 j ≡ (
          if Dict.is_some (get_entity db k)
          then get_entity db j
          else if bytes_eq k j
          then some e
          else get_entity db j)
  unfolding get_entity put_entity_if_absent
  get_entity-put_if_absent k j e = (put_if_absent_lem db.table k j e).0

  get_entity-move :
      (old_key new_key j : Bytes) (e : Entity)
      → get_entity (move_entity db old_key new_key e) j ≡ (
          if bytes_eq old_key j
          then none
          else if bytes_eq new_key j
          then some e
          else get_entity db j)
  unfolding get_entity move_entity put_entity remove_entity
  get_entity-move old_key new_key j e =
      (remove_lem (Dict.put db.table new_key e).0 old_key j).0
      ∙ ap (λ (o : Option Entity). if bytes_eq old_key j then none else o)
          (put_lem db.table new_key j e).0

-- What a key has behind a move of the old key's entity, if there is one, to the new key.
abbrev pub moved_entity : Db → Bytes → Bytes → Bytes → Option Entity → Option Entity
moved_entity db old_key new_key j none = get_entity db j
moved_entity db old_key new_key j (some v) =
    if bytes_eq old_key j then none else if bytes_eq new_key j then some v else get_entity db j

module _ (order : Order Entity) (db : Db) where
  -- SET answers OK, and a GET behind it returns the value for that key and the former reply for
  -- any other.
  pub get-set :
      (k j v : Bytes)
      → (e : Effect) × (exec order db (set_line k v) ≡ some e)
        × (e.reply ≡ ok)
        × (exec order e.db (get_line j)
            ≡ answer e.db (if bytes_eq k j then bulk v else value_reply (get_entity db j)))
  get-set k j v = (
    _,
    exec-set order db k v,
    refl,
    exec-get order (put_entity db k (entity_of v)).0 j
        ∙ ap (λ (r : Reply). answer (put_entity db k (entity_of v)).0 r)
            (ap value_reply (get_entity-put order db k j (entity_of v))
              ∙ unfold value_reply in ground arith),
  )

  -- SETNX answers 1 and binds the key if it was free; else it answers 0, and no GET changes.
  pub get-setnx :
      (k j v : Bytes)
      → (e : Effect) × (exec order db (setnx_line k v) ≡ some e)
        × (e.reply ≡ int (pos (if Dict.is_some (get_entity db k) then 0 else 1)))
        × (get_entity e.db j ≡ (
            if Dict.is_some (get_entity db k)
            then get_entity db j
            else if bytes_eq k j
            then some (entity_of v)
            else get_entity db j))
  get-setnx k j v = (
    _,
    exec-setnx order db k v,
    unfold put_entity_if_absent get_entity in
        ap (λ (n : ℕ). int (pos n)) (put_if_absent_lem db.table k k (entity_of v)).1,
    get_entity-put_if_absent order db k j (entity_of v),
  )

  rename-found :
      (old_key new_key : Bytes) (v : Entity)
      → get_entity db old_key ≡ some v
      → exec order db (rename_line old_key new_key)
        ≡ logged (move_entity db old_key new_key v) (rename_line old_key new_key) ok
  unfolding exec_rename
  rename-found old_key new_key v h = exec-rename order db old_key new_key ∙ rw (h, exec_rename)

  unchanged : Reply → Effect
  unchanged r = record { db = db; log = []; reply = r }

  -- RENAME of a key that is there answers OK and is logged; the new key then has its value, the old
  -- key none, and every other key what it had, so that with one key as old and new the key is lost.
  -- A missing key is an error that changes no key and is not logged.
  pub rename_lem :
      (old_key new_key j : Bytes)
      → (e : Effect) × (exec order db (rename_line old_key new_key) ≡ some e)
        × (e.reply ≡ (if Dict.is_some (get_entity db old_key) then ok else no_such_key))
        × (e.log ≡ (
            if Dict.is_some (get_entity db old_key) then rename_line old_key new_key ∷ [] else []))
        × (get_entity e.db j ≡ moved_entity db old_key new_key j (get_entity db old_key))
  unfolding exec_rename unchanged
  rename_lem old_key new_key j = elim (Option-cases (get_entity db old_key)) [
    | inl h ↦ (
      unchanged no_such_key,
      exec-rename order db old_key new_key ∙ rw (h, exec_rename),
      rw h,
      rw h,
      rw h,
    )
    | inr (v, h) ↦ (
      _,
      rename-found old_key new_key v h,
      rw h,
      rw h,
      rw h (get_entity-move order db old_key new_key j v),
    )
  ]

  renamenx-found :
      (old_key new_key : Bytes) (v : Entity)
      → get_entity db new_key ≡ none
      → get_entity db old_key ≡ some v
      → exec order db (renamenx_line old_key new_key)
        ≡ logged (move_entity db old_key new_key v) (renamenx_line old_key new_key) (int (pos 1))
  unfolding exec_renamenx
  renamenx-found old_key new_key v free h =
      exec-renamenx order db old_key new_key ∙ rw (free, h, exec_renamenx)

  -- RENAMENX never overwrites: if the new key is there it answers 0 and changes no key, if the old
  -- key is missing it is an error that changes no key, and else it moves the value, answers 1 and
  -- is logged. Otherwise it is not logged.
  pub renamenx_lem :
      (old_key new_key j : Bytes)
      → let taken = Dict.is_some (get_entity db new_key) in
        let found = Dict.is_some (get_entity db old_key) in
        (e : Effect) × (exec order db (renamenx_line old_key new_key) ≡ some e)
        × (e.reply ≡ (if taken then int (pos 0) else if found then int (pos 1) else no_such_key))
        × (e.log ≡ (if not taken && found then renamenx_line old_key new_key ∷ [] else []))
        × (get_entity e.db j ≡ (
            if taken
            then get_entity db j
            else moved_entity db old_key new_key j (get_entity db old_key)))
  unfolding exec_renamenx unchanged
  renamenx_lem old_key new_key j = elim (Option-cases (get_entity db new_key)) [
    | inr (w, g) ↦ (
      unchanged (int (pos 0)),
      exec-renamenx order db old_key new_key ∙ rw (g, exec_renamenx),
      rw g,
      rw g,
      rw g,
    )
    | inl g ↦ elim (Option-cases (get_entity db old_key)) [
      | inl h ↦ (
        unchanged no_such_key,
        exec-renamenx order db old_key new_key ∙ rw (g, h, exec_renamenx),
        rw (g, h),
        rw (g, h),
        rw (g, h),
      )
      | inr (v, h) ↦ (
        _,
        renamenx-found old_key new_key v g h,
        rw (g, h),
        rw (g, h),
        rw (g, h) (get_entity-move order db old_key new_key j v),
      )
    ]
  ]
