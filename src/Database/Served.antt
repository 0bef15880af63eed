-- ===== src/Database/Served.antt =====
-- What one command does to the server: nothing that is logged, or one line that does the same
-- again.
use go_redis.Base.{
  ◌<◌, ◌≡◌, refl, sym, ap, ◌∙◌, subst, ◌≢◌, inl, inr, Bool, true, false, Option, none, some, List,
  [], ◌∷◌, arith, Bytes, codes, bytes_eq, length, get_elem?, length-set, set-get_elem?,
  get_elem?-lt, if◌then◌else◌, Bool-cases, Option-cases, ℤ, pos, negsuc,
}
use go_redis.Dict.{Order}
use go_redis.Strconv.{parse_int}
use go_redis.Reply.{Reply, no_reply}
use go_redis.Utils.{to_lower, to_lower-to_lower}
use go_redis.Database.Db.{Entity, Db, Effect}
use go_redis.Database.Commands.{exec}
use go_redis.Database.Commands.Lookup.{exec-to_lower}
use go_redis.Database.Safety.{exec-returns}
use go_redis.Database.Replay.{LogsItself, exec-LogsItself}
use go_redis.Database.Standalone.{
  Server, Outcome, exec_server, finish, on_selected, select_command, select_index,
}

-- A reply that is there and has bytes.
abbrev pub Answered : Option Reply → Type 0
Answered none = ⊥
Answered (some r) = r ≢ no_reply

pub data Served (order : Order Entity) (s : Server) (name : Bytes) (args : List Bytes) (o : Outcome)
    : Type 0 where
  quiet : o.server.db_set ≡ s.db_set → o.logged ≡ [] → Served order s name args o
  logs :
      o.logged ≡ (to_lower name ∷ args) ∷ []
      → o.server.selected ≡ s.selected
      → length o.server.db_set ≡ length s.db_set
      → s.selected < length s.db_set
      → Answered o.reply
      → exec_server order s (to_lower name ∷ args) ≡ o
      → Served order s name args o

select_index-quiet :
    (s : Server) (z : Option ℤ)
    → ((select_index s z).server.db_set ≡ s.db_set) × ((select_index s z).logged ≡ [])
unfolding select_index
select_index-quiet s none = (refl, refl)
select_index-quiet s (some (negsuc _)) = (refl, refl)
select_index-quiet s (some (pos i)) = ground arith

select_command-quiet :
    (s : Server) (args : List Bytes)
    → ((select_command s args).server.db_set ≡ s.db_set) × ((select_command s args).logged ≡ [])
unfolding select_command
select_command-quiet s [] = (refl, refl)
select_command-quiet s (a ∷ []) = select_index-quiet s (parse_int a)
select_command-quiet s (a ∷ b ∷ r) = (refl, refl)

unfoldable pub is_select : Bytes → Bool
is_select name = bytes_eq (to_lower name) (codes "select")

pub exec_server-select :
    (order : Order Entity) (s : Server) (name : Bytes) (args : List Bytes)
    → is_select name ≡ true
    → exec_server order s (name ∷ args) ≡ select_command s args
unfolding exec_server is_select
exec_server-select order s name args e =
    ap
      (λ (b : Bool).
        if b
        then select_command s args
        else on_selected order s (name ∷ args) (get_elem? s.db_set s.selected))
      e

pub exec_server-named :
    (order : Order Entity) (s : Server) (name : Bytes) (args : List Bytes)
    → is_select name ≡ false
    → exec_server order s (name ∷ args)
      ≡ on_selected order s (name ∷ args) (get_elem? s.db_set s.selected)
unfolding exec_server is_select
exec_server-named order s name args e =
    ap
      (λ (b : Bool).
        if b
        then select_command s args
        else on_selected order s (name ∷ args) (get_elem? s.db_set s.selected))
      e

is_select-to_lower : (name : Bytes) → is_select (to_lower name) ≡ is_select name
unfolding is_select
is_select-to_lower name = ap (λ (n : Bytes). bytes_eq n (codes "select")) (to_lower-to_lower name)

-- A command on a database that is there.
pub on_db :
    (order : Order Entity) (s : Server) (name : Bytes) (args : List Bytes) (db : Db) (e : Effect)
    → is_select name ≡ false
    → get_elem? s.db_set s.selected ≡ some db
    → exec order db (name ∷ args) ≡ some e
    → exec_server order s (name ∷ args) ≡ finish s (some e)
on_db order s name args db e n g h =
    exec_server-named order s name args n
    ∙ ap (on_selected order s (name ∷ args)) g
    ∙ unfold on_selected in ap (finish s) h

db-Served :
    (order : Order Entity) (s : Server) (name : Bytes) (args : List Bytes) (db : Db) (e : Effect)
    → is_select name ≡ false
    → get_elem? s.db_set s.selected ≡ some db
    → exec order db (name ∷ args) ≡ some e
    → e.reply ≢ no_reply
    → LogsItself (to_lower name) args db (some e)
    → Served order s name args (finish s (some e))
unfolding finish
db-Served order s name args db e n g h speaks (inl (no_log, same)) =
    quiet (set-get_elem? s.db_set s.selected e.db (g ∙ ap some (sym same))) no_log
db-Served order s name args db e n g h speaks (inr line) =
    logs line refl (length-set s.db_set s.selected e.db) (get_elem?-lt s.db_set s.selected db g)
      speaks
      (on_db order s (to_lower name) args db e (is_select-to_lower name ∙ n) g
        (exec-to_lower order db name args ∙ h))

-- A command line with a name either leaves the databases as they are and logs nothing, or logs its own
-- line in lower case, which does the same again to the same server; then the selected database is there,
-- the number of databases and the index stay, and the reply has bytes.
pub exec_server-Served :
    (order : Order Entity) (s : Server) (name : Bytes) (args : List Bytes)
    → Served order s name args (exec_server order s (name ∷ args))
exec_server-Served order s name args = elim (Bool-cases (is_select name)) [
  | inl e ↦
      subst (Served order s name args) (sym (exec_server-select order s name args e))
        (quiet (select_command-quiet s args).0 (select_command-quiet s args).1)
  | inr n ↦ elim (Option-cases (get_elem? s.db_set s.selected)) [
    | inl g ↦
        subst (Served order s name args)
          (sym (exec_server-named order s name args n ∙ ap (on_selected order s (name ∷ args)) g))
          (unfold on_selected in quiet refl refl)
    | inr (db, g) ↦
        let (e, h, speaks) = exec-returns order db name args in
        subst (Served order s name args) (sym (on_db order s name args db e n g h))
          (db-Served order s name args db e n g h speaks (exec-LogsItself order db name args e h))
  ]
]
