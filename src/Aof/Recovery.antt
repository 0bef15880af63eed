-- ===== src/Aof/Recovery.antt =====
-- Loading the append-only file restores the databases.
use go_redis.Base.{
  ℕ, ◌+◌, ◌^◌, ◌≤◌, ◌<◌, ◌≡◌, refl, sym, ap, ◌∙◌, subst, ◌≢◌, inl, inr, true, false, List, [], ◌∷◌,
  ◌++◌, append_assoc, append-nil, arith, Bytes, codes, bytes_eq, length, All, All-append, ◌==◌,
  Bool-cases,
}
use go_redis.Dict.{Order}
use go_redis.Strconv.{itoa}
use go_redis.Strconv.Digits.{IsDigit, itoa-IsDigit, itoa-ne-nil, length-itoa}
use go_redis.Strconv.RoundTrip.{parse_int-itoa}
use go_redis.Reply.{ok, multi_bulk, to_bytes}
use go_redis.Utils.{to_lower, length-to_lower, to_cmd_line}
use go_redis.Parser.{max_alloc}
use go_redis.Parser.RoundTrip
use go_redis.Parser.RoundTrip.{IsPlain, CommandIsPlain}
use go_redis.Database.Db.{Entity, Db}
use go_redis.Database.Served.{
  Answered, Served, quiet, logs, exec_server-Served, exec_server-select, is_select,
}
use go_redis.Database.Standalone.{Server, Outcome, exec_server, select_command, replies}
use go_redis.Aof.{Aof, written, add_aof, select_line, done, load_aof}
use go_redis.Aof.Loading.{Replays, Replays-append, load_aof-written}
use go_redis.Aof.System.{System, log_lines, serve, serve_all}

abbrev pub max_dbs : ℕ
max_dbs = 2 ^ 40

-- The handler of a file that did not exist.
abbrev pub empty_aof : Aof
empty_aof = record { file = []; current_db_index = 0 }

digits-IsPlain : (s : Bytes) → s ≢ [] → All IsDigit s → length s + 2 ≤ max_alloc → IsPlain s
digits-IsPlain [] h d fits = absurd (h refl)
digits-IsPlain (c ∷ s) h d fits = (omega arith, fits)

pub select_line-plain : (i : ℕ) → i < max_dbs → CommandIsPlain (select_line i)
unfolding to_cmd_line
select_line-plain i h = (
  λ e. cc,
  omega arith,
  (
    omega arith,
    (digits-IsPlain (itoa i) (itoa-ne-nil i) (itoa-IsDigit i) (omega (arith, length-itoa i)), tt),
  ),
)

lower-IsPlain : (name : Bytes) → IsPlain name → IsPlain (to_lower name)
unfolding to_lower
lower-IsPlain [] h = absurd h
lower-IsPlain (c ∷ s) (d, fits) = (ground arith, omega (arith, length-to_lower s))

pub lower-plain :
    (name : Bytes) (args : List Bytes)
    → CommandIsPlain (name ∷ args)
    → CommandIsPlain (to_lower name ∷ args)
lower-plain name args (h, n, (p, ps)) = (λ e. cc, n, (lower-IsPlain name p, ps))

pub written-append :
    (xs ys : List (List Bytes))
    → RoundTrip.written (xs ++ ys) ≡ RoundTrip.written xs ++ RoundTrip.written ys
written-append [] ys = refl
written-append (x ∷ xs) ys = simp (written-append xs ys, append_assoc)

pub add_aof-here :
    (a : Aof) (i : ℕ) (line : List Bytes)
    → (i == a.current_db_index) ≡ true
    → add_aof true written written a i line
      ≡ record { file = a.file ++ RoundTrip.written (line ∷ []); current_db_index = i }
unfolding add_aof
add_aof-here a i line here =
    let tail : to_bytes (multi_bulk line) ≡ RoundTrip.written (line ∷ []) = sym (append-nil _) in
    let at : a.current_db_index ≡ i = ground (arith, here) in ground (arith, here, at, tail)

pub add_aof-away :
    (a : Aof) (i : ℕ) (line : List Bytes)
    → (i == a.current_db_index) ≡ false
    → add_aof true written written a i line ≡ record {
      file = a.file ++ RoundTrip.written (select_line i ∷ line ∷ []);
      current_db_index = i;
    }
unfolding add_aof
add_aof-away a i line away =
    let first = to_bytes (multi_bulk (select_line i)) in
    let tail : (a.file ++ first) ++ to_bytes (multi_bulk line)
        ≡ a.file ++ RoundTrip.written (select_line i ∷ line ∷ []) =
      append_assoc a.file first (to_bytes (multi_bulk line))
      ∙ ap (λ (l : Bytes). a.file ++ (first ++ l))
          (sym (append-nil (to_bytes (multi_bulk line)))) in
    ground (arith, away, tail)

module _ (order : Order Entity) where
  -- The SELECT line of the file selects its database.
  select_line-selects :
      (s : Server) (i : ℕ)
      → i < length s.db_set
      → i < max_dbs
      → exec_server order s (select_line i) ≡ replies (record s { selected = i }) ok
  unfolding to_cmd_line select_command
  select_line-selects s i h small =
      exec_server-select order s (codes "select") (itoa i ∷ [])
        (unfold is_select to_lower bytes_eq in refl)
      ∙ rw (parse_int-itoa i (omega arith)) (ground arith)

  pub select-Replays :
      (dbs : List Db) (j i : ℕ)
      → i < length dbs
      → i < max_dbs
      → Replays order
          (record { db_set = dbs; selected = j })
          (select_line i ∷ [])
          (record { db_set = dbs; selected = i })
  select-Replays dbs j i h small =
      let e = select_line-selects (record { db_set = dbs; selected = j }) i h small in
      (
        subst Answered (sym (ap (λ (o : Outcome). o.reply) e)) (λ p. cc),
        ap (λ (o : Outcome). o.server) e,
      )

  pub line-Replays :
      (dbs : List Db) (i : ℕ) (line : List Bytes) (o : Outcome)
      → exec_server order (record { db_set = dbs; selected = i }) line ≡ o
      → Answered o.reply
      → o.server.selected ≡ i
      → Replays order
          (record { db_set = dbs; selected = i })
          (line ∷ [])
          (record { db_set = o.server.db_set; selected = i })
  line-Replays dbs i line o e a same = (
    subst Answered (sym (ap (λ (r : Outcome). r.reply) e)) a,
    ap (λ (r : Outcome). r.server) e
        ∙ ap (λ (j : ℕ). let t : Server = record { db_set = o.server.db_set; selected = j } in t)
            same,
  )

  -- The file holds plain commands that lead from `start` to the databases, and to the index that
  -- the handler keeps.
  pub record IsLogged (start : List Db) (sys : System) : Type 0 where
    pub lines : List (List Bytes)
    pub text : sys.aof.file ≡ RoundTrip.written lines
    pub plain : All CommandIsPlain lines
    pub leads :
        Replays order
          (record { db_set = start; selected = 0 })
          lines
          (record { db_set = sys.dbs; selected = sys.aof.current_db_index })
    pub small : length sys.dbs < max_dbs

  -- More lines behind the file.
  pub more-IsLogged :
      (start dbs dbs' : List Db) (a : Aof) (new : List (List Bytes)) (i : ℕ)
      → IsLogged start (record { dbs = dbs; aof = a })
      → All CommandIsPlain new
      → Replays order
          (record { db_set = dbs; selected = a.current_db_index })
          new
          (record { db_set = dbs'; selected = i })
      → length dbs' ≡ length dbs
      → IsLogged start (record {
        dbs = dbs';
        aof = record { file = a.file ++ RoundTrip.written new; current_db_index = i };
      })
  more-IsLogged start dbs dbs' a new i v plain leads same = record {
    lines = v.lines ++ new;
    text = ap (λ (l : Bytes). l ++ RoundTrip.written new) v.text ∙ sym (written-append v.lines new);
    plain = All-append CommandIsPlain v.lines new v.plain plain;
    leads = Replays-append order _ _ _ v.lines new v.leads leads;
    small = omega (arith, v.small);
  }

  -- One line of a command on database `i`, behind a SELECT line if the file is on another database.
  one_line :
      (start : List Db) (sys : System) (i : ℕ) (line : List Bytes) (o : Outcome)
      → IsLogged start sys
      → CommandIsPlain line
      → exec_server order (record { db_set = sys.dbs; selected = i }) line ≡ o
      → Answered o.reply
      → o.server.selected ≡ i
      → length o.server.db_set ≡ length sys.dbs
      → i < length sys.dbs
      → IsLogged start
          (record { dbs = o.server.db_set; aof = add_aof true written written sys.aof i line })
  one_line start sys i line o v plain e a same len lt =
      elim (Bool-cases (i == sys.aof.current_db_index)) [
        | inl here ↦
            let at : sys.aof.current_db_index ≡ i = ground (arith, here) in
            let leads = line-Replays sys.dbs i line o e a same in
            rw (add_aof-here sys.aof i line here) (
              more-IsLogged start sys.dbs o.server.db_set sys.aof (line ∷ []) i v (plain, tt)
                (subst
                  (λ (j : ℕ).
                    Replays order (record { db_set = sys.dbs; selected = j }) (line ∷ [])
                      (record { db_set = o.server.db_set; selected = i }))
                  (sym at) leads)
                len)
        | inr away ↦ rw (add_aof-away sys.aof i line away) (
            more-IsLogged start sys.dbs o.server.db_set sys.aof (select_line i ∷ line ∷ []) i v
              (select_line-plain i (omega (arith, v.small)), (plain, tt))
              (Replays-append order _ _ _ (select_line i ∷ []) (line ∷ [])
                (select-Replays sys.dbs sys.aof.current_db_index i lt (omega (arith, v.small)))
                (line-Replays sys.dbs i line o e a same))
              len)
      ]

  step-IsLogged :
      (start : List Db) (sys : System) (i : ℕ) (name : Bytes) (args : List Bytes) (o : Outcome)
      → IsLogged start sys
      → CommandIsPlain (name ∷ args)
      → Served order (record { db_set = sys.dbs; selected = i }) name args o
      → IsLogged start (record { dbs = o.server.db_set; aof = log_lines sys.aof i o.logged })
  unfolding log_lines
  step-IsLogged start sys i name args o v plain (quiet same nothing) = rw (same, nothing) v
  step-IsLogged start sys i name args o v plain (logs line selected len lt a again) = rw line (
      one_line start sys i (to_lower name ∷ args) o v (lower-plain name args plain) again a selected
        len lt)

  pub serve-IsLogged :
      (start : List Db) (sys : System) (i : ℕ) (line : List Bytes)
      → IsLogged start sys
      → CommandIsPlain line
      → IsLogged start (serve order sys i line)
  unfolding serve
  serve-IsLogged start sys i [] v plain = absurd (plain.0 refl)
  serve-IsLogged start sys i (name ∷ args) v plain =
      step-IsLogged start sys i name args _ v plain (exec_server-Served order _ name args)

  -- Serving requests of plain commands keeps the file in step with the databases.
  pub serve_all-IsLogged :
      (start : List Db) (requests : List (ℕ × List Bytes)) (sys : System)
      → IsLogged start sys
      → All (λ r. CommandIsPlain r.1) requests
      → IsLogged start (serve_all order sys requests)
  unfolding serve_all
  serve_all-IsLogged start [] sys v plain = v
  serve_all-IsLogged start ((i, line) ∷ requests) sys v (p, ps) =
      serve_all-IsLogged start requests (serve order sys i line)
        (serve-IsLogged start sys i line v p) ps

  -- Such a file restores the databases.
  pub load-IsLogged :
      (start : List Db) (sys : System)
      → IsLogged start sys
      → load_aof order (record { db_set = start; selected = 0 }) sys.aof.file
        ≡ done (record { db_set = sys.dbs; selected = sys.aof.current_db_index })
  load-IsLogged start sys v =
      ap (load_aof order (record { db_set = start; selected = 0 })) v.text
      ∙ load_aof-written order (record { db_set = start; selected = 0 }) _ v.lines v.plain v.leads

  -- A server that starts with an empty file, and serves any commands of plain arguments on any
  -- databases, fewer than 2^40, with writes that succeed, leaves a file from which LoadAof restores
  -- every database.
  pub recovery :
      (start : List Db) (requests : List (ℕ × List Bytes))
      → length start < max_dbs
      → All (λ r. CommandIsPlain r.1) requests
      → let sys = serve_all order (record { dbs = start; aof = empty_aof }) requests in
        load_aof order (record { db_set = start; selected = 0 }) sys.aof.file
        ≡ done (record { db_set = sys.dbs; selected = sys.aof.current_db_index })
  recovery start requests few plain =
      load-IsLogged start (serve_all order (record { dbs = start; aof = empty_aof }) requests) (
        serve_all-IsLogged start requests (record { dbs = start; aof = empty_aof })
          (record { lines = []; text = refl; plain = tt; leads = refl; small = few }) plain)
