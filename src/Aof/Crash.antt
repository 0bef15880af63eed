-- ===== src/Aof/Crash.antt =====
-- The append-only file cut at any byte, as a crash of the machine may leave it.
use go_redis.Base.{
  ℕ, suc, ◌-◌, ◌<◌, ◌≡◌, refl, sym, subst, inl, inr, true, some, List, [], ◌∷◌, arith, Bytes,
  length, get_elem?, take, All, leb, ◌==◌, Bool-cases,
}
use go_redis.Dict.{Order}
use go_redis.Utils.{to_lower}
use go_redis.Reply.{multi_bulk, to_bytes}
use go_redis.Parser.RoundTrip.{CommandIsPlain}
use go_redis.Parser.Torn.{whole}
use go_redis.Database.Db.{Entity, Db}
use go_redis.Database.Standalone.{Server, Outcome, exec_server}
use go_redis.Database.Served.{Answered, Served, quiet, logs, exec_server-Served}
use go_redis.Aof.{written, add_aof, select_line, done, load_aof}
use go_redis.Aof.Loading.{Replays, Replays-append}
use go_redis.Aof.System.{System, log_lines, serve, serve_all}
use go_redis.Aof.Recovery.{
  IsLogged, empty_aof, max_dbs, serve-IsLogged, lower-plain, add_aof-here, add_aof-away,
  select_line-plain, line-Replays, select-Replays,
}
use go_redis.Aof.Cut.{final, load_aof-torn, Restores, more-Restores}

module _ (order : Order Entity) (start : List Db) (P : List Db → Type 0) where
  -- A line that may be cut off, behind lines that leave the databases `dbs`.
  cut-line :
      (s : Server) (line : List Bytes) (o : Outcome)
      → exec_server order s line ≡ o
      → P s.db_set
      → P o.server.db_set
      → (m : ℕ) → P (final order s (whole m (line ∷ []))).db_set
  cut-line s line o e now after m =
      elim (Bool-cases (leb (length (to_bytes (multi_bulk line))) m)) [
        | inl all ↦ rw all (subst (λ (r : Outcome). P r.server.db_set) (sym e) after)
        | inr part ↦ rw part now
      ]

  -- The same behind a line that changes no database.
  cut-two :
      (s t : Server) (first line : List Bytes) (o : Outcome)
      → (exec_server order s first).server ≡ t
      → exec_server order t line ≡ o
      → P s.db_set
      → P t.db_set
      → P o.server.db_set
      → (m : ℕ) → P (final order s (whole m (first ∷ line ∷ []))).db_set
  cut-two s t first line o f e now moved after m =
      elim (Bool-cases (leb (length (to_bytes (multi_bulk first))) m)) [
        | inl all ↦ rw all (
            subst
              (λ (r : Server).
                P
                  (final order r
                    (whole (m - length (to_bytes (multi_bulk first))) (line ∷ []))).db_set)
              (sym f) (cut-line t line o e moved after _))
        | inr part ↦ rw part now
      ]

  -- One line of a command on database `i`, with a SELECT line in front of it or without.
  line-Restores :
      (sys : System) (i : ℕ) (line : List Bytes) (o : Outcome)
      → IsLogged order start sys
      → CommandIsPlain line
      → exec_server order (record { db_set = sys.dbs; selected = i }) line ≡ o
      → Answered o.reply
      → o.server.selected ≡ i
      → i < length sys.dbs
      → P sys.dbs
      → P o.server.db_set
      → ((n : ℕ) → Restores order start P sys.aof.file n)
      → (n : ℕ) → Restores order start P (add_aof true written written sys.aof i line).file n
  line-Restores sys i line o v plain e a same lt now after before n =
      let run = line-Replays order sys.dbs i line o e a same in
      let s0 : Server = record { db_set = sys.dbs; selected = i } in
      elim (Bool-cases (i == sys.aof.current_db_index)) [
        | inl here ↦
            let at : i ≡ sys.aof.current_db_index = ground (arith, here) in
            rw (add_aof-here sys.aof i line here) (
              more-Restores order start P sys.dbs sys.aof (line ∷ []) _ v (plain, tt)
                (subst
                  (λ (k : ℕ).
                    Replays order (record { db_set = sys.dbs; selected = k }) (line ∷ [])
                      (record { db_set = o.server.db_set; selected = i }))
                  at run)
                before
                (subst
                  (λ (k : ℕ).
                    (m : ℕ)
                    → P
                        (final order (record { db_set = sys.dbs; selected = k })
                          (whole m (line ∷ []))).db_set)
                  at (cut-line s0 line o e now after))
                n)
        | inr away ↦
            let select =
              select-Replays order sys.dbs sys.aof.current_db_index i lt (omega (arith, v.small)) in
            rw (add_aof-away sys.aof i line away) (
              more-Restores order start P sys.dbs sys.aof (select_line i ∷ line ∷ []) _ v
                (select_line-plain i (omega (arith, v.small)), (plain, tt))
                (Replays-append order _ _ _ (select_line i ∷ []) (line ∷ []) select run) before
                (cut-two (record { db_set = sys.dbs; selected = sys.aof.current_db_index }) s0
                  (select_line i) line o select.1 e now now after)
                n)
      ]

  step-Restores :
      (sys : System) (i : ℕ) (name : Bytes) (args : List Bytes) (o : Outcome)
      → IsLogged order start sys
      → CommandIsPlain (name ∷ args)
      → Served order (record { db_set = sys.dbs; selected = i }) name args o
      → P sys.dbs
      → P o.server.db_set
      → ((n : ℕ) → Restores order start P sys.aof.file n)
      → (n : ℕ) → Restores order start P (log_lines sys.aof i o.logged).file n
  unfolding log_lines
  step-Restores sys i name args o v plain (quiet same nothing) now after before n =
      rw nothing (before n)
  step-Restores sys i name args o v plain (logs line selected len lt a again) now after before n =
      rw line (
        line-Restores sys i (to_lower name ∷ args) o v (lower-plain name args plain) again a
          selected lt now after before n)

-- The databases of a system as it serves requests, the first among them.
abbrev pub history : Order Entity → System → List (ℕ × List Bytes) → List (List Db)
history order sys [] = sys.dbs ∷ []
history order sys ((i, line) ∷ requests) = sys.dbs ∷ history order (serve order sys i line) requests

history-first :
    (order : Order Entity) (P : List Db → Type 0) (requests : List (ℕ × List Bytes)) (sys : System)
    → All P (history order sys requests)
    → P sys.dbs
history-first order P [] sys h = h.0
history-first order P ((i, line) ∷ requests) sys h = h.0

module _ (order : Order Entity) (start : List Db) (P : List Db → Type 0) where
  serve_all-Restores :
      (requests : List (ℕ × List Bytes)) (sys : System)
      → IsLogged order start sys
      → All (λ r. CommandIsPlain r.1) requests
      → All P (history order sys requests)
      → ((n : ℕ) → Restores order start P sys.aof.file n)
      → (n : ℕ) → Restores order start P (serve_all order sys requests).aof.file n
  unfolding serve_all
  serve_all-Restores [] sys v plain h before n = before n
  serve_all-Restores ((i, []) ∷ requests) sys v (p, ps) h before n = absurd (p.0 refl)
  serve_all-Restores ((i, name ∷ args) ∷ requests) sys v (p, ps) (now, h) before n =
      serve_all-Restores requests (serve order sys i (name ∷ args))
        (serve-IsLogged order start sys i (name ∷ args) v p) ps h
        (λ m.
          unfold serve in
          step-Restores order start P sys i name args _ v p (exec_server-Served order _ name args)
            now (history-first order P requests (serve order sys i (name ∷ args)) h) before m)
        n

All-map :
    {A : Type 0} (P Q : A → Type 0) (xs : List A) → ((x : A) → P x → Q x) → All P xs → All Q xs
All-map P Q [] f h = tt
All-map P Q (x ∷ xs) f (p, h) = (f x p, All-map P Q xs f h)

-- The place of an element in a list.
abbrev StandsIn : {A : Type 0} → List A → A → Type 0
StandsIn xs x = (k : ℕ) × (get_elem? xs k ≡ some x)

All-StandsIn : {A : Type 0} (xs : List A) → All (StandsIn xs) xs
All-StandsIn [] = tt
All-StandsIn (x ∷ xs) = (
  (0, refl),
  All-map (StandsIn xs) (StandsIn (x ∷ xs)) xs (λ y p. (suc p.0, p.1)) (All-StandsIn xs),
)

nothing-Restores :
    (order : Order Entity) (start : List Db) (P : List Db → Type 0)
    → P start
    → (n : ℕ) → Restores order start P [] n
nothing-Restores order start P p n =
    let s : Server = record { db_set = start; selected = 0 } in
    (s, load_aof-torn order start s n [] tt refl, p)

-- A server that starts with an empty file, and serves any commands of plain arguments on any
-- databases, fewer than 2^40, with writes that succeed, leaves a file of which every first part,
-- cut at any byte, is loaded to its end and restores all databases as they stood together at one
-- moment between two of the requests, or before or after all of them.
pub crash_restores :
    (order : Order Entity) (start : List Db) (requests : List (ℕ × List Bytes)) (n : ℕ)
    → length start < max_dbs
    → All (λ r. CommandIsPlain r.1) requests
    → let first : System = record { dbs = start; aof = empty_aof } in
      (s : Server) × (k : ℕ) × (load_aof order
          (record { db_set = start; selected = 0 })
          (take n (serve_all order first requests).aof.file)
        ≡ done s)
      × (get_elem? (history order first requests) k ≡ some s.db_set)
crash_restores order start requests n few plain =
    let first : System = record { dbs = start; aof = empty_aof } in
    let P : List Db → Type 0 = StandsIn (history order first requests) in
    let all : All P (history order first requests) = All-StandsIn (history order first requests) in
    let (s, e, (k, f)) =
      serve_all-Restores order start P requests first
        (record { lines = []; text = refl; plain = tt; leads = refl; small = few }) plain all
        (nothing-Restores order start P (history-first order P requests first all)) n in
    (s, k, e, f)
