-- ===== src/Aof/Cut.antt =====
-- Loading the first bytes of an append-only file, cut anywhere.
use native.Mathlib.Decide.{dec_lt}
use go_redis.Base.{
  ℕ, ◌-◌, ◌≤◌, ◌≡◌, refl, sym, ap, ◌∙◌, subst, inl, inr, true, List, [], ◌∷◌, ◌++◌, arith, Bytes,
  length, take, length-append, All, All-append, leb, Bool-cases,
}
use go_redis.Dict.{Order}
use go_redis.Reply.{multi_bulk, to_bytes}
use go_redis.Parser.{Err, closed, failed}
use go_redis.Parser.RoundTrip
use go_redis.Parser.RoundTrip.{CommandIsPlain, commands_of}
use go_redis.Parser.Tears.{IsEnd, take-first}
use go_redis.Parser.Torn.{whole, parse_stream-IsTorn}
use go_redis.Database.Db.{Entity, Db}
use go_redis.Database.Standalone.{Server, exec_server}
use go_redis.Aof.{Aof, done, load_aof, load_all, load_payload, load_reply}
use go_redis.Aof.Loading.{Replays, Replays-append, load_command-Answered}
use go_redis.Aof.Recovery.{IsLogged, written-append}

module _ (order : Order Entity) where
  -- The server after running the lines.
  abbrev pub final : Server → List (List Bytes) → Server
  final s [] = s
  final s (line ∷ lines) = final (exec_server order s line).server lines

  pub Replays-final :
      (s t : Server) (lines : List (List Bytes)) → Replays order s lines t → final s lines ≡ t
  Replays-final s t [] h = h
  Replays-final s t (line ∷ lines) h = Replays-final (exec_server order s line).server t lines h.1

  pub final-append :
      (s : Server) (xs ys : List (List Bytes)) → final s (xs ++ ys) ≡ final (final s xs) ys
  final-append s [] ys = refl
  final-append s (line ∷ xs) ys = final-append (exec_server order s line).server xs ys

  -- The lines that stand whole in the file are answered as well.
  Replays-whole :
      (s t : Server) (n : ℕ) (lines : List (List Bytes))
      → Replays order s lines t
      → Replays order s (whole n lines) (final s (whole n lines))
  Replays-whole s t n [] h = refl
  Replays-whole s t n (line ∷ lines) h =
      elim (Bool-cases (leb (length (to_bytes (multi_bulk line))) n)) [
        | inl e ↦ rw e (h.0, Replays-whole (exec_server order s line).server t _ lines h.1)
        | inr e ↦ rw e
      ]

  load_all-torn :
      (s t : Server) (lines : List (List Bytes)) (e : Err)
      → IsEnd e
      → Replays order s lines t
      → load_all order (commands_of lines ++ failed e ∷ []) closed s ≡ done t
  unfolding load_all load_payload load_reply
  load_all-torn s t [] e (inl k) h = rw k (ap done h)
  load_all-torn s t [] e (inr k) h = rw k (ap done h)
  load_all-torn s t (line ∷ lines) e k h =
      load_command-Answered order (exec_server order s line)
        (load_all order (commands_of lines ++ failed e ∷ []) closed) h.0
      ∙ load_all-torn (exec_server order s line).server t lines e k h.1

  -- The first bytes of a file are loaded by running the commands that stand whole in them.
  pub load_aof-torn :
      (dbs : List Db) (t : Server) (n : ℕ) (lines : List (List Bytes))
      → All CommandIsPlain lines
      → Replays order (record { db_set = dbs; selected = 0 }) lines t
      → load_aof order (record { db_set = dbs; selected = 0 }) (take n (RoundTrip.written lines))
        ≡ done (final (record { db_set = dbs; selected = 0 }) (whole n lines))
  unfolding load_aof
  load_aof-torn dbs t n lines plain h =
      let (e, k, q) = parse_stream-IsTorn lines n plain in
      rw q (load_all-torn _ _ (whole n lines) e k (Replays-whole _ t n lines h))

pub whole-append :
    (n : ℕ) (xs ys : List (List Bytes))
    → length (RoundTrip.written xs) ≤ n
    → whole n (xs ++ ys) ≡ xs ++ whole (n - length (RoundTrip.written xs)) ys
whole-append n [] ys h = let e : n ≡ n - 0 = omega arith in ap (λ (k : ℕ). whole k ys) e
whole-append n (line ∷ xs) ys h =
    let text = to_bytes (multi_bulk line) in
    let size = length-append text (RoundTrip.written xs) in
    let fits : leb (length text) n ≡ true = ground (arith, size) in
    let left : n - length text - length (RoundTrip.written xs)
        ≡ n - length (text ++ RoundTrip.written xs) =
      omega (arith, size) in
    rw fits (
      ap (λ (l : List (List Bytes)). line ∷ l)
        (whole-append (n - length text) xs ys (omega (arith, size))
          ∙ ap (λ (k : ℕ). xs ++ whole k ys) left))

-- The first `n` bytes of the file load to databases of which `P` holds.
abbrev pub Restores : Order Entity → List Db → (List Db → Type 0) → Bytes → ℕ → Type 0
Restores order start P file n =
    (s : Server) × (load_aof order (record { db_set = start; selected = 0 }) (take n file) ≡ done s)
    × P s.db_set

module _ (order : Order Entity) (start : List Db) (P : List Db → Type 0) where
  -- Lines behind the file, if `P` holds wherever they are cut.
  pub more-Restores :
      (dbs : List Db) (a : Aof) (new : List (List Bytes)) (t : Server)
      → IsLogged order start (record { dbs = dbs; aof = a })
      → All CommandIsPlain new
      → Replays order (record { db_set = dbs; selected = a.current_db_index }) new t
      → ((n : ℕ) → Restores order start P a.file n)
      → ((m : ℕ)
          → P
              (final order
                (record { db_set = dbs; selected = a.current_db_index })
                (whole m new)).db_set)
      → (n : ℕ) → Restores order start P (a.file ++ RoundTrip.written new) n
  more-Restores dbs a new t v plain leads before holds n = elim (dec_lt n (length a.file)) [
    | yes short ↦
        subst
          (λ f.
            (s : Server) × (load_aof order (record { db_set = start; selected = 0 }) f ≡ done s)
            × P s.db_set)
          (sym (take-first n a.file (RoundTrip.written new) (omega arith))) (before n)
    | no past ↦
        let size : length a.file ≡ length (RoundTrip.written v.lines) = ap length v.text in
        let m = n - length (RoundTrip.written v.lines) in
        let s0 : Server = record { db_set = start; selected = 0 } in
        let there : final order s0 (whole n (v.lines ++ new))
            ≡ final order (record { db_set = dbs; selected = a.current_db_index }) (whole m new) =
          ap (final order s0) (whole-append n v.lines new (omega (arith, size)))
          ∙ final-append order s0 v.lines (whole m new)
          ∙ ap (λ (s : Server). final order s (whole m new))
              (Replays-final order s0 _ v.lines v.leads) in
        (
          final order s0 (whole n (v.lines ++ new)),
          ap (λ (l : Bytes). load_aof order s0 (take n l))
                (ap (λ (l : Bytes). l ++ RoundTrip.written new) v.text
                  ∙ sym (written-append v.lines new))
              ∙ load_aof-torn order start t n (v.lines ++ new)
                  (All-append CommandIsPlain v.lines new v.plain plain)
                  (Replays-append order _ _ t v.lines new v.leads leads),
          subst (λ (s : Server). P s.db_set) (sym there) (holds m),
        )
  ]
