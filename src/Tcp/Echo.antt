-- ===== src/Tcp/Echo.antt =====
-- tcp/echo.go: the handler that sends each line back.
use go_redis.Base.{
  ℕ, zero, suc, ◌+◌, ◌<◌, ◌≡◌, refl, sym, ap, ◌∙◌, inl, inr, Bool, true, Option, none, some, List,
  [], ◌∷◌, ◌++◌, append_assoc, append-nil, arith, Bytes, length, occ, ◌==◌, if◌then◌else◌, ==_refl,
  Option-cases, ◌>>=◌, pos,
}
use go_redis.Parser.ReadLine.{read_bytes}
use go_redis.Handler.{Conn}
use go_redis.Handler.Exchange.{Works}
use go_redis.Parser.ReadLine.Progress.{read_bytes-append, read_bytes-length}
use go_redis.Sync
use go_redis.Sync.{Boolean, Wait}

-- `activeConn` has the keys of clients; a key stands for the pointer.
pub record EchoHandler : Type 0 where
  pub active_conn : List ℕ
  pub closing : Boolean

abbrev pub make_handler : EchoHandler
make_handler = record { active_conn = []; closing = 0 }

-- `sent` is what its connection has sent.
pub record EchoClient : Type 0 where
  pub sent : Bytes
  pub waiting : Wait

-- The error that ends the reading.
pub data ReadEnd : Type 0 where
  end_of_file read_error : ReadEnd

unfoldable pub delete_key : ℕ → List ℕ → List ℕ
delete_key k [] = []
delete_key k (x ∷ xs) = let others = delete_key k xs in if x == k then others else x ∷ others

-- One line: `none` is a panic of the counter.
unfoldable pub echo_line : Conn → EchoClient → Bytes → Option EchoClient
unfolding Sync.add Sync.done
echo_line conn c msg = do
  w ← Sync.add c.waiting (pos 1)
  let out = (conn c.sent msg).0
  v ← Sync.done w
  some (record { sent = out; waiting = v })

-- The loop. Each round that goes on takes a line, so that the fuel is a bound of the input's length.
unfoldable pub echo_loop : ℕ → Conn → EchoClient → Bytes → Option EchoClient
unfolding echo_line
echo_loop zero conn c input = none
echo_loop (suc fuel) conn c input = elim (read_bytes input) [
  | none ↦ some c
  | some (msg, rest) ↦ do d ← echo_line conn c msg; echo_loop fuel conn d rest
]

unfoldable pub after_end : ReadEnd → ℕ → EchoHandler → EchoHandler
unfolding delete_key
after_end end_of_file k h = record h { active_conn = delete_key k h.active_conn }
after_end read_error k h = h

-- `Handle` with a new client, whose key is `k`. Once `closing` is set the connection is closed, and its
-- first read fails.
unfoldable pub handle : Conn → ReadEnd → ℕ → EchoHandler → Bytes → Option (EchoHandler × EchoClient)
unfolding Sync.get echo_loop after_end
handle conn end k h input = do
  let stored = record h { active_conn = k ∷ h.active_conn }
  let (bytes, err) = if Sync.get h.closing then ([], read_error) else (input, end)
  c ← echo_loop (length bytes + 1) conn (record { sent = []; waiting = 0 }) bytes
  some (after_end err k stored, c)

-- `Close` of the handler, with the clients whose `Close` it calls: `closing` is set first.
unfoldable pub close_handler : EchoHandler → EchoHandler × List ℕ
unfolding Sync.set_to
close_handler h = (record h { closing = Sync.set_to true }, h.active_conn)

read_bytes-no_line : (input : Bytes) → read_bytes input ≡ none → occ 10 input ≡ 0
unfolding read_bytes
read_bytes-no_line [] h = refl
read_bytes-no_line (c ∷ input) h = elim (Option-cases (read_bytes input)) [
  | inl e ↦ ground (arith, e, read_bytes-no_line input e)
  | inr ((m, r), e) ↦ ground (arith, e)
]

echo_line-Works :
    (conn : Conn)
    → Works conn
    → (c : EchoClient) (msg : Bytes)
    → echo_line conn c msg ≡ some (record { sent = c.sent ++ msg; waiting = c.waiting })
unfolding echo_line Sync.add Sync.done
echo_line-Works conn works c msg =
    ap (λ (o : Option Wait). o >>= (λ v. some (record { sent = (conn c.sent msg).0; waiting = v })))
      (Sync.done-add c.waiting)
    ∙ ap (λ (r : Bytes × Bool). some (record { sent = r.0; waiting = c.waiting }))
        (works c.sent msg)

-- The loop sends the input up to the end of its last line.
echo_loop-lines :
    (conn : Conn)
    → Works conn
    → (fuel : ℕ) (c : EchoClient) (input : Bytes) → length input < fuel
    → (lines rest : Bytes) × (echo_loop fuel conn c input
        ≡ some (record { sent = c.sent ++ lines; waiting = c.waiting }))
      × (input ≡ lines ++ rest)
      × (occ 10 rest ≡ 0)
unfolding echo_loop
echo_loop-lines conn works zero c input h = absurd (omega (arith, h))
echo_loop-lines conn works (suc fuel) c input h = elim (Option-cases (read_bytes input)) [
  | inl e ↦ ([], input, rw (echo_loop, e, append-nil c.sent) refl, refl, read_bytes-no_line input e)
  | inr ((msg, after), e) ↦
      let d : EchoClient = record { sent = c.sent ++ msg; waiting = c.waiting } in
      let fewer : length after < fuel = omega (arith, h, read_bytes-length input msg after e) in
      let (lines, rest, is, splits, no_line) = echo_loop-lines conn works fuel d after fewer in
      (
        msg ++ lines,
        rest,
        rw (echo_loop, e, echo_line-Works conn works c msg, is, append_assoc c.sent msg lines) refl,
        read_bytes-append input msg after e
            ∙ (ap (λ r. msg ++ r) splits ∙ sym (append_assoc msg lines rest)),
        no_line,
      )
]

-- The connections that a call of `Handle` leaves active.
abbrev pub left_active : ReadEnd → ℕ → List ℕ → List ℕ
left_active end_of_file k active = active
left_active read_error k active = k ∷ active

delete_key-absent : (k : ℕ) (xs : List ℕ) → occ k xs ≡ 0 → delete_key k xs ≡ xs
unfolding delete_key
delete_key-absent k [] h = refl
delete_key-absent k (x ∷ xs) h = ground (arith, h, delete_key-absent k xs)

after_end-left :
    (end : ReadEnd) (k : ℕ) (h : EchoHandler)
    → occ k h.active_conn ≡ 0
    → after_end end k (record h { active_conn = k ∷ h.active_conn })
      ≡ record h { active_conn = left_active end k h.active_conn }
unfolding after_end delete_key
after_end-left end_of_file k h absent =
    rw (==_refl k)
      (ap (λ a. record h { active_conn = a }) (delete_key-absent k h.active_conn absent))
after_end-left read_error k h absent = refl

pub handle-lines :
    (conn : Conn)
    → Works conn
    → (end : ReadEnd) (k : ℕ) (h : EchoHandler) (input : Bytes) → h.closing ≡ 0
    → occ k h.active_conn ≡ 0
    → (lines rest : Bytes) × (handle conn end k h input
        ≡ some (
          record h { active_conn = left_active end k h.active_conn },
          record { sent = lines; waiting = 0 },
        ))
      × (input ≡ lines ++ rest)
      × (occ 10 rest ≡ 0)
unfolding handle Sync.get
handle-lines conn works end k h input opens absent =
    let first : EchoClient = record { sent = []; waiting = 0 } in
    let (lines, rest, is, splits, no_line) =
      echo_loop-lines conn works (length input + 1) first input (omega arith) in
    let stored : EchoHandler = record h { active_conn = k ∷ h.active_conn } in
    let test : (if Sync.get h.closing then ([], read_error) else (input, end)) ≡ (input, end) =
      rw opens refl in
    let go : Bytes × ReadEnd → Option (EchoHandler × EchoClient) =
      λ p. echo_loop (length p.0 + 1) conn first p.0 >>= (λ c. some (after_end p.1 k stored, c)) in
    (
      lines,
      rest,
      ap go test
          ∙ (ap (λ (o : Option EchoClient). o >>= (λ c. some (after_end end k stored, c))) is
              ∙ ap (λ g. some (g, record { sent = lines; waiting = 0 }))
                  (after_end-left end k h absent)),
      splits,
      no_line,
    )

-- A closing handler closes a new connection and goes on: the connection is put among the active ones and
-- stays there.
pub handle-closing :
    (conn : Conn) (end : ReadEnd) (k : ℕ) (h : EchoHandler) (input : Bytes)
    → handle conn end k (close_handler h).0 input
      ≡ some (
        record { active_conn = k ∷ h.active_conn; closing = 1 },
        record { sent = []; waiting = 0 },
      )
unfolding handle close_handler Sync.get Sync.set_to echo_loop read_bytes after_end
handle-closing conn end k h input = refl
