-- ===== src/Handler/Connection.antt =====
-- resp/connection/conn.go.
use go_redis.Base.{◌≡◌, refl, ap, Bool, true, false, Option, some, [], ◌∷◌, Bytes, ◌>>=◌, ℤ, pos}
use go_redis.Handler.{Conn, write_bytes}
use go_redis.Sync
use go_redis.Sync.{Wait}

-- `sent` and `is_open` are those of the net.Conn. The mutex has no field, since `write` is whole.
pub record Connection : Type 0 where
  pub sent : Bytes
  pub is_open : Bool
  pub waiting_reply : Wait
  pub selected_db : ℤ

abbrev pub new_connection : Connection
new_connection = record { sent = []; is_open = true; waiting_reply = 0; selected_db = pos 0 }

-- `Write`, with whether it succeeded. `none` is a panic of the counter.
unfoldable pub write : Conn → Connection → Bytes → Option (Connection × Bool)
unfolding Sync.add Sync.done
write conn c [] = some (c, true)
write conn c (b ∷ bytes) = do
  w ← Sync.add c.waiting_reply (pos 1)
  let (sent, ok) = conn c.sent (b ∷ bytes)
  v ← Sync.done w
  some (record c { sent = sent; waiting_reply = v }, ok)

unfoldable pub get_db_index : Connection → ℤ
get_db_index c = c.selected_db

unfoldable pub select_db : Connection → ℤ → Connection
select_db c i = record c { selected_db = i }

-- `Close`: whether it waits for the end or for the time-out, the connection is closed.
unfoldable pub close : Connection → Connection
close c = record c { is_open = false }

-- `Write` never panics, waits for nothing once it has returned, and sends what `write_bytes` sends.
pub write-write_bytes :
    (conn : Conn) (c : Connection) (bytes : Bytes)
    → write conn c bytes
      ≡ some
          (record c { sent = (write_bytes conn c.sent bytes).0 }, (write_bytes conn c.sent bytes).1)
unfolding write write_bytes
write-write_bytes conn c [] = refl
write-write_bytes conn c (b ∷ bytes) =
    let (sent, ok) = conn c.sent (b ∷ bytes) in
    ap (λ (o : Option Wait). o >>= (λ v. some (record c { sent = sent; waiting_reply = v }, ok)))
      (Sync.done-add c.waiting_reply)
