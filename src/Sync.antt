-- ===== src/Sync.antt =====
-- lib/sync/atomic/bool.go and lib/sync/wait/wait.go.
use go_redis.Base.{
  ◌≤◌, ℕ, suc, ◌+◌, ◌-◌, ◌≡◌, Bool, true, false, not, ◌||◌, Option, none, some, List, [], ◌∷◌,
  arith, ltb, ◌==◌, if◌then◌else◌, ◌>>=◌, ℤ, pos, negsuc,
}

-- `Boolean`: a uint32, which is read and written whole.
abbrev pub Boolean : Type 0
Boolean = ℕ

unfoldable pub get : Boolean → Bool
get b = not (b == 0)

unfoldable pub set_to : Bool → Boolean
set_to v = if v then 1 else 0

-- The counter of a `Wait`. `none` is the panic of a counter below zero.
abbrev pub Wait : Type 0
Wait = ℕ

unfoldable pub add : Wait → ℤ → Option Wait
add w (pos n) = some (w + n)
add w (negsuc n) = if ltb w (suc n) then none else some (w - suc n)

unfoldable pub done : Wait → Option Wait
unfolding add
done w = add w (negsuc 0)

-- Whether a call of `WaitWithTimeout` may return the result, by the counters seen up to the time-out:
-- `false` needs a counter that was zero.
unfoldable pub may_return : List Wait → Bool → Bool
may_return seen true = true
may_return [] false = false
may_return (w ∷ seen) false = w == 0 || may_return seen false

-- A Done behind an Add of 1 leaves the counter as it was.
pub done-add : (w : Wait) → (add w (pos 1) >>= done) ≡ some w
unfolding add done
done-add w = ground arith

-- A counter above zero goes down without a panic.
pub done-positive : (w : Wait) → 1 ≤ w → done w ≡ some (w - 1)
unfolding add done
done-positive w h = ground (arith, h)
