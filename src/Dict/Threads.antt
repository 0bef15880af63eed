-- ===== src/Dict/Threads.antt =====
-- datastruct/dict/sync_dict.go: the operations of goroutines, one operation of sync.Map at a time.
use go_redis.Base.{
  ℕ, zero, suc, ◌+◌, ◌≡◌, ap, Bool, true, false, ◌&&◌, some, List, [], ◌∷◌, arith, Bytes, get_elem?,
  set, if◌then◌else◌,
}
use go_redis.Dict.{Dict, load, store, delete, load_or_store, is_some}

pub data Call (V : Type 0) : Type 0 where
  put put_if_absent put_if_exists : Bytes → V → Call V
  remove : Bytes → Call V

-- A goroutine at the start of an operation, behind its first access with `existed`, or returned.
pub data Thread (V : Type 0) : Type 0 where
  called : Call V → Thread V
  loaded : Call V → Bool → Thread V
  returned : ℕ → Thread V

module _ {V : Type 0} where
  abbrev pub call_key : Call V → Bytes
  call_key (put k v) = k
  call_key (put_if_absent k v) = k
  call_key (put_if_exists k v) = k
  call_key (remove k) = k

  -- The first access: `LoadOrStore` for `PutIfAbsent`, else `Load`.
  unfoldable pub first_access : Call V → Dict V → Thread V × Dict V
  first_access (put_if_absent k v) m =
      let (m', _, existed) = load_or_store k v m in (loaded (put_if_absent k v) existed, m')
  first_access c m = (loaded c (is_some (load (call_key c) m)), m)

  -- The rest of the operation: the test of `existed` and at most one access.
  unfoldable pub second_access : Call V → Bool → Dict V → Thread V × Dict V
  second_access (put k v) existed m = (returned (if existed then 0 else 1), store k v m)
  second_access (put_if_absent k v) existed m =
      if existed then (returned 0, m) else (returned 1, store k v m)
  second_access (put_if_exists k v) existed m =
      if existed then (returned 1, store k v m) else (returned 0, m)
  second_access (remove k) existed m = if existed then (returned 1, delete k m) else (returned 0, m)

  unfoldable pub move : Thread V → Dict V → Thread V × Dict V
  unfolding first_access second_access
  move (called c) m = first_access c m
  move (loaded c existed) m = second_access c existed m
  move (returned n) m = (returned n, m)

  -- The goroutines on one map, in the states that any interleaving reaches.
  pub data Reach (ts : List (Thread V)) (m : Dict V) : List (Thread V) → Dict V → Type 0 where
    start : Reach ts m ts m
    step :
        {us : List (Thread V)} {n : Dict V} (i : ℕ) (t : Thread V)
        → Reach ts m us n
        → get_elem? us i ≡ some t
        → Reach ts m (set us i (move t n).0) (move t n).1

  -- Whether the goroutine has added its key, or has only to store it again.
  abbrev pub wins : Thread V → ℕ
  wins (loaded (put_if_absent k v) false) = 1
  wins (returned (suc n)) = 1
  wins _ = 0

  abbrev pub winners : List (Thread V) → ℕ
  winners [] = 0
  winners (t ∷ ts) = wins t + winners ts

  pub winners-set :
      (ts : List (Thread V)) (i : ℕ) (t u : Thread V)
      → get_elem? ts i ≡ some t
      → winners (set ts i u) + wins t ≡ winners ts + wins u
  winners-set [] i t u e = cc
  winners-set (x ∷ ts) zero t u e = let same : wins x ≡ wins t = ap wins (cc) in omega (arith, same)
  winners-set (x ∷ ts) (suc i) t u e = omega (arith, winners-set ts i t u e)

  abbrev pub is_returned : Thread V → Bool
  is_returned (returned n) = true
  is_returned _ = false

  abbrev pub all_returned : List (Thread V) → Bool
  all_returned [] = true
  all_returned (t ∷ ts) = is_returned t && all_returned ts
