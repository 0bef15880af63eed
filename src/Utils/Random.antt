-- ===== src/Utils/Random.antt =====
-- lib/utils/rand_string.go.
use go_redis.Base.{
  ℕ, zero, suc, ◌+◌, ◌≤◌, ◌<◌, ◌≡◌, refl, sym, ap, ◌∙◌, subst, ◌&&◌, Option, none, some, List, [],
  ◌∷◌, arith, Bytes, codes, length, get_elem?, set, length-set, occ, one_self, one-lt, occ-set, All,
  ltb, leb, if◌then◌else◌, ◌>>=◌, ℤ, pos, negsuc,
}

unfoldable pub letters : Bytes
letters = codes "abcdefghijklmnopqrstuvwxyzABCDEFGHIJKLMNOPQRSTUVWXYZ0123456789"

unfoldable pub hex_letters : Bytes
hex_letters = codes "0123456789abcdef"

module _ (intn : ℕ → ℕ → ℕ) where
  -- The loop over the result, from the index `i`; `intn i` is the call of Intn for that index, and
  -- `none` the panic of an index out of range.
  pick_letters : Bytes → ℕ → ℕ → Option Bytes
  pick_letters table zero i = some []
  pick_letters table (suc n) i = do
    c ← get_elem? table (intn i (length table))
    b ← pick_letters table n (suc i)
    some (c ∷ b)

  -- A negative size makes `make` panic.
  unfoldable pub rand_string : ℤ → Option Bytes
  unfolding pick_letters letters
  rand_string (pos n) = pick_letters letters n 0
  rand_string (negsuc n) = none

  unfoldable pub rand_hex_string : ℤ → Option Bytes
  unfolding pick_letters hex_letters
  rand_hex_string (pos n) = pick_letters hex_letters n 0
  rand_hex_string (negsuc n) = none

-- `result[i], result[j] = result[j], result[i]`.
unfoldable pub swap : List ℕ → ℕ → ℕ → Option (List ℕ)
swap result i j = do v ← get_elem? result i; w ← get_elem? result j; some (set (set result i w) j v)

-- The calls of `swap` that rand.Shuffle makes.
swap_all : List ℕ → List (ℕ × ℕ) → Option (List ℕ)
unfolding swap
swap_all result [] = some result
swap_all result ((i, j) ∷ calls) = do r ← swap result i j; swap_all r calls

-- `make`, and the loop that writes each index.
unfoldable pub indexes : ℕ → ℕ → List ℕ
indexes i zero = []
indexes i (suc n) = i ∷ indexes (suc i) n

unfoldable pub rand_index : (ℕ → List (ℕ × ℕ)) → ℤ → Option (List ℕ)
unfolding indexes swap_all
rand_index shuffle (pos size) = swap_all (indexes 0 size) (shuffle size)
rand_index shuffle (negsuc n) = none

-- Both indexes of a call are below the size.
abbrev pub InRange : ℕ → ℕ × ℕ → Type 0
InRange size call = (call.0 < size) × (call.1 < size)

length-indexes : (i n : ℕ) → length (indexes i n) ≡ n
unfolding indexes
length-indexes i zero = refl
length-indexes i (suc n) = omega (arith, length-indexes (suc i) n)

occ-indexes : (a i n : ℕ) → occ a (indexes i n) ≡ (if leb i a && ltb a (i + n) then 1 else 0)
unfolding indexes
occ-indexes a i zero = ground arith
occ-indexes a i (suc n) = ground (arith, occ-indexes a (suc i) n)

lt-get_elem? : (xs : List ℕ) (i : ℕ) → i < length xs → (v : ℕ) × (get_elem? xs i ≡ some v)
lt-get_elem? [] i h = elim h [ ]
lt-get_elem? (x ∷ xs) zero h = (x, refl)
lt-get_elem? (x ∷ xs) (suc i) h = lt-get_elem? xs i (omega arith)

-- The same numbers, each as often.
record Same (xs ys : List ℕ) : Type 0 where
  same_length : length xs ≡ length ys
  same_count : (a : ℕ) → occ a xs ≡ occ a ys

set-repeats :
    (xs : List ℕ) (i j w : ℕ) → get_elem? xs j ≡ some w → get_elem? (set xs i w) j ≡ some w
set-repeats [] i j w h = h
set-repeats (x ∷ xs) zero zero w h = refl
set-repeats (x ∷ xs) zero (suc j) w h = h
set-repeats (x ∷ xs) (suc i) zero w h = h
set-repeats (x ∷ xs) (suc i) (suc j) w h = set-repeats xs i j w h

swap-Same :
    (xs : List ℕ) (i j : ℕ)
    → i < length xs
    → j < length xs
    → (ys : List ℕ) × (swap xs i j ≡ some ys) × Same ys xs
unfolding swap
swap-Same xs i j hi hj =
    let (v, at_i) = lt-get_elem? xs i hi in
    let (w, at_j) = lt-get_elem? xs j hj in
    let once = set xs i w in
    (
      set once j v,
      rw (at_i, at_j) refl,
      record {
        same_length = length-set once j v ∙ length-set xs i w;
        same_count = λ a.
            omega
              (arith, occ-set a xs i v w at_i, occ-set a once j w v (set-repeats xs i j w at_j));
      },
    )

swap_all-Same :
    (calls : List (ℕ × ℕ)) (xs : List ℕ)
    → All (InRange (length xs)) calls
    → (ys : List ℕ) × (swap_all xs calls ≡ some ys) × Same ys xs
unfolding swap_all
swap_all-Same [] xs h = (xs, refl, record { same_length = refl; same_count = λ a. refl })
swap_all-Same ((i, j) ∷ calls) xs ((hi, hj), h) =
    let (zs, first, same) = swap-Same xs i j hi hj in
    let (ys, others, again) =
      swap_all-Same calls zs (subst (λ n. All (InRange n) calls) (sym same.same_length) h) in
    (
      ys,
      rw first others,
      record {
        same_length = again.same_length ∙ same.same_length;
        same_count = λ a. again.same_count a ∙ same.same_count a;
      },
    )

-- Whatever exchanges rand.Shuffle makes within the size, RandIndex returns a list of that length in which each
-- number below the size occurs once, and no other.
pub rand_index-once :
    (shuffle : ℕ → List (ℕ × ℕ)) (size : ℕ)
    → All (InRange size) (shuffle size)
    → (result : List ℕ) × (rand_index shuffle (pos size) ≡ some result)
      × (length result ≡ size)
      × ((a : ℕ) → occ a result ≡ (if ltb a size then 1 else 0))
unfolding rand_index
rand_index-once shuffle size h =
    let (r, is, same) =
      swap_all-Same (shuffle size) (indexes 0 size)
        (subst (λ n. All (InRange n) (shuffle size)) (sym (length-indexes 0 size)) h) in
    (
      r,
      is,
      same.same_length ∙ length-indexes 0 size,
      λ a. same.same_count a ∙ ground (arith, occ-indexes a 0 size),
    )

module _ (intn : ℕ → ℕ → ℕ) (below : (i n : ℕ) → 0 < n → intn i n < n) where
  pick_letters-returns :
      (table : Bytes) (n i : ℕ)
      → 0 < length table
      → (s : Bytes) × (pick_letters intn table n i ≡ some s)
        × (length s ≡ n)
        × All (λ c. 1 ≤ occ c table) s
  unfolding pick_letters
  pick_letters-returns table zero i h = ([], refl, refl, tt)
  pick_letters-returns table (suc n) i h =
      let (c, at) = lt-get_elem? table (intn i (length table)) (below i (length table) h) in
      let (s, is, long, all) = pick_letters-returns table n (suc i) h in
      (
        c ∷ s,
        rw (at, is) refl,
        ap suc long,
        (
          omega (
            arith,
            occ-set c table (intn i (length table)) c (suc c) at,
            one_self c,
            one-lt c (suc c) (omega arith),
          ),
          all,
        ),
      )

-- If Intn stays below its argument, RandString and RandHexString return a string of the length asked for, of
-- their letters alone.
pub rand_strings_lem :
    (intn : ℕ → ℕ → ℕ) (n : ℕ)
    → ((i m : ℕ) → 0 < m → intn i m < m)
    → ((s : Bytes) × (rand_string intn (pos n) ≡ some s)
        × (length s ≡ n)
        × All (λ c. 1 ≤ occ c letters) s)
      × ((s : Bytes) × (rand_hex_string intn (pos n) ≡ some s)
          × (length s ≡ n)
          × All (λ c. 1 ≤ occ c hex_letters) s)
unfolding rand_string rand_hex_string letters hex_letters
rand_strings_lem intn n below = (
  pick_letters-returns intn below letters n 0 (omega arith),
  pick_letters-returns intn below hex_letters n 0 (omega arith),
)
