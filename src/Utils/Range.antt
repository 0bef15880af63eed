-- ===== src/Utils/Range.antt =====
-- ConvertRange, which makes a Redis range of indices one of Go.
use mathlib.Core.Option
use go_redis.Base.{
  ℕ, zero, suc, ◌+◌, ◌-◌, ◌^◌, ◌≤◌, ◌<◌, min, ◌≡◌, refl, sym, ap, ◌∙◌, subst, ◌⊎◌, inl, inr, true,
  false, Option, none, some, arith, ltb, leb, if◌then◌else◌, ltb→lt, Bool-cases, ℤ, pos, negsuc,
  add_int64, add_int64-pos,
}
use go_redis.Utils.{less, neg_int64, convert_start, convert_end, out_of_range, convert_range}

-- The first index, with the last element at -1, if there is such an element.
abbrev pub first_index : ℤ → ℕ → Option ℕ
first_index (pos a) n = if ltb a n then some a else none
first_index (negsuc a) n = if ltb a n then some (n - 1 - a) else none

-- The index behind the last.
abbrev pub end_index : ℤ → ℕ → Option ℕ
end_index (pos b) n = some (min (b + 1) n)
end_index (negsuc b) n = if ltb b n then some (n - b) else none

neg_int64-pos : (n : ℕ) → suc n < 2 ^ 63 → neg_int64 (pos (suc n)) ≡ negsuc n
unfolding neg_int64
neg_int64-pos n l = ground arith

neg_int64-zero : neg_int64 (pos 0) ≡ pos 0
unfolding neg_int64
neg_int64-zero = ground arith

add_int64-negsuc : (n k : ℕ) → k < n → n < 2 ^ 63 → add_int64 (pos n) (negsuc k) ≡ pos (n - 1 - k)
unfolding add_int64
add_int64-negsuc n k l h = ground arith

-- A test of an index against minus the size.
less-neg_pos : (a n : ℕ) → n < 2 ^ 63 → less (pos a) (neg_int64 (pos n)) ≡ false
unfolding less
less-neg_pos a zero l = rw neg_int64-zero (ground arith)
less-neg_pos a (suc n) l = rw (neg_int64-pos n l) refl

less-neg_negsuc : (a n : ℕ) → n < 2 ^ 63 → less (negsuc a) (neg_int64 (pos n)) ≡ leb n a
unfolding less
less-neg_negsuc a zero l = rw neg_int64-zero (ground arith)
less-neg_negsuc a (suc n) l = rw (neg_int64-pos n l) (ground arith)

convert_start_lem :
    (z : ℤ) (n : ℕ) → n < 2 ^ 63 → convert_start z (pos n) ≡ Option.map pos (first_index z n)
unfolding convert_start
convert_start_lem (pos a) n l = rw (convert_start, less-neg_pos a n l) (unfold less in ground arith)
convert_start_lem (negsuc a) n l = elim (Bool-cases (ltb a n)) [
  | inl e ↦
      let no : less (negsuc a) (neg_int64 (pos n)) ≡ false =
        ground (arith, e, less-neg_negsuc a n l) in
      rw (convert_start, no, less, e) (ap some (add_int64-negsuc n a (ltb→lt a n e) l))
  | inr e ↦
      let yes : less (negsuc a) (neg_int64 (pos n)) ≡ true =
        ground (arith, e, less-neg_negsuc a n l) in
      rw (convert_start, yes, e) refl
]

ltb_zero : (n : ℕ) → ltb n 0 ≡ false
ltb_zero n = ground arith

convert_end_lem :
    (z : ℤ) (n : ℕ) → n < 2 ^ 63 → convert_end z (pos n) ≡ Option.map pos (end_index z n)
unfolding convert_end
convert_end_lem (pos b) n l = elim (Bool-cases (ltb b n)) [
  | inl e ↦
      let sum : min (b + 1) n ≡ b + 1 = ground (arith, e) in
      rw (convert_end, less-neg_pos b n l, less, ltb_zero b, e, sum)
        (ap some (add_int64-pos b 1 (ground (arith, e))))
  | inr e ↦
      let sum : min (b + 1) n ≡ n = ground (arith, e) in
      rw (convert_end, less-neg_pos b n l, less, ltb_zero b, e, sum) refl
]
convert_end_lem (negsuc b) n l = elim (Bool-cases (ltb b n)) [
  | inl e ↦
      let no : less (negsuc b) (neg_int64 (pos n)) ≡ false =
        ground (arith, e, less-neg_negsuc b n l) in
      let is : n - 1 - b + 1 ≡ n - b = ground (arith, e) in
      rw (convert_end, no, less, e, add_int64-negsuc n b (ltb→lt b n e) l)
        (ap some (add_int64-pos (n - 1 - b) 1 (ground (arith, e)) ∙ ap pos is))
  | inr e ↦
      let yes : less (negsuc b) (neg_int64 (pos n)) ≡ true =
        ground (arith, e, less-neg_negsuc b n l) in
      rw (convert_end, yes, e) refl
]

-- The range of two indices.
abbrev pub between : Option ℕ → Option ℕ → ℤ × ℤ
between (some s) (some e) = if ltb e s then out_of_range else (pos s, pos e)
between _ _ = out_of_range

-- For a size of an int64, ConvertRange is the range from the first index to the one behind the
-- last, and [-1, -1] if one of them is out of range or the first is greater.
pub convert_range_lem :
    (start stop : ℤ) (n : ℕ)
    → n < 2 ^ 63
    → convert_range start stop (pos n) ≡ between (first_index start n) (end_index stop n)
unfolding convert_range less
convert_range_lem start stop n l =
    ground (arith, convert_start_lem start n l, convert_end_lem stop n l)

first_index-lt : (z : ℤ) (n s : ℕ) → first_index z n ≡ some s → s < n
first_index-lt (pos a) n s e = ground (arith, e)
first_index-lt (negsuc a) n s e = ground (arith, e)

end_index-le : (z : ℤ) (n e : ℕ) → end_index z n ≡ some e → e ≤ n
end_index-le (pos b) n e h = ground (arith, h)
end_index-le (negsuc b) n e h = ground (arith, h)

-- [-1, -1], or bounds of a slice of the size.
abbrev pub IsRange : ℕ → ℤ × ℤ → Type 0
IsRange n r =
    (r ≡ out_of_range) ⊎ ((s : ℕ) × (e : ℕ) × (r ≡ (pos s, pos e)) × (s ≤ e) × (s < n) × (e ≤ n))

between-IsRange :
    (n : ℕ) (o p : Option ℕ)
    → ((s : ℕ) → o ≡ some s → s < n)
    → ((e : ℕ) → p ≡ some e → e ≤ n)
    → IsRange n (between o p)
between-IsRange n none p h k = inl refl
between-IsRange n (some s) none h k = inl refl
between-IsRange n (some s) (some e) h k = elim (Bool-cases (ltb e s)) [
  | inl l ↦ inl (rw l refl)
  | inr l ↦ inr (s, e, rw l refl, ground (arith, l), h s refl, k e refl)
]

-- For a size of an int64, ConvertRange returns [-1, -1], or bounds that a slice of that size has,
-- in order, the lower one an index of it.
pub convert_range-IsRange :
    (start stop : ℤ) (n : ℕ) → n < 2 ^ 63 → IsRange n (convert_range start stop (pos n))
convert_range-IsRange start stop n l = subst (IsRange n) (sym (convert_range_lem start stop n l)) (
    between-IsRange n (first_index start n) (end_index stop n) (first_index-lt start n)
      (end_index-le stop n))
