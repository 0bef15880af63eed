-- ===== src/Strconv/RoundTrip.antt =====
-- Reading a printed number gives it back.
use go_redis.Base.{
  ℕ, zero, suc, ◌+◌, ◌-◌, ◌/◌, ◌%◌, ◌^◌, ◌≤◌, ◌<◌, ◌≡◌, refl, ◌≢◌, false, some, [], ◌∷◌, arith,
  Bytes, All, ℤ, pos, negsuc, IsInt64,
}
use go_redis.Strconv.{emit, itoa, format_int, scan, parse_uint, signed, parse_int}
use go_redis.Strconv.Digits.{IsDigit, itoa-IsDigit, itoa-ne-nil}

scan_last :
    (limit n : ℕ) (out : Bytes)
    → n ≤ limit
    → scan limit ((b'0' + n % 10) ∷ out) (n / 10) ≡ scan limit out n
unfolding scan
scan_last limit n out h = ground arith

scan-emit :
    (limit f n : ℕ) (out : Bytes)
    → n ≤ limit
    → n ≤ f
    → scan limit (emit f n out) 0 ≡ scan limit out n
unfolding emit
scan-emit limit zero zero out h k = refl
scan-emit limit zero (suc n) out h k = absurd (omega arith)
scan-emit limit (suc f) n out h k =
    ground (arith, scan-emit limit f (n / 10) ((b'0' + n % 10) ∷ out), scan_last limit n out)

scan-itoa : (limit n : ℕ) → n ≤ limit → scan limit (itoa n) 0 ≡ some n
unfolding itoa scan
scan-itoa limit n h = ground (arith, scan-emit limit n n [] h)

parse_uint-scan : (bits : ℕ) (s : Bytes) → s ≢ [] → parse_uint bits s ≡ scan (2 ^ bits - 1) s 0
unfolding parse_uint
parse_uint-scan bits [] h = absurd (h refl)
parse_uint-scan bits (c ∷ s) h = refl

-- ParseUint reads back every printed number that fits the width.
pub parse_uint-itoa : (bits n : ℕ) → n ≤ 2 ^ bits - 1 → parse_uint bits (itoa n) ≡ some n
parse_uint-itoa bits n h = rw (parse_uint-scan bits (itoa n) (itoa-ne-nil n)) (scan-itoa _ n h)

-- A text that begins with a digit has no sign.
parse_int-unsigned :
    (s : Bytes) → s ≢ [] → All IsDigit s → parse_int s ≡ signed false (parse_uint 64 s)
unfolding parse_int
parse_int-unsigned [] h d = absurd (h refl)
parse_int-unsigned (c ∷ s) h d = ground arith

pub parse_int-itoa : (n : ℕ) → n < 2 ^ 63 → parse_int (itoa n) ≡ some (pos n)
unfolding signed
parse_int-itoa n h =
    rw
      (
        parse_int-unsigned (itoa n) (itoa-ne-nil n) (itoa-IsDigit n),
        parse_uint-itoa 64 n (omega arith),
      )
      (ground arith)

parse_int-minus : (n : ℕ) → n < 2 ^ 63 → parse_int (b'-' ∷ itoa (suc n)) ≡ some (negsuc n)
unfolding parse_int
parse_int-minus n h = rw (parse_uint-itoa 64 (suc n) (omega arith)) (ground arith)

-- ParseInt reads back every int64 that FormatInt prints.
pub parse_int-format_int : (z : ℤ) → IsInt64 z → parse_int (format_int z) ≡ some z
unfolding format_int
parse_int-format_int (pos n) h = parse_int-itoa n h
parse_int-format_int (negsuc n) h = parse_int-minus n h
