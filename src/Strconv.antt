-- ===== src/Strconv.antt =====
-- The decimal conversions of Go's `strconv`, as far as the program uses them: `Itoa`, `FormatInt`,
-- `ParseUint`, `ParseInt` and `Atoi`, all in base 10. A failed conversion is `none`: the callers
-- look only at whether there is an error.
pub mod Digits
pub mod RoundTrip
use go_redis.Base.{
  ℕ, zero, suc, ◌+◌, ◌-◌, ◌*◌, ◌/◌, ◌%◌, ◌^◌, ◌≤◌, ◌<◌, min, max, ◌≡◌, refl, sym, ap, ◌∙◌, subst,
  ◌≡⟨◌⟩◌, ◌∎, ◌≢◌, ◌↔◌, ◌⊎◌, inl, inr, Bool, true, false, not, ◌&&◌, ◌||◌, Option, none, some, List,
  [], ◌∷◌, ◌++◌, map, append_assoc, append-nil, arith, Bytes, codes, bytes_eq, bytes_eq_refl,
  bytes_eq→eq, bytes_eq_iff, bytes_eq_of_ne, length, get_elem?, set, replicate, take, length-append,
  length-set, get_elem?-set_self, get_elem?-set_ne, set-get_elem?, set-set, get_elem?-lt, All,
  All-append, ltb, leb, ◌==◌, if◌then◌else◌, ltb→lt, lt→ltb, leb→le, ==_iff, ==_refl, Bool-cases,
  Option-cases, ◌>>=◌, ℤ, pos, negsuc, IsInt64,
}

-- One round for each digit, at most `fuel` of them.
emit : ℕ → ℕ → Bytes → Bytes
emit zero n out = out
emit (suc f) n out =
    let rest = emit f (n / 10) ((b'0' + n % 10) ∷ out) in if n == 0 then out else rest

-- A number has at most as many digits as its value, so this fuel is enough.
unfoldable pub itoa : ℕ → Bytes
unfolding emit
itoa n = if n == 0 then b'0' ∷ [] else emit n n []

unfoldable pub format_int : ℤ → Bytes
format_int (pos n) = itoa n
format_int (negsuc n) = b'-' ∷ itoa (suc n)

-- The digits of `s` behind the value `n`, refused above `limit`.
scan : ℕ → Bytes → ℕ → Option ℕ
scan limit [] n = some n
scan limit (c ∷ s) n =
    let m = n * 10 + (c - b'0') in
    let rest = scan limit s m in
    if ltb c b'0' || ltb b'9' c then none else if ltb limit m then none else rest

-- `ParseUint(s, 10, bits)`.
unfoldable pub parse_uint : ℕ → Bytes → Option ℕ
unfolding scan
parse_uint bits [] = none
parse_uint bits (c ∷ s) = scan (2 ^ bits - 1) (c ∷ s) 0

negate : ℕ → ℤ
negate zero = pos zero
negate (suc n) = negsuc n

unfoldable pub signed : Bool → Option ℕ → Option ℤ
unfolding negate
signed minus none = none
signed true (some n) = if ltb (2 ^ 63) n then none else some (negate n)
signed false (some n) = if ltb n (2 ^ 63) then some (pos n) else none

-- `ParseInt(s, 10, 64)` and `Atoi(s)`: an optional sign, then a uint64 in range.
unfoldable pub parse_int : Bytes → Option ℤ
unfolding signed parse_uint
parse_int [] = none
parse_int (c ∷ s) =
    if c == b'+'
    then signed false (parse_uint 64 s)
    else if c == b'-'
    then signed true (parse_uint 64 s)
    else signed false (parse_uint 64 (c ∷ s))

itoa_large : itoa 18446744073709551615 ≡ codes "18446744073709551615"
unfolding itoa
itoa_large = refl

parse_int_cases :
    (parse_int (codes "-12") ≡ some (negsuc 11))
    × (parse_int (codes "+007") ≡ some (pos 7))
    × (parse_int (codes "9223372036854775808") ≡ none)
    × (parse_int (codes "-9223372036854775808") ≡ some (negsuc 9223372036854775807))
    × (parse_int (codes "1x") ≡ none)
    × (parse_int (codes "-") ≡ none)
unfolding parse_int
parse_int_cases = (refl, refl, refl, refl, refl, refl)
