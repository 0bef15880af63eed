-- ===== src/Strconv/Digits.antt =====
-- The shape of printed numbers: one or more decimal digits.
use go_redis.Base.{
  ℕ, zero, suc, ◌+◌, ◌/◌, ◌%◌, ◌≤◌, [], ◌∷◌, ◌≢◌, arith, Bytes, All, length, ◌==◌, Bool-cases, inl,
  inr,
}
use go_redis.Strconv.{emit, itoa}

abbrev pub IsDigit : ℕ → Type 0
IsDigit c = (b'0' ≤ c) × (c ≤ b'9')

emit-IsDigit : (f n : ℕ) (out : Bytes) → All IsDigit out → All IsDigit (emit f n out)
unfolding emit
emit-IsDigit zero n out h = h
emit-IsDigit (suc f) n out h = elim (Bool-cases (n == 0)) [
  | inl e ↦ rw e h
  | inr e ↦ rw e (emit-IsDigit f (n / 10) ((b'0' + n % 10) ∷ out) (omega arith, h))
]

-- Every byte of a printed number is a decimal digit.
pub itoa-IsDigit : (n : ℕ) → All IsDigit (itoa n)
unfolding itoa
itoa-IsDigit n = elim (Bool-cases (n == 0)) [
  | inl e ↦ rw e (omega arith)
  | inr e ↦ rw e (emit-IsDigit n n [] tt)
]

emit-ne-nil : (f n : ℕ) (out : Bytes) → out ≢ [] → emit f n out ≢ []
unfolding emit
emit-ne-nil zero n out h = h
emit-ne-nil (suc f) n out h = elim (Bool-cases (n == 0)) [
  | inl e ↦ rw e h
  | inr e ↦ rw e (emit-ne-nil f (n / 10) ((b'0' + n % 10) ∷ out) (λ p. cc))
]

pub itoa-ne-nil : (n : ℕ) → itoa n ≢ []
unfolding itoa emit
itoa-ne-nil zero = λ p. cc
itoa-ne-nil (suc n) =
    ground (arith, emit-ne-nil n (suc n / 10) ((b'0' + suc n % 10) ∷ []) (λ p. cc))

length-emit : (f n : ℕ) (out : Bytes) → length (emit f n out) ≤ length out + n
unfolding emit
length-emit zero n out = omega arith
length-emit (suc f) n out = elim (Bool-cases (n == 0)) [
  | inl e ↦ rw e (omega arith)
  | inr e ↦ rw e (ground (arith, e, length-emit f (n / 10) ((b'0' + n % 10) ∷ out)))
]

-- A number has no more digits than its value, or one.
pub length-itoa : (n : ℕ) → length (itoa n) ≤ n + 1
unfolding itoa
length-itoa n = ground (arith, length-emit n n [])
