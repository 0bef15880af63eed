-- ===== src/Parser/ReadLine/Progress.antt =====
-- `readLine` takes at least one byte from the input, or stops the parser.
use go_redis.Base.{
  ℕ, zero, suc, ◌+◌, ◌<◌, ◌≡◌, refl, sym, ap, subst, inl, inr, some, [], ◌∷◌, ◌++◌, arith, Bytes,
  codes, length, leb, Bool-cases, Option-cases, pos,
}
use go_redis.Parser.ReadLine.{
  Err, message, ReadState, Line, line, io_error, bad_line, panic, read_line, read_bytes, read_full,
  buffer_size, checked, read_text, read_bulk, max_alloc, by_length,
}

-- The bytes that `ReadBytes` and `ReadFull` return stood at the front of the input.
pub read_bytes-append :
    (input msg rest : Bytes) → read_bytes input ≡ some (msg, rest) → input ≡ msg ++ rest
unfolding read_bytes
read_bytes-append [] msg rest h = cc
read_bytes-append (c ∷ input) msg rest h = elim (Option-cases (read_bytes input)) [
  | inl e ↦ ground (arith, e)
  | inr ((m, r), e) ↦ ground (arith, e, read_bytes-append input m r e)
]

pub read_bytes-length :
    (input msg rest : Bytes) → read_bytes input ≡ some (msg, rest) → length rest < length input
unfolding read_bytes
read_bytes-length [] msg rest h = cc
read_bytes-length (c ∷ input) msg rest h = elim (Option-cases (read_bytes input)) [
  | inl e ↦ ground (arith, e)
  | inr ((m, r), e) ↦ ground (arith, e, read_bytes-length input m r e)
]

pub read_full-length :
    (n : ℕ) (input msg rest : Bytes)
    → read_full n input ≡ some (msg, rest)
    → (length input ≡ n + length rest) × (length msg ≡ n)
unfolding read_full
read_full-length zero input msg rest h = ground arith
read_full-length (suc n) [] msg rest h = cc
read_full-length (suc n) (c ∷ input) msg rest h = elim (Option-cases (read_full n input)) [
  | inl e ↦ ground (arith, e)
  | inr ((m, r), e) ↦ ground (arith, e, read_full-length n input m r e)
]

-- A message takes a byte at least and leaves no length pending; so does a bad line.
abbrev pub LineTakes : Bytes → ReadState → Line → Type 0
LineTakes input s (line msg rest t) =
    (length rest < length input) × (t ≡ record s { bulk_len = pos 0 })
LineTakes input s (bad_line e rest) = length rest < length input
LineTakes input s (io_error e) = Unit
LineTakes input s panic = Unit

checked-takes :
    (msg : Bytes) (e : Err) (rest input : Bytes) (s t : ReadState)
    → length rest < length input
    → t ≡ record s { bulk_len = pos 0 }
    → LineTakes input s (checked msg e rest t)
unfolding checked
checked-takes msg e rest input s t h k = ground arith

-- The steps of the two readers, as equations.
pub read_text-some :
    (ending : Err) (input m r : Bytes) (s : ReadState)
    → read_bytes input ≡ some (m, r)
    → read_text ending input s
      ≡ checked m (message (codes "protocol error:must end with \\r\\n")) r s
unfolding read_text
read_text-some ending input m r s e = rw (e, read_text)

pub read_bulk-some :
    (ending : Err) (input m r : Bytes) (s : ReadState) (n : ℕ)
    → buffer_size s.bulk_len ≡ some n
    → read_full n input ≡ some (m, r)
    → read_bulk ending input s
      ≡ checked m
          (message (codes "protocol error:invalid bulk format, must end with \\r\\n"))
          r
          (record s { bulk_len = pos 0 })
unfolding read_bulk
read_bulk-some ending input m r s n z e = rw (z, e, read_bulk)

pub read_line-text :
    (ending : Err) (input : Bytes) (s : ReadState)
    → s.bulk_len ≡ pos 0
    → read_line ending input s ≡ read_text ending input s
unfolding read_line
read_line-text ending input s z = ap (λ k. by_length k ending input s) z

pub read_line-bulk :
    (ending : Err) (input : Bytes) (s : ReadState) (n : ℕ)
    → s.bulk_len ≡ pos (suc n)
    → read_line ending input s ≡ read_bulk ending input s
unfolding read_line
read_line-bulk ending input s n z = ap (λ k. by_length k ending input s) z

read_text-takes :
    (ending : Err) (input : Bytes) (s : ReadState)
    → s.bulk_len ≡ pos 0
    → LineTakes input s (read_text ending input s)
read_text-takes ending input s z = elim (Option-cases (read_bytes input)) [
  | inl e ↦ unfold read_text in rw (e, LineTakes, read_text) tt
  | inr ((m, r), e) ↦
      subst (LineTakes input s) (sym (read_text-some ending input m r s e))
        (checked-takes m _ r input s s (read_bytes-length input m r e) (ground arith))
]

bulk-takes :
    (ending : Err) (input : Bytes) (s : ReadState) (n : ℕ)
    → buffer_size s.bulk_len ≡ some (suc n)
    → LineTakes input s (read_bulk ending input s)
unfolding read_bulk
bulk-takes ending input s n z = elim (Option-cases (read_full (suc n) input)) [
  | inl e ↦ rw (z, e, LineTakes, read_bulk) tt
  | inr ((m, r), e) ↦
      subst (LineTakes input s) (sym (read_bulk-some ending input m r s (suc n) z e)) (
        checked-takes m _ r input s _ (omega (arith, (read_full-length (suc n) input m r e).0))
          refl)
]

read_bulk-takes :
    (ending : Err) (input : Bytes) (s : ReadState) (n : ℕ)
    → s.bulk_len ≡ pos n
    → LineTakes input s (read_bulk ending input s)
read_bulk-takes ending input s n z = elim (Bool-cases (leb (n + 2) max_alloc)) [
  | inl e ↦ bulk-takes ending input s (n + 1) (unfold buffer_size in ground (arith, z, e))
  | inr e ↦ unfold read_bulk buffer_size in rw (z, e, LineTakes, read_bulk, buffer_size) tt
]

-- With no negative length pending, every round of the parser takes input or ends.
pub read_line-takes :
    (ending : Err) (input : Bytes) (s : ReadState) (n : ℕ)
    → s.bulk_len ≡ pos n
    → LineTakes input s (read_line ending input s)
read_line-takes ending input s zero z =
    subst (LineTakes input s) (sym (read_line-text ending input s z))
      (read_text-takes ending input s z)
read_line-takes ending input s (suc n) z =
    subst (LineTakes input s) (sym (read_line-bulk ending input s n z))
      (read_bulk-takes ending input s (suc n) z)
