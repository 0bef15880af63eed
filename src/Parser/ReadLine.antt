-- ===== src/Parser/ReadLine.antt =====
-- The parser's state, and `readLine`.
pub mod Progress
use go_redis.Base.{
  ℕ, zero, suc, ◌+◌, ◌-◌, ◌*◌, ◌/◌, ◌%◌, ◌^◌, ◌≤◌, ◌<◌, min, max, ◌≡◌, refl, sym, ap, ◌∙◌, subst,
  ◌≡⟨◌⟩◌, ◌∎, ◌≢◌, ◌↔◌, ◌⊎◌, inl, inr, Bool, true, false, not, ◌&&◌, ◌||◌, Option, none, some, List,
  [], ◌∷◌, ◌++◌, map, append_assoc, append-nil, arith, Bytes, codes, bytes_eq, bytes_eq_refl,
  bytes_eq→eq, bytes_eq_iff, bytes_eq_of_ne, length, get_elem?, set, replicate, take, length-append,
  length-set, get_elem?-set_self, get_elem?-set_ne, set-get_elem?, set-set, get_elem?-lt, All,
  All-append, ltb, leb, ◌==◌, if◌then◌else◌, ltb→lt, lt→ltb, leb→le, ==_iff, ==_refl, Bool-cases,
  Option-cases, ◌>>=◌, ℤ, pos, negsuc, IsInt64,
}

-- The errors of the parser and of its reader.
pub data Err : Type 0 where
  eof unexpected_eof : Err
  message : Bytes → Err

pub record ReadState : Type 0 where
  pub reading_multi_line : Bool
  pub expected_args_count : ℕ
  pub msg_type : ℕ
  pub args : List Bytes
  pub bulk_len : ℤ

-- `readState{}`
abbrev pub init : ReadState
init = record {
  reading_multi_line = false;
  expected_args_count = 0;
  msg_type = 0;
  args = [];
  bulk_len = pos 0;
}

abbrev more : ℕ → Option (Bytes × Bytes) → Option (Bytes × Bytes)
more c none = none
more c (some (msg, rest)) = some (c ∷ msg, rest)

-- `ReadBytes('\n')`: the bytes up to the line feed, and what is left; `none` at the end of input.
unfoldable pub read_bytes : Bytes → Option (Bytes × Bytes)
read_bytes [] = none
read_bytes (c ∷ input) =
    let tail = read_bytes input in if c == 10 then some (10 ∷ [], input) else more c tail

-- `io.ReadFull` into a buffer of `n` bytes.
unfoldable pub read_full : ℕ → Bytes → Option (Bytes × Bytes)
read_full zero input = some ([], input)
read_full (suc n) [] = none
read_full (suc n) (c ∷ input) = more c (read_full n input)

-- The test on the end of a message: whether it is wrong. A message of one byte is indexed at -1.
unfoldable pub bad_end : Bytes → Option Bool
bad_end [] = some true
bad_end (c ∷ []) = none
bad_end (a ∷ b ∷ []) = some (not (a == 13 && b == 10))
bad_end (a ∷ b ∷ c ∷ s) = bad_end (b ∷ c ∷ s)

-- The largest slice that the runtime makes (amd64); `make` of more, or of less than 0, panics.
abbrev pub max_alloc : ℕ
max_alloc = 2 ^ 48

-- `make([]byte, bulkLen+2)`
unfoldable pub buffer_size : ℤ → Option ℕ
buffer_size (pos n) = if leb (n + 2) max_alloc then some (n + 2) else none
buffer_size (negsuc zero) = some 1
buffer_size (negsuc (suc zero)) = some 0
buffer_size (negsuc (suc (suc n))) = none

-- What `ReadFull` returns on a short read.
unfoldable pub short_read : Err → Bytes → Err
short_read ending [] = ending
short_read eof (_ ∷ _) = unexpected_eof
short_read ending (_ ∷ _) = ending

pub data Line : Type 0 where
  line : Bytes → Bytes → ReadState → Line
  io_error : Err → Line
  bad_line : Err → Bytes → Line
  panic : Line

unfoldable pub checked : Bytes → Err → Bytes → ReadState → Line
unfolding bad_end
checked msg e rest s = elim (bad_end msg) [
  | none ↦ panic
  | some true ↦ bad_line e rest
  | some false ↦ line msg rest s
]

unfoldable pub read_text : Err → Bytes → ReadState → Line
unfolding read_bytes checked
read_text ending input s = elim (read_bytes input) [
  | none ↦ io_error ending
  | some (msg, rest) ↦ checked msg (message (codes "protocol error:must end with \\r\\n")) rest s
]

unfoldable pub read_bulk : Err → Bytes → ReadState → Line
unfolding read_full checked buffer_size short_read
read_bulk ending input s = elim (buffer_size s.bulk_len) [
  | none ↦ panic
  | some n ↦ elim (read_full n input) [
    | none ↦ io_error (short_read ending input)
    | some (msg, rest) ↦
        checked msg (message (codes "protocol error:invalid bulk format, must end with \\r\\n"))
          rest (record s { bulk_len = pos 0 })
  ]
]

-- The test on `bulkLen`.
by_length : ℤ → Err → Bytes → ReadState → Line
unfolding read_text read_bulk
by_length (pos zero) ending input s = read_text ending input s
by_length _ ending input s = read_bulk ending input s

-- `readLine`: a line of text, or as many bytes as the last length said.
unfoldable pub read_line : Err → Bytes → ReadState → Line
unfolding by_length
read_line ending input s = by_length s.bulk_len ending input s
