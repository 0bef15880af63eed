-- ===== src/Parser/State.antt =====
-- The invariant of the parser's state between two rounds of its loop.
use go_redis.Base.{
  ◌<◌, ◌≡◌, refl, inl, inr, true, false, ◌||◌, Option, none, some, [], ◌∷◌, arith, Bytes, length,
  length-append, ◌==◌, Bool-cases, ℤ, pos, negsuc,
}
use go_redis.Parser.{
  ReadState, init, chop, parse_muti_bulk_header, parse_bulk_header, after_muti_header,
  after_bulk_header, after_body, body_line, on_message, Round,
}

abbrev pub NonNeg : ℤ → Type 0
NonNeg (pos n) = Unit
NonNeg (negsuc n) = ⊥

-- Outside a command no length is pending; within one there is an argument left to read.
pub record IsValid (s : ReadState) : Type 0 where
  pub nonneg : NonNeg s.bulk_len
  pub fresh : s.reading_multi_line ≡ false → s.bulk_len ≡ pos 0
  pub room : s.reading_multi_line ≡ true → length s.args < s.expected_args_count
  pub kind : s.reading_multi_line ≡ true → (s.msg_type == b'*' || s.msg_type == b'$') ≡ true

pub init-IsValid : IsValid init
init-IsValid = record { nonneg = tt; fresh = λ _. refl; room = λ e. cc; kind = λ e. cc }

-- What `on_message` gives back keeps the invariant.
abbrev pub RoundIsValid : Option Round → Type 0
RoundIsValid none = Unit
RoundIsValid (some (ps, t)) = IsValid t

muti_header-IsValid :
    (msg : Bytes) (s : ReadState)
    → IsValid s
    → s.bulk_len ≡ pos 0
    → IsValid (after_muti_header (parse_muti_bulk_header msg s)).1
unfolding after_muti_header parse_muti_bulk_header
muti_header-IsValid msg s v z = ground (arith, init-IsValid)

bulk_header-IsValid :
    (msg : Bytes) (s : ReadState)
    → IsValid s
    → IsValid (after_bulk_header msg (parse_bulk_header msg s)).1
unfolding after_bulk_header parse_bulk_header
bulk_header-IsValid msg s v = ground (arith, init-IsValid)

body-IsValid :
    (msg str : Bytes) (s : ReadState)
    → IsValid s
    → s.reading_multi_line ≡ true
    → s.bulk_len ≡ pos 0
    → RoundIsValid (after_body msg (body_line msg str s))
unfolding after_body body_line
body-IsValid msg [] s v r z = tt
body-IsValid msg (c ∷ str) s v r z =
    ground
      (arith, init-IsValid, length-append s.args ((c ∷ str) ∷ []), length-append s.args ([] ∷ []))

pub on_message-IsValid :
    (msg : Bytes) (s : ReadState) → IsValid s → s.bulk_len ≡ pos 0 → RoundIsValid (on_message msg s)
unfolding on_message
on_message-IsValid [] s v z = tt
on_message-IsValid (c ∷ msg) s v z = elim (Bool-cases s.reading_multi_line) [
  | inl r ↦ simp r (body-IsValid (c ∷ msg) (chop (c ∷ msg)) s v r z)
  | inr r ↦ rw r (
      ground (
        arith,
        init-IsValid,
        muti_header-IsValid (c ∷ msg) s v z,
        bulk_header-IsValid (c ∷ msg) s v,
      ))
]
