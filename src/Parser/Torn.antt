-- ===== src/Parser/Torn.antt =====
-- A file that ends within a command, as a crash of the machine may leave it.
use go_redis.Base.{
  ℕ, zero, suc, ◌-◌, ◌<◌, ◌≡◌, refl, sym, ap, ◌∙◌, subst, inl, inr, some, List, [], ◌∷◌, ◌++◌,
  arith, Bytes, length, take, All, leb, if◌then◌else◌, leb→le, Bool-cases,
}
use go_redis.Reply.{multi_bulk, to_bytes}
use go_redis.Parser.State.{init-IsValid}
use go_redis.Parser.Tears.{IsEnd, Ends, take-first, take-past, Ends-text, Tears-command}
use go_redis.Parser.RoundTrip.{CommandIsPlain, written, commands_of, parse_from-multi_bulk}
use go_redis.Parser.{
  Err, eof, init, delivered, failed, prepend, closed, Stream, parse_from, parse_stream,
}

-- The commands that stand whole in the first `n` bytes.
abbrev pub whole : ℕ → List (List Bytes) → List (List Bytes)
whole n [] = []
whole n (line ∷ lines) =
    let size = length (to_bytes (multi_bulk line)) in
    let rest = whole (n - size) lines in if leb size n then line ∷ rest else []

abbrev pub IsTorn : Stream → List (List Bytes) → Type 0
IsTorn r lines =
    (e : Err) × IsEnd e
    × (r ≡ record { payloads = commands_of lines ++ failed e ∷ []; end = closed })

abbrev text_of : List Bytes → Bytes
text_of line = to_bytes (multi_bulk line)

take-nil : (n : ℕ) → take {A = ℕ} n [] ≡ []
take-nil zero = refl
take-nil (suc n) = refl

IsTorn-cons :
    (line : List Bytes) (rest : Bytes) (lines : List (List Bytes))
    → CommandIsPlain line
    → IsTorn (parse_from eof rest init) lines
    → IsTorn (parse_from eof (text_of line ++ rest) init) (line ∷ lines)
IsTorn-cons line rest lines (h, n, p) (e, k, q) = (
  e,
  k,
  parse_from-multi_bulk eof line rest h n p
      ∙ ap (prepend (delivered (some (multi_bulk line)) ∷ [])) q,
)

IsTorn-written :
    (lines : List (List Bytes)) (n : ℕ)
    → All CommandIsPlain lines
    → IsTorn (parse_from eof (take n (written lines)) init) (whole n lines)
IsTorn-written [] n h =
    let nothing : take {A = ℕ} n [] ≡ [] = take-nil n in
    subst (λ p. Ends p init) (sym nothing) (Ends-text [] init init-IsValid refl tt)
IsTorn-written (line ∷ lines) n (p, ps) = elim (Bool-cases (leb (length (text_of line)) n)) [
  | inl all ↦ rw all (
      subst (λ l. IsTorn (parse_from eof l init) (line ∷ whole (n - length (text_of line)) lines))
        (sym (take-past n (text_of line) (written lines) (leb→le _ n all)))
        (IsTorn-cons line (take (n - length (text_of line)) (written lines))
          (whole (n - length (text_of line)) lines) p
          (IsTorn-written lines (n - length (text_of line)) ps)))
  | inr part ↦ rw part (
      let short : n < length (text_of line) = ground (arith, part) in
      subst (λ l. IsTorn (parse_from eof l init) [])
        (sym (take-first n (text_of line) (written lines) (omega arith)))
        (Tears-command line p n short))
]

-- The first bytes of a file of plain commands are parsed into the commands that stand whole in
-- them, in order, and then into an error of the reader, on which the channel is closed.
pub parse_stream-IsTorn :
    (lines : List (List Bytes)) (n : ℕ)
    → All CommandIsPlain lines
    → IsTorn (parse_stream eof (take n (written lines))) (whole n lines)
unfolding parse_stream
parse_stream-IsTorn lines n h = IsTorn-written lines n h
