-- ===== src/Parser/Messages.antt =====
-- How one message is taken from the input: a line of text, or a counted body.
use go_redis.Base.{
  ℕ, ◌+◌, ◌≤◌, ◌≡◌, refl, sym, ap, ◌∙◌, ◌≢◌, false, some, [], ◌∷◌, ◌++◌, append_assoc, arith, Bytes,
  length, length-append, All, pos,
}
use go_redis.Strconv.{itoa}
use go_redis.Strconv.Digits.{IsDigit, itoa-IsDigit}
use go_redis.Reply.{crlf}
use go_redis.Parser.ReadLine.Progress.{
  read_text-some, read_bulk-some, read_line-text, read_line-bulk,
}
use go_redis.Parser.{
  Err, ReadState, read_bytes, read_full, bad_end, checked, buffer_size, max_alloc, chop, step,
  after_line, after_message, on_message, line,
}

abbrev pub NoLf : Bytes → Type 0
NoLf = All (λ c. c ≢ 10)

pub digits-NoLf : (s : Bytes) → All IsDigit s → NoLf s
digits-NoLf [] h = tt
digits-NoLf (c ∷ s) (d, h) = (omega arith, digits-NoLf s h)

pub itoa-NoLf : (n : ℕ) → NoLf (itoa n)
itoa-NoLf n = digits-NoLf (itoa n) (itoa-IsDigit n)

pub read_bytes-line :
    (s rest : Bytes) → NoLf s → read_bytes (s ++ (crlf ++ rest)) ≡ some (s ++ crlf, rest)
unfolding read_bytes
read_bytes-line [] rest h = refl
read_bytes-line (c ∷ s) rest (k, h) = ground (arith, read_bytes-line s rest h)

pub read_full-append : (m rest : Bytes) → read_full (length m) (m ++ rest) ≡ some (m, rest)
unfolding read_full
read_full-append [] rest = refl
read_full-append (c ∷ m) rest = ground (arith, read_full-append m rest)

pub bad_end-crlf : (s : Bytes) → bad_end (s ++ crlf) ≡ some false
unfolding bad_end
bad_end-crlf [] = refl
bad_end-crlf (a ∷ []) = refl
bad_end-crlf (a ∷ b ∷ s) = bad_end-cons b s (bad_end-crlf (b ∷ s))
  where
    bad_end-cons :
        (b : ℕ) (s : Bytes)
        → bad_end (b ∷ (s ++ crlf)) ≡ some false
        → bad_end (a ∷ b ∷ (s ++ crlf)) ≡ some false
    bad_end-cons b [] h = h
    bad_end-cons b (c ∷ s) h = h

pub chop-crlf : (s : Bytes) → chop (s ++ crlf) ≡ s
unfolding chop
chop-crlf [] = refl
chop-crlf (a ∷ []) = refl
chop-crlf (a ∷ b ∷ s) = chop-cons b s (chop-crlf (b ∷ s))
  where
    chop-cons :
        (b : ℕ) (s : Bytes)
        → chop (b ∷ (s ++ crlf)) ≡ b ∷ s
        → chop (a ∷ b ∷ (s ++ crlf)) ≡ a ∷ b ∷ s
    chop-cons b [] h = ap (λ (l : Bytes). a ∷ l) h
    chop-cons b (c ∷ s) h = ap (λ (l : Bytes). a ∷ l) h

checked-crlf :
    (s : Bytes) (e : Err) (rest : Bytes) (t : ReadState)
    → checked (s ++ crlf) e rest t ≡ line (s ++ crlf) rest t
unfolding checked
checked-crlf s e rest t = rw (bad_end-crlf s, checked)

-- A line of text is handed to the loop body whole.
pub step-text :
    (ending : Err) (s rest : Bytes) (t : ReadState)
    → NoLf s
    → t.bulk_len ≡ pos 0
    → step ending (s ++ (crlf ++ rest)) t ≡ after_message rest (on_message (s ++ crlf) t)
unfolding step after_line
step-text ending s rest t h z = ap after_line (
    read_line-text ending (s ++ (crlf ++ rest)) t z
    ∙ read_text-some ending _ (s ++ crlf) rest t (read_bytes-line s rest h)
    ∙ checked-crlf s _ rest t)

pub buffer_size-fits : (n : ℕ) → n + 2 ≤ max_alloc → buffer_size (pos n) ≡ some (n + 2)
unfolding buffer_size
buffer_size-fits n h = ground arith

-- A counted body is handed to the loop body whole, whatever bytes it holds.
pub step-bulk :
    (ending : Err) (c : ℕ) (s rest : Bytes) (t : ReadState)
    → t.bulk_len ≡ pos (length (c ∷ s))
    → length (c ∷ s) + 2 ≤ max_alloc
    → step ending (c ∷ s ++ (crlf ++ rest)) t
      ≡ after_message rest (on_message (c ∷ s ++ crlf) (record t { bulk_len = pos 0 }))
unfolding step after_line
step-bulk ending c s rest t z h =
    let whole : length (c ∷ s ++ crlf) ≡ length (c ∷ s) + 2 = length-append (c ∷ s) crlf in
    let size : buffer_size t.bulk_len ≡ some (length (c ∷ s ++ crlf)) =
      ap buffer_size z ∙ buffer_size-fits _ h ∙ ap some (sym whole) in
    let full : read_full (length (c ∷ s ++ crlf)) (c ∷ s ++ (crlf ++ rest))
        ≡ some (c ∷ s ++ crlf, rest) =
      ap (read_full (length (c ∷ s ++ crlf))) (sym (append_assoc (c ∷ s) crlf rest))
      ∙ read_full-append (c ∷ s ++ crlf) rest in
    ap after_line (
      read_line-bulk ending _ t (length s) z
      ∙ read_bulk-some ending _ (c ∷ s ++ crlf) rest t _ size full
      ∙ checked-crlf (c ∷ s) _ rest (record t { bulk_len = pos 0 }))
