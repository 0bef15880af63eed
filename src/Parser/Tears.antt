-- ===== src/Parser/Tears.antt =====
-- The first bytes of a command, without the rest: the parser waits for more and meets the end.
use go_redis.Base.{
  ℕ, zero, suc, ◌+◌, ◌-◌, ◌≤◌, ◌<◌, ◌≡◌, refl, sym, ap, ◌∙◌, subst, ◌⊎◌, inl, inr, none, some, List,
  [], ◌∷◌, ◌++◌, append_assoc, append-nil, arith, Bytes, length, take, length-append, All, pos,
}
use native.Mathlib.Decide.{dec_lt}
use go_redis.Strconv.{itoa}
use go_redis.Reply.{
  multi_bulk, crlf, to_bytes, bulk_item, multi_bulk_item, multi_bulk_items, multi_bulk_to_bytes,
}
use go_redis.Parser.Messages.{NoLf, itoa-NoLf, step-text, buffer_size-fits}
use go_redis.Parser.ReadLine.Progress.{read_line-text, read_line-bulk}
use go_redis.Parser.State.{IsValid, init-IsValid}
use go_redis.Parser.Total.{parse_from-next, parse_from-stop}
use go_redis.Parser.RoundTrip.{
  IsPlain, within, within-IsValid, content, on_length, on_header, CommandIsPlain,
}
use go_redis.Parser.{
  Err, eof, unexpected_eof, ReadState, init, failed, closed, Stream, parse_from, on_message,
  after_message, after_line, step, max_alloc, read_bytes, read_full, read_text, read_bulk,
  short_read, buffer_size, io_error,
}

-- The end of the input in the middle of a message, and nothing else.
abbrev pub IsEnd : Err → Type 0
IsEnd e = (e ≡ eof) ⊎ (e ≡ unexpected_eof)

abbrev pub ended : Err → Stream
ended e = record { payloads = failed e ∷ []; end = closed }

abbrev pub Ends : Bytes → ReadState → Type 0
Ends input s = (e : Err) × IsEnd e × (parse_from eof input s ≡ ended e)

read_bytes-none : (p : Bytes) → NoLf p → read_bytes p ≡ none
unfolding read_bytes
read_bytes-none [] h = refl
read_bytes-none (c ∷ p) (k, h) = ground (arith, read_bytes-none p h)

read_full-none : (n : ℕ) (p : Bytes) → length p < n → read_full n p ≡ none
unfolding read_full
read_full-none zero p h = absurd (omega arith)
read_full-none (suc n) [] h = refl
read_full-none (suc n) (c ∷ p) h = ground (arith, read_full-none n p)

short_read-IsEnd : (p : Bytes) → IsEnd (short_read eof p)
unfolding short_read
short_read-IsEnd [] = inl refl
short_read-IsEnd (c ∷ p) = inr refl

read_text-none :
    (p : Bytes) (s : ReadState) → read_bytes p ≡ none → read_text eof p s ≡ io_error eof
unfolding read_text
read_text-none p s e = rw (e, read_text)

read_bulk-none :
    (p : Bytes) (s : ReadState) (n : ℕ)
    → buffer_size s.bulk_len ≡ some n
    → read_full n p ≡ none
    → read_bulk eof p s ≡ io_error (short_read eof p)
unfolding read_bulk
read_bulk-none p s n z e = rw (z, e, read_bulk)

pub Ends-text : (p : Bytes) (s : ReadState) → IsValid s → s.bulk_len ≡ pos 0 → NoLf p → Ends p s
unfolding step after_line read_text
Ends-text p s v z h = (
  eof,
  inl refl,
  parse_from-stop eof p s (failed eof ∷ []) closed v
      (ap after_line (read_line-text eof p s z ∙ read_text-none p s (read_bytes-none p h))),
)

Ends-bulk :
    (p : Bytes) (s : ReadState) (k : ℕ)
    → IsValid s
    → s.bulk_len ≡ pos (suc k)
    → suc k + 2 ≤ max_alloc
    → length p < suc k + 2
    → Ends p s
unfolding step after_line read_bulk
Ends-bulk p s k v z fits h = (
  short_read eof p,
  short_read-IsEnd p,
  parse_from-stop eof p s (failed (short_read eof p) ∷ []) closed v (
      ap after_line (
        read_line-bulk eof p s k z
        ∙ read_bulk-none p s (suc k + 2) (ap buffer_size z ∙ buffer_size-fits (suc k) fits)
            (read_full-none (suc k + 2) p h))),
)

pub take-first : (n : ℕ) (xs ys : Bytes) → n ≤ length xs → take n (xs ++ ys) ≡ take n xs
take-first zero xs ys h = refl
take-first (suc n) [] ys h = absurd (omega arith)
take-first (suc n) (x ∷ xs) ys h = ap (λ (l : Bytes). x ∷ l) (take-first n xs ys (omega arith))

pub take-past :
    (n : ℕ) (xs ys : Bytes) → length xs ≤ n → take n (xs ++ ys) ≡ xs ++ take (n - length xs) ys
take-past n [] ys h = let e : n ≡ n - 0 = omega arith in ap (λ (k : ℕ). take k ys) e
take-past zero (x ∷ xs) ys h = absurd (omega arith)
take-past (suc n) (x ∷ xs) ys h =
    let e : n - length xs ≡ suc n - suc (length xs) = omega arith in
    ap (λ (l : Bytes). x ∷ l) (take-past n xs ys (omega arith) ∙ ap (λ (k : ℕ). xs ++ take k ys) e)

length-take : (n : ℕ) (xs : Bytes) → length (take n xs) ≤ n
length-take zero xs = omega arith
length-take (suc n) [] = omega arith
length-take (suc n) (x ∷ xs) = omega (arith, length-take n xs)

NoLf-take : (n : ℕ) (s : Bytes) → NoLf s → n < length s + 2 → NoLf (take n (s ++ crlf))
NoLf-take zero s h l = tt
NoLf-take (suc zero) [] h l = (omega arith, tt)
NoLf-take (suc (suc n)) [] h l = absurd (omega arith)
NoLf-take (suc n) (c ∷ s) (k, h) l = (k, NoLf-take n s h (omega arith))

-- A text that every proper prefix of ends the parser in the state `t`.
abbrev pub Tears : Bytes → ReadState → Type 0
Tears text t = (n : ℕ) → n < length text → Ends (take n text) t

Ends-next :
    (input rest : Bytes) (t u : ReadState)
    → parse_from eof input t ≡ parse_from eof rest u
    → Ends rest u
    → Ends input t
Ends-next input rest t u p (e, k, q) = (e, k, p ∙ q)

-- A text that is read whole, and what follows it.
Tears-append :
    (first rest : Bytes) (t u : ReadState)
    → Tears first t
    → ((more : Bytes) → parse_from eof (first ++ more) t ≡ parse_from eof more u)
    → Tears rest u
    → Tears (first ++ rest) t
Tears-append first rest t u tears reads after n l = elim (dec_lt n (length first)) [
  | yes short ↦ subst (λ p. Ends p t) (sym (take-first n first rest (omega arith))) (tears n short)
  | no past ↦
      subst (λ p. Ends p t) (sym (take-past n first rest (omega arith)))
        (Ends-next (first ++ take (n - length first) rest) (take (n - length first) rest) t u
          (reads (take (n - length first) rest))
          (after (n - length first) (omega (arith, length-append first rest))))
]

-- A line of text.
Tears-line :
    (s rest : Bytes) (t u : ReadState)
    → IsValid t
    → t.bulk_len ≡ pos 0
    → NoLf s
    → on_message (s ++ crlf) t ≡ some ([], u)
    → Tears rest u
    → Tears ((s ++ crlf) ++ rest) t
unfolding after_message
Tears-line s rest t u v z h on after =
    Tears-append (s ++ crlf) rest t u
      (λ n l.
        Ends-text (take n (s ++ crlf)) t v z
          (NoLf-take n s h (omega (arith, length-append s crlf))))
      (λ more.
        ap (λ (l : Bytes). parse_from eof l t) (append_assoc s crlf more)
        ∙ parse_from-next eof _ more t u [] v
            (step-text eof s more t h z ∙ ap (after_message more) on))
      after

-- The content of an argument, without what follows it.
Tears-content :
    (c : ℕ) (s : Bytes) (t : ReadState)
    → IsValid t
    → t.bulk_len ≡ pos (length (c ∷ s))
    → length (c ∷ s) + 2 ≤ max_alloc
    → Tears (c ∷ s ++ crlf) t
Tears-content c s t v z fits n l =
    Ends-bulk (take n (c ∷ s ++ crlf)) t (length s) v z fits
      (omega (arith, length-take n (c ∷ s ++ crlf), length-append (c ∷ s) crlf))

-- An argument's length line, in front of its content.
Tears-argument :
    (c : ℕ) (s rest : Bytes) (n : ℕ) (args : List Bytes)
    → length args < n
    → length (c ∷ s) + 2 ≤ max_alloc
    → Tears ((c ∷ s ++ crlf) ++ rest) (within b'*' n args (pos (length (c ∷ s))))
    → Tears (multi_bulk_item (c ∷ s) ++ rest) (within b'*' n args (pos 0))
unfolding multi_bulk_item bulk_item
Tears-argument c s rest n args h fits after =
    let digits = itoa (length (c ∷ s)) in
    let text : (b'$' ∷ digits ++ crlf) ++ ((c ∷ s ++ crlf) ++ rest)
        ≡ multi_bulk_item (c ∷ s) ++ rest =
      simp append_assoc in
    subst (λ l. Tears l (within b'*' n args (pos 0))) text
      (Tears-line (b'$' ∷ digits) ((c ∷ s ++ crlf) ++ rest) (within b'*' n args (pos 0))
        (within b'*' n args (pos (length (c ∷ s)))) (within-IsValid n 0 args h) refl
        (omega arith, itoa-NoLf (length (c ∷ s)))
        (on_length b'*' n (length s) args h (omega (arith, fits))) after)

-- The arguments of a command that are still to come.
Tears-items :
    (arg : Bytes) (todo : List Bytes) (n : ℕ) (args : List Bytes)
    → length args + length (arg ∷ todo) ≡ n
    → All IsPlain (arg ∷ todo)
    → Tears (multi_bulk_items (arg ∷ todo)) (within b'*' n args (pos 0))
unfolding multi_bulk_items
Tears-items [] todo n args h (p, ps) = absurd p
Tears-items (c ∷ s) [] n args h (p, ps) =
    let pending = within b'*' n args (pos (length (c ∷ s))) in
    Tears-argument c s [] n args (omega arith) p.1 (
      subst (λ l. Tears l pending) (sym (append-nil (c ∷ s ++ crlf)))
        (Tears-content c s pending (within-IsValid n (length (c ∷ s)) args (omega arith)) refl p.1))
Tears-items (c ∷ s) (arg ∷ todo) n args h (p, ps) =
    let pending = within b'*' n args (pos (length (c ∷ s))) in
    let longer : length (args ++ (c ∷ s) ∷ []) ≡ length args + 1 =
      length-append args ((c ∷ s) ∷ []) in
    Tears-argument c s (multi_bulk_items (arg ∷ todo)) n args (omega arith) p.1 (
      Tears-append (c ∷ s ++ crlf) (multi_bulk_items (arg ∷ todo)) pending
        (within b'*' n (args ++ (c ∷ s) ∷ []) (pos 0))
        (Tears-content c s pending (within-IsValid n (length (c ∷ s)) args (omega arith)) refl p.1)
        (λ more.
          ap (λ (l : Bytes). parse_from eof l pending) (append_assoc (c ∷ s) crlf more)
          ∙ content eof n c s more args _ [] (omega arith) p (ground (arith, longer)))
        (Tears-items arg todo n (args ++ (c ∷ s) ∷ []) (omega (arith, longer)) ps))

-- A whole command.
pub Tears-command :
    (args : List Bytes) → CommandIsPlain args → Tears (to_bytes (multi_bulk args)) init
unfolding to_bytes multi_bulk_to_bytes
Tears-command [] (h, n, p) = absurd (h refl)
Tears-command (arg ∷ args) (h, n, p) =
    let digits = itoa (length (arg ∷ args)) in
    let text : (b'*' ∷ digits ++ crlf) ++ multi_bulk_items (arg ∷ args)
        ≡ to_bytes (multi_bulk (arg ∷ args)) =
      simp append_assoc in
    subst (λ l. Tears l init) text
      (Tears-line (b'*' ∷ digits) (multi_bulk_items (arg ∷ args)) init
        (within b'*' (length (arg ∷ args)) [] (pos 0)) init-IsValid refl
        (omega arith, itoa-NoLf (length (arg ∷ args)))
        (on_header (length (arg ∷ args)) (omega arith) n)
        (Tears-items arg args (length (arg ∷ args)) [] (omega arith) p))
