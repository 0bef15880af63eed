-- ===== src/Parser/RoundTrip.antt =====
-- Reading back the commands that `MultiBulkReply.ToBytes` writes.
use go_redis.Base.{
  ℕ, zero, suc, ◌+◌, ◌^◌, ◌≤◌, ◌<◌, ◌≡◌, refl, ap, ◌∙◌, ◌≢◌, true, ◌&&◌, Option, some, List, [],
  ◌∷◌, ◌++◌, append_assoc, append-nil, arith, Bytes, length, length-append, All, ltb, ◌==◌,
  if◌then◌else◌, ℤ, pos,
}
use go_redis.Strconv.{itoa, parse_uint}
use go_redis.Strconv.RoundTrip.{parse_int-itoa, parse_uint-itoa}
use go_redis.Reply.{
  multi_bulk, crlf, to_bytes, bulk_item, multi_bulk_item, multi_bulk_items, multi_bulk_to_bytes,
}
use go_redis.Parser.Messages.{itoa-NoLf, chop-crlf, step-text, step-bulk}
use go_redis.Parser.State.{IsValid, init-IsValid}
use go_redis.Parser.Total.{parse_from-next}
use go_redis.Parser.{
  Err, ReadState, init, Payload, delivered, prepend, parse_from, parse_stream, on_message,
  after_message, step, max_alloc, body_line, Round, after_body, set_count, after_muti_header,
  closed, failed, parse0, after_line, read_line, read_text, read_bytes,
}

-- What comes back unchanged: an argument that is not empty, does not begin with `$`, and fits a
-- buffer.
abbrev pub IsPlain : Bytes → Type 0
IsPlain [] = ⊥
IsPlain (c ∷ s) = (c ≢ b'$') × (length (c ∷ s) + 2 ≤ max_alloc)

-- The state within a command of `n` arguments, `args` of them read.
abbrev pub within : ℕ → ℕ → List Bytes → ℤ → ReadState
within kind n args pending = record {
  reading_multi_line = true;
  expected_args_count = n;
  msg_type = kind;
  args = args;
  bulk_len = pending;
}

pub within-IsValid :
    (n k : ℕ) (args : List Bytes) → length args < n → IsValid (within b'*' n args (pos k))
within-IsValid n k args h = record { nonneg = tt; fresh = λ e. cc; room = λ _. h; kind = λ _. refl }

-- The round of an argument's length line.
pub on_length :
    (kind n k : ℕ) (args : List Bytes)
    → length args < n
    → suc k < 2 ^ 63
    → on_message (b'$' ∷ (itoa (suc k) ++ crlf)) (within kind n args (pos 0))
      ≡ some ([], within kind n args (pos (suc k)))
unfolding on_message
on_length kind n k args h fits =
    ap
      (λ (l : Bytes).
        after_body (b'$' ∷ (itoa (suc k) ++ crlf))
          (body_line (b'$' ∷ (itoa (suc k) ++ crlf)) l (within kind n args (pos 0))))
      (chop-crlf (b'$' ∷ itoa (suc k)))
    ∙ ground (arith, parse_int-itoa (suc k) fits)

-- What a round makes of the arguments read so far: the command, or a wait for more.
abbrev pub gained : ℕ → List Bytes → Round
gained n args =
    if ltb 0 n && length args == n
    then (delivered (some (multi_bulk args)) ∷ [], init)
    else ([], within b'*' n args (pos 0))

-- The round of an argument's content: the command is complete, or it goes on.
pub on_content :
    (n c : ℕ) (s : Bytes) (args : List Bytes)
    → c ≢ b'$'
    → on_message (c ∷ s ++ crlf) (within b'*' n args (pos 0))
      ≡ some (gained n (args ++ (c ∷ s) ∷ []))
unfolding on_message
on_content n c s args h =
    ap
      (λ (l : Bytes).
        after_body (c ∷ s ++ crlf) (body_line (c ∷ s ++ crlf) l (within b'*' n args (pos 0))))
      (chop-crlf (c ∷ s))
    ∙ ground arith

module _ (ending : Err) where
  -- A length line, in front of the content that it announces.
  length_line :
      (n c : ℕ) (s rest : Bytes) (args : List Bytes)
      → length args < n
      → length (c ∷ s) + 2 ≤ max_alloc
      → parse_from ending (bulk_item (c ∷ s) ++ rest) (within b'*' n args (pos 0))
        ≡ parse_from ending (c ∷ s ++ (crlf ++ rest)) (within b'*' n args (pos (length (c ∷ s))))
  unfolding bulk_item after_message
  length_line n c s rest args h fits =
      let digits = itoa (length (c ∷ s)) in
      let text : bulk_item (c ∷ s) ++ rest ≡ b'$' ∷ digits ++ (crlf ++ (c ∷ s ++ (crlf ++ rest))) =
        simp append_assoc in
      ap (λ (l : Bytes). parse_from ending l (within b'*' n args (pos 0))) text
      ∙ parse_from-next ending _ (c ∷ s ++ (crlf ++ rest)) _ _ [] (within-IsValid n 0 args h) (
          step-text ending (b'$' ∷ digits) _ (within b'*' n args (pos 0))
            (omega arith, itoa-NoLf (length (c ∷ s))) refl
          ∙ ap (after_message (c ∷ s ++ (crlf ++ rest)))
              (on_length b'*' n (length s) args h (omega arith)))

  -- The content of an argument, after its length line.
  pub content :
      (n c : ℕ) (s rest : Bytes) (args : List Bytes) (t : ReadState) (ps : List Payload)
      → length args < n
      → IsPlain (c ∷ s)
      → gained n (args ++ (c ∷ s) ∷ []) ≡ (ps, t)
      → parse_from ending (c ∷ s ++ (crlf ++ rest)) (within b'*' n args (pos (length (c ∷ s))))
        ≡ prepend ps (parse_from ending rest t)
  unfolding after_message
  content n c s rest args t ps h plain e =
      parse_from-next ending _ rest _ t ps (within-IsValid n (length (c ∷ s)) args h) (
        step-bulk ending c s rest (within b'*' n args (pos (length (c ∷ s)))) refl plain.1
        ∙ ap (after_message rest) (on_content n c s args plain.0 ∙ ap some e))

  -- One argument that is not the last.
  argument :
      (n : ℕ) (arg rest : Bytes) (args : List Bytes)
      → length args + 1 < n
      → IsPlain arg
      → parse_from ending (multi_bulk_item arg ++ rest) (within b'*' n args (pos 0))
        ≡ parse_from ending rest (within b'*' n (args ++ arg ∷ []) (pos 0))
  unfolding multi_bulk_item
  argument n [] rest args h plain = absurd plain
  argument n (c ∷ s) rest args h plain =
      length_line n c s rest args (omega arith) plain.1
      ∙ content n c s rest args _ [] (omega arith) plain
          (ground (arith, length-append args ((c ∷ s) ∷ [])))

  -- The last argument.
  last_argument :
      (n : ℕ) (arg rest : Bytes) (args : List Bytes)
      → length args + 1 ≡ n
      → IsPlain arg
      → parse_from ending (multi_bulk_item arg ++ rest) (within b'*' n args (pos 0))
        ≡ prepend
            (delivered (some (multi_bulk (args ++ arg ∷ []))) ∷ [])
            (parse_from ending rest init)
  unfolding multi_bulk_item
  last_argument n [] rest args h plain = absurd plain
  last_argument n (c ∷ s) rest args h plain =
      length_line n c s rest args (omega arith) plain.1
      ∙ content n c s rest args init (delivered (some (multi_bulk (args ++ (c ∷ s) ∷ []))) ∷ [])
          (omega arith) plain (ground (arith, length-append args ((c ∷ s) ∷ [])))

  -- Arguments that are followed by more.
  pub arguments_prefix :
      (before : List Bytes) (n : ℕ) (args : List Bytes) (rest : Bytes)
      → length args + length before < n
      → All IsPlain before
      → parse_from ending (multi_bulk_items before ++ rest) (within b'*' n args (pos 0))
        ≡ parse_from ending rest (within b'*' n (args ++ before) (pos 0))
  unfolding multi_bulk_items
  arguments_prefix [] n args rest h p = rw (append-nil args)
  arguments_prefix (arg ∷ before) n args rest h (p, ps) =
      ap (λ (l : Bytes). parse_from ending l (within b'*' n args (pos 0)))
        (append_assoc (multi_bulk_item arg) (multi_bulk_items before) rest)
      ∙ argument n arg (multi_bulk_items before ++ rest) args (omega arith) p
      ∙ arguments_prefix before n (args ++ arg ∷ []) rest
          (omega (arith, length-append args (arg ∷ []))) ps
      ∙ ap (λ (l : List Bytes). parse_from ending rest (within b'*' n l (pos 0)))
          (append_assoc args (arg ∷ []) before)

  arguments :
      (arg : Bytes) (todo : List Bytes) (n : ℕ) (args : List Bytes) (rest : Bytes)
      → length args + length (arg ∷ todo) ≡ n
      → All IsPlain (arg ∷ todo)
      → parse_from ending (multi_bulk_items (arg ∷ todo) ++ rest) (within b'*' n args (pos 0))
        ≡ prepend
            (delivered (some (multi_bulk (args ++ arg ∷ todo))) ∷ [])
            (parse_from ending rest init)
  unfolding multi_bulk_items
  arguments arg [] n args rest h (p, _) =
      rw (append-nil (multi_bulk_item arg)) (last_argument n arg rest args h p)
  arguments arg (next_arg ∷ todo) n args rest h (p, ps) =
      ap (λ (l : Bytes). parse_from ending l (within b'*' n args (pos 0)))
        (append_assoc (multi_bulk_item arg) (multi_bulk_items (next_arg ∷ todo)) rest)
      ∙ argument n arg (multi_bulk_items (next_arg ∷ todo) ++ rest) args (omega arith) p
      ∙ arguments next_arg todo n (args ++ arg ∷ []) rest
          (omega (arith, length-append args (arg ∷ []))) ps
      ∙ ap
          (λ (l : List Bytes).
            prepend (delivered (some (multi_bulk l)) ∷ []) (parse_from ending rest init))
          (append_assoc args (arg ∷ []) (next_arg ∷ todo))

-- The round of a command's first line.
pub on_header :
    (n : ℕ)
    → 0 < n
    → n < 2 ^ 32
    → on_message (b'*' ∷ (itoa n ++ crlf)) init ≡ some ([], within b'*' n [] (pos 0))
unfolding on_message
on_header zero h fits = absurd (omega arith)
on_header (suc n) h fits =
    ap
      (λ (l : Option ℕ).
        some (after_muti_header (set_count l (b'*' ∷ (itoa (suc n) ++ crlf)) init)))
      (ap (parse_uint 32) (chop-crlf (itoa (suc n))) ∙ parse_uint-itoa 32 (suc n) (omega arith))
    ∙ ground arith

-- Whatever follows, the bytes of a command of plain arguments are read back as that command, and
-- the parser is then ready for the next one.
pub parse_from-multi_bulk :
    (ending : Err) (args : List Bytes) (rest : Bytes)
    → args ≢ []
    → length args < 2 ^ 32
    → All IsPlain args
    → parse_from ending (to_bytes (multi_bulk args) ++ rest) init
      ≡ prepend (delivered (some (multi_bulk args)) ∷ []) (parse_from ending rest init)
unfolding to_bytes multi_bulk_to_bytes after_message
parse_from-multi_bulk ending [] rest h n p = absurd (h refl)
parse_from-multi_bulk ending (arg ∷ args) rest h n p =
    let digits = itoa (length (arg ∷ args)) in
    let body = multi_bulk_items (arg ∷ args) ++ rest in
    let text : to_bytes (multi_bulk (arg ∷ args)) ++ rest ≡ b'*' ∷ digits ++ (crlf ++ body) =
      simp append_assoc in
    ap (λ (l : Bytes). parse_from ending l init) text
    ∙ parse_from-next ending _ body _ _ [] init-IsValid (
        step-text ending (b'*' ∷ digits) body init (omega arith, itoa-NoLf _) refl
        ∙ ap (after_message body) (on_header (length (arg ∷ args)) (omega arith) n))
    ∙ arguments ending arg args (length (arg ∷ args)) [] rest (omega arith) p

abbrev pub CommandIsPlain : List Bytes → Type 0
CommandIsPlain args = (args ≢ []) × (length args < 2 ^ 32) × All IsPlain args

abbrev pub written : List (List Bytes) → Bytes
written [] = []
written (args ∷ commands) = to_bytes (multi_bulk args) ++ written commands

abbrev pub commands_of : List (List Bytes) → List Payload
commands_of [] = []
commands_of (args ∷ commands) = delivered (some (multi_bulk args)) ∷ commands_of commands

from-written :
    (ending : Err) (commands : List (List Bytes))
    → All CommandIsPlain commands
    → parse_from ending (written commands) init
      ≡ prepend (commands_of commands) (parse_from ending [] init)
from-written ending [] p = refl
from-written ending (args ∷ commands) ((h, n, p), ps) =
    parse_from-multi_bulk ending args (written commands) h n p
    ∙ ap (prepend (delivered (some (multi_bulk args)) ∷ [])) (from-written ending commands ps)

-- A file of commands with plain arguments is parsed into exactly those commands, in order, and then
-- into the error of the reader, on which the channel is closed.
pub parse_stream-written :
    (ending : Err) (commands : List (List Bytes))
    → All CommandIsPlain commands
    → parse_stream ending (written commands)
      ≡ record { payloads = commands_of commands ++ failed ending ∷ []; end = closed }
unfolding parse_stream parse_from parse0 step after_line read_line read_text read_bytes
parse_stream-written ending commands p = from-written ending commands p
