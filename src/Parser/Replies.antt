-- ===== src/Parser/Replies.antt =====
-- What the parser of a client makes of the replies that a server writes.
use go_redis.Base.{
  ℕ, suc, ◌^◌, ◌<◌, ◌≡◌, refl, ap, ◌∙◌, ◌≢◌, Option, none, some, [], ◌∷◌, ◌++◌, append_assoc, arith,
  Bytes, codes, length, All, All-append, ℤ, pos, negsuc, IsInt64,
}
use go_redis.Strconv.{itoa, format_int, parse_int, parse_uint}
use go_redis.Strconv.RoundTrip.{parse_int-itoa, parse_int-format_int}
use go_redis.Reply.{
  Reply, pong, ok, null_bulk, empty_multi_bulk, no_reply, unknown_err, syntax_err, wrong_type_err,
  arg_num_err, protocol_err, bulk, multi_bulk, status, int, standard_err, crlf, to_bytes,
  bulk_to_bytes, bulk_item, multi_bulk_to_bytes, multi_bulk_items, arg_num_err_text,
  protocol_err_text,
}
use go_redis.Parser.Messages.{NoLf, itoa-NoLf, chop-crlf, step-text, step-bulk}
use go_redis.Parser.State.{IsValid, init-IsValid}
use go_redis.Parser.Total.{parse_from-next}
use go_redis.Parser.RoundTrip.{IsPlain, within, parse_from-multi_bulk}
use go_redis.Parser.{
  Err, init, Payload, delivered, failed, message, prepend, parse_from, on_message, after_message,
  single_line, parse_single_line_reply, body_line, after_body, after_bulk_header, set_length,
}

-- The replies that a reader finds the end of: a text is one line, a value is not empty, does not
-- begin with `$` and fits a buffer.
abbrev pub IsReadable : Reply → Type 0
IsReadable no_reply = ⊥
IsReadable (arg_num_err cmd) = NoLf cmd
IsReadable (protocol_err msg) = NoLf msg
IsReadable (bulk arg) = IsPlain arg
IsReadable (multi_bulk args) = (length args < 2 ^ 32) × All IsPlain args
IsReadable (status s) = NoLf s
IsReadable (int z) = IsInt64 z
IsReadable (standard_err s) = NoLf s
IsReadable _ = Unit

-- What is read: an error is told by its text alone, a bulk comes back as a list of one, and the
-- empty multi bulk reply is an error.
abbrev pub received : Reply → Payload
received pong = delivered (some (status (codes "PONG")))
received ok = delivered (some (status (codes "OK")))
received null_bulk = delivered (some null_bulk)
received empty_multi_bulk = failed (message (codes "protocol err:$*0\r\n"))
received no_reply = delivered none
received unknown_err = delivered (some (standard_err (codes "Err unknown")))
received syntax_err = delivered (some (standard_err (codes "Err syntax error")))
received wrong_type_err = delivered (
    some (standard_err (codes "WRONGTYPE Operation against a key holding the wrong kind of value")))
received (arg_num_err cmd) =
    delivered (
      some
        (standard_err (codes "ERR wrong number of arguments for '" ++ (cmd ++ codes "'commend"))))
received (protocol_err msg) =
    delivered (some (standard_err (codes "ERR Protocol error: '" ++ (msg ++ codes "'"))))
received (bulk arg) = delivered (some (multi_bulk (arg ∷ [])))
received (multi_bulk []) = delivered (some empty_multi_bulk)
received (multi_bulk (arg ∷ args)) = delivered (some (multi_bulk (arg ∷ args)))
received (status s) = delivered (some (status s))
received (int z) = delivered (some (int z))
received (standard_err s) = delivered (some (standard_err s))

quoted : (a b c : Bytes) → NoLf a → NoLf b → NoLf c → NoLf (a ++ (b ++ c))
quoted a b c h k l = All-append (λ x. x ≢ 10) a (b ++ c) h (All-append (λ x. x ≢ 10) b c k l)

format_int-NoLf : (z : ℤ) → NoLf (format_int z)
unfolding format_int
format_int-NoLf (pos n) = itoa-NoLf n
format_int-NoLf (negsuc n) = (omega arith, itoa-NoLf (suc n))

no_items : to_bytes (multi_bulk []) ≡ codes "*0" ++ crlf
unfolding to_bytes multi_bulk_to_bytes multi_bulk_items itoa
no_items = refl

on_single :
    (c : ℕ) (s : Bytes) (p : Payload)
    → (c ≢ b'*') × (c ≢ b'$')
    → single_line (c ∷ s ++ crlf) (c ∷ s) ≡ some p
    → on_message (c ∷ s ++ crlf) init ≡ some (p ∷ [], init)
unfolding on_message parse_single_line_reply
on_single c s p k e = ground (arith, chop-crlf (c ∷ s))

-- The round of a bulk reply's length line.
on_bulk_length :
    (k : ℕ)
    → suc k < 2 ^ 63
    → on_message (b'$' ∷ (itoa (suc k) ++ crlf)) init ≡ some ([], within b'$' 1 [] (pos (suc k)))
unfolding on_message
on_bulk_length k fits =
    ap
      (λ (l : Option ℤ). some (
        after_bulk_header (b'$' ∷ (itoa (suc k) ++ crlf))
          (set_length l (b'$' ∷ (itoa (suc k) ++ crlf)) init)))
      (ap parse_int (chop-crlf (itoa (suc k))) ∙ parse_int-itoa (suc k) fits)
    ∙ ground arith

-- The round of its content.
on_bulk_content :
    (c : ℕ) (s : Bytes)
    → c ≢ b'$'
    → on_message (c ∷ s ++ crlf) (within b'$' 1 [] (pos 0))
      ≡ some (delivered (some (multi_bulk ((c ∷ s) ∷ []))) ∷ [], init)
unfolding on_message
on_bulk_content c s h =
    ap
      (λ (l : Bytes).
        after_body (c ∷ s ++ crlf) (body_line (c ∷ s ++ crlf) l (within b'$' 1 [] (pos 0))))
      (chop-crlf (c ∷ s))
    ∙ ground arith

within-IsValid : (k : ℕ) → IsValid (within b'$' 1 [] (pos k))
within-IsValid k = record {
  nonneg = tt;
  fresh = λ e. cc;
  room = λ _. omega arith;
  kind = λ _. refl;
}

module _ (ending : Err) where
  -- A line of its own, which is one payload.
  line_payload :
      (s rest : Bytes) (p : Payload)
      → NoLf s
      → on_message (s ++ crlf) init ≡ some (p ∷ [], init)
      → parse_from ending (s ++ (crlf ++ rest)) init
        ≡ prepend (p ∷ []) (parse_from ending rest init)
  unfolding after_message
  line_payload s rest p h e =
      parse_from-next ending _ rest init init (p ∷ []) init-IsValid
        (step-text ending s rest init h refl ∙ ap (after_message rest) e)

  -- The bytes of a reply on one line.
  single :
      (b : Bytes) (c : ℕ) (s rest : Bytes) (p : Payload)
      → b ≡ c ∷ s ++ crlf
      → NoLf (c ∷ s)
      → (c ≢ b'*') × (c ≢ b'$')
      → single_line (c ∷ s ++ crlf) (c ∷ s) ≡ some p
      → parse_from ending (b ++ rest) init ≡ prepend (p ∷ []) (parse_from ending rest init)
  single b c s rest p text h k e =
      ap (λ (l : Bytes). parse_from ending (l ++ rest) init) text
      ∙ ap (λ (l : Bytes). parse_from ending l init) (append_assoc (c ∷ s) crlf rest)
      ∙ line_payload (c ∷ s) rest p h (on_single c s p k e)

  bulk_payload :
      (c : ℕ) (s rest : Bytes)
      → IsPlain (c ∷ s)
      → parse_from ending (bulk_item (c ∷ s) ++ rest) init
        ≡ prepend (delivered (some (multi_bulk ((c ∷ s) ∷ []))) ∷ []) (parse_from ending rest init)
  unfolding bulk_item after_message
  bulk_payload c s rest plain =
      let digits = itoa (length (c ∷ s)) in
      let body = c ∷ s ++ (crlf ++ rest) in
      let text : bulk_item (c ∷ s) ++ rest ≡ b'$' ∷ digits ++ (crlf ++ body) = simp append_assoc in
      ap (λ (l : Bytes). parse_from ending l init) text
      ∙ parse_from-next ending _ body init _ [] init-IsValid (
          step-text ending (b'$' ∷ digits) body init (omega arith, itoa-NoLf (length (c ∷ s))) refl
          ∙ ap (after_message body) (on_bulk_length (length s) (omega arith)))
      ∙ parse_from-next ending body rest _ init _ (within-IsValid (length (c ∷ s))) (
          step-bulk ending c s rest (within b'$' 1 [] (pos (length (c ∷ s)))) refl plain.1
          ∙ ap (after_message rest) (on_bulk_content c s plain.0))

  -- A reply that can be read is read as one payload, whatever follows it, and the reader is then
  -- ready for the next reply.
  pub parse_from-to_bytes :
      (r : Reply) (rest : Bytes)
      → IsReadable r
      → parse_from ending (to_bytes r ++ rest) init
        ≡ prepend (received r ∷ []) (parse_from ending rest init)
  unfolding to_bytes single_line
  parse_from-to_bytes pong rest h =
      single _ b'+' (codes "PONG") rest _ refl (omega arith) (omega arith) refl
  parse_from-to_bytes ok rest h =
      single _ b'+' (codes "OK") rest _ refl (omega arith) (omega arith) refl
  parse_from-to_bytes null_bulk rest h =
      line_payload (codes "$-1") rest _ (omega arith) (unfold on_message parse_int in refl)
  parse_from-to_bytes empty_multi_bulk rest h =
      line_payload (codes "$*0") rest _ (omega arith) (unfold on_message parse_int in refl)
  parse_from-to_bytes no_reply rest h = absurd h
  parse_from-to_bytes unknown_err rest h =
      single _ b'-' (codes "Err unknown") rest _ refl (omega arith) (omega arith) refl
  parse_from-to_bytes syntax_err rest h =
      single _ b'-' (codes "Err syntax error") rest _ refl (omega arith) (omega arith) refl
  parse_from-to_bytes wrong_type_err rest h =
      single _ b'-' (codes "WRONGTYPE Operation against a key holding the wrong kind of value") rest
        _ refl (omega arith) (omega arith) refl
  parse_from-to_bytes (arg_num_err cmd) rest h =
      let text = codes "ERR wrong number of arguments for '" ++ (cmd ++ codes "'commend") in
      single _ b'-' text rest _ (unfold arg_num_err_text in refl)
        (
          omega arith,
          quoted (codes "ERR wrong number of arguments for '") cmd (codes "'commend") (omega arith)
              h (omega arith),
        )
        (omega arith) refl
  parse_from-to_bytes (protocol_err msg) rest h =
      let text = codes "ERR Protocol error: '" ++ (msg ++ codes "'") in
      single _ b'-' text rest _ (unfold protocol_err_text in refl)
        (
          omega arith,
          quoted (codes "ERR Protocol error: '") msg (codes "'") (omega arith) h (omega arith),
        )
        (omega arith) refl
  parse_from-to_bytes (bulk []) rest h = absurd h
  parse_from-to_bytes (bulk (c ∷ s)) rest h = unfold bulk_to_bytes in bulk_payload c s rest h
  parse_from-to_bytes (multi_bulk []) rest h =
      ap (λ (l : Bytes). parse_from ending (l ++ rest) init) no_items
      ∙ line_payload (codes "*0") rest (delivered (some empty_multi_bulk)) (omega arith)
          (unfold on_message parse_uint in refl)
  parse_from-to_bytes (multi_bulk (arg ∷ args)) rest h =
      parse_from-multi_bulk ending (arg ∷ args) rest (λ e. cc) h.0 h.1
  parse_from-to_bytes (status s) rest h =
      single _ b'+' s rest _ refl (omega arith, h) (omega arith, omega arith) refl
  parse_from-to_bytes (int z) rest h =
      single _ b':' (format_int z) rest _ refl (omega arith, format_int-NoLf z) (omega arith)
        (rw (parse_int-format_int z h, single_line))
  parse_from-to_bytes (standard_err s) rest h =
      single _ b'-' s rest _ refl (omega arith, h) (omega arith) refl
