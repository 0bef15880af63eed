-- ===== src/Parser/Faults.antt =====
-- Commands that are written and not read back: an empty argument, and one that begins with `$`.
use go_redis.Base.{
  ℕ, ◌^◌, ◌<◌, ◌≡◌, refl, ap, ◌∙◌, inl, inr, ◌&&◌, none, some, List, [], ◌∷◌, ◌++◌, append_assoc,
  arith, Bytes, codes, length, length-append, All, ltb, ◌==◌, Bool-cases, pos,
}
use go_redis.Strconv.{itoa, parse_int}
use go_redis.Reply.{
  multi_bulk, crlf, to_bytes, multi_bulk_item, multi_bulk_items, multi_bulk_to_bytes,
}
use go_redis.Parser.Messages.{itoa-NoLf, step-text}
use go_redis.Parser.State.{IsValid, init-IsValid}
use go_redis.Parser.Total.{parse_from-next, parse_from-stop}
use go_redis.Parser.RoundTrip.{IsPlain, within, within-IsValid, gained, arguments_prefix, on_header}
use go_redis.Parser.{
  Err, ReadState, init, Payload, delivered, Stream, prepend, crashed, parse_from, on_message,
  after_message,
}

multi_bulk_items-append :
    (xs ys : List Bytes) → multi_bulk_items (xs ++ ys) ≡ multi_bulk_items xs ++ multi_bulk_items ys
unfolding multi_bulk_items
multi_bulk_items-append [] ys = refl
multi_bulk_items-append (x ∷ xs) ys = simp (multi_bulk_items-append xs ys, append_assoc)

on_null :
    (n : ℕ) (args : List Bytes)
    → on_message (codes "$-1\r\n") (within b'*' n args (pos 0)) ≡ some (gained n (args ++ [] ∷ []))
unfolding on_message parse_int
on_null n args = ground arith

module _ (ending : Err) where
  -- A bare line end is an index panic, within a command and outside.
  bare_line :
      (rest : Bytes) (s : ReadState)
      → IsValid s
      → s.bulk_len ≡ pos 0
      → on_message crlf s ≡ none
      → parse_from ending (crlf ++ rest) s ≡ record { payloads = []; end = crashed }
  unfolding after_message
  bare_line rest s v z e =
      parse_from-stop ending (crlf ++ rest) s [] crashed v
        (step-text ending [] rest s tt z ∙ ap (after_message rest) e)

  bare_line-init :
      (rest : Bytes)
      → parse_from ending (crlf ++ rest) init ≡ record { payloads = []; end = crashed }
  bare_line-init rest = bare_line rest init init-IsValid refl (unfold on_message in refl)

  -- The length line of an empty argument, and the line end too many behind it.
  null_line :
      (n : ℕ) (args : List Bytes) (rest : Bytes) (ps : List Payload) (t : ReadState)
      → length args < n
      → gained n (args ++ [] ∷ []) ≡ (ps, t)
      → parse_from ending (multi_bulk_item [] ++ rest) (within b'*' n args (pos 0))
        ≡ prepend ps (parse_from ending (crlf ++ rest) t)
  unfolding multi_bulk_item after_message
  null_line n args rest ps t h e =
      parse_from-next ending _ (crlf ++ rest) _ t ps (within-IsValid n 0 args h) (
        step-text ending (codes "$-1") (crlf ++ rest) (within b'*' n args (pos 0)) (omega arith)
          refl
        ∙ ap (after_message (crlf ++ rest)) (on_null n args ∙ ap some e))

  empty_item :
      (n : ℕ) (args : List Bytes) (rest : Bytes)
      → length args < n
      → (parse_from ending (multi_bulk_item [] ++ rest) (within b'*' n args (pos 0))).end ≡ crashed
  empty_item n args rest h = elim (Bool-cases (ltb 0 n && length (args ++ [] ∷ []) == n)) [
    | inl full ↦
        ap (λ (r : Stream). r.end)
          (null_line n args rest (delivered (some (multi_bulk (args ++ [] ∷ []))) ∷ []) init h
              (rw full)
            ∙ ap (prepend (delivered (some (multi_bulk (args ++ [] ∷ []))) ∷ []))
                (bare_line-init rest))
    | inr open_yet ↦
        let more = within b'*' n (args ++ [] ∷ []) (pos 0) in
        let room : length (args ++ [] ∷ []) < n =
          ground (arith, open_yet, length-append args ([] ∷ [])) in
        ap (λ (r : Stream). r.end)
          (null_line n args rest [] more h (rw open_yet)
            ∙ bare_line rest more (within-IsValid n 0 _ room) refl (unfold on_message in refl))
  ]

  -- A command with an empty argument behind plain ones, as it is written, stops the parser for
  -- good: the goroutine panics with its channel open, whatever follows.
  pub empty_argument_crashes :
      (before after : List Bytes) (rest : Bytes)
      → length (before ++ [] ∷ after) < 2 ^ 32
      → All IsPlain before
      → (parse_from ending (to_bytes (multi_bulk (before ++ [] ∷ after)) ++ rest) init).end
        ≡ crashed
  unfolding to_bytes multi_bulk_to_bytes after_message multi_bulk_items
  empty_argument_crashes before after rest fits p =
      let args = before ++ [] ∷ after in
      let digits = itoa (length args) in
      let tail = multi_bulk_items after ++ rest in
      let body = multi_bulk_items before ++ (multi_bulk_item [] ++ tail) in
      let text : to_bytes (multi_bulk args) ++ rest ≡ b'*' ∷ digits ++ (crlf ++ body) =
        simp (multi_bulk_items-append, append_assoc) in
      let room : length before < length args = omega (arith, length-append before ([] ∷ after)) in
      ap (λ (l : Bytes). (parse_from ending l init).end) text
      ∙ ap (λ (r : Stream). r.end)
          (parse_from-next ending _ body _ _ [] init-IsValid (
              step-text ending (b'*' ∷ digits) body init (omega arith, itoa-NoLf _) refl
              ∙ ap (after_message body) (on_header (length args) (omega arith) fits))
            ∙ arguments_prefix ending before (length args) [] _ (omega (arith, room)) p)
      ∙ empty_item (length args) before tail room
