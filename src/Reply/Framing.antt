-- ===== src/Reply/Framing.antt =====
-- How replies end on the wire, and which of them are errors.
use go_redis.Base.{
  ℕ, ◌≤◌, ◌≡◌, refl, sym, ap, ◌≢◌, ◌↔◌, Bool, true, false, none, some, List, [], ◌∷◌, ◌++◌,
  append_assoc, append-nil, arith, Bytes, codes, length, length-append, ◌==◌,
}
use go_redis.Strconv.{itoa, format_int}
use go_redis.Reply.{
  Reply, pong, ok, null_bulk, empty_multi_bulk, no_reply, unknown_err, syntax_err, wrong_type_err,
  arg_num_err, protocol_err, bulk, multi_bulk, status, int, standard_err, crlf, to_bytes,
  error_text, is_err_reply, multi_bulk_items, multi_bulk_item, bulk_item, multi_bulk_to_bytes,
  bulk_to_bytes, arg_num_err_text, protocol_err_text,
}

-- `s` is some bytes and a line end behind them.
abbrev pub EndsLine : Bytes → Type 0
EndsLine s = (body : Bytes) × (s ≡ body ++ crlf)

abbrev last_is_lf : Bytes → Bool
last_is_lf [] = false
last_is_lf (c ∷ []) = c == 10
last_is_lf (_ ∷ c ∷ s) = last_is_lf (c ∷ s)

EndsLine-append : (s t : Bytes) → EndsLine t → EndsLine (s ++ t)
EndsLine-append s t (body, e) = (s ++ body, rw e (sym (append_assoc s body crlf)))

EndsLine-cons : (c : ℕ) (t : Bytes) → EndsLine t → EndsLine (c ∷ t)
EndsLine-cons c t (body, e) = (c ∷ body, rw e)

bulk_item-EndsLine : (arg : Bytes) → EndsLine (bulk_item arg)
unfolding bulk_item
bulk_item-EndsLine arg =
    EndsLine-cons _ _
      (EndsLine-append (itoa (length arg)) _ (EndsLine-append crlf (arg ++ crlf) (arg, refl)))

multi_bulk_item-EndsLine : (arg : Bytes) → EndsLine (multi_bulk_item arg)
unfolding multi_bulk_item
multi_bulk_item-EndsLine [] = (codes "$-1\r\n", refl)
multi_bulk_item-EndsLine (c ∷ arg) = bulk_item-EndsLine (c ∷ arg)

-- Any text that ends a line still does with more elements behind it.
items-EndsLine :
    (s : Bytes) (args : List Bytes) → EndsLine s → EndsLine (s ++ multi_bulk_items args)
unfolding multi_bulk_items
items-EndsLine s [] h = rw append-nil h
items-EndsLine s (arg ∷ args) h =
    EndsLine-append s _ (items-EndsLine (multi_bulk_item arg) args (multi_bulk_item-EndsLine arg))

framed : (r : Reply) → r ≢ no_reply → r ≢ bulk [] → EndsLine (to_bytes r)
unfolding to_bytes bulk_to_bytes multi_bulk_to_bytes
framed pong h k = (codes "+PONG", refl)
framed ok h k = (codes "+OK", refl)
framed null_bulk h k = (codes "$-1", refl)
framed empty_multi_bulk h k = (codes "$*0", refl)
framed no_reply h k = absurd (h refl)
framed unknown_err h k = (codes "-Err unknown", refl)
framed syntax_err h k = (codes "-Err syntax error", refl)
framed wrong_type_err h k =
    (codes "-WRONGTYPE Operation against a key holding the wrong kind of value", refl)
framed (arg_num_err cmd) h k = (arg_num_err_text cmd, refl)
framed (protocol_err msg) h k = (protocol_err_text msg, refl)
framed (bulk []) h k = absurd (k refl)
framed (bulk (c ∷ arg)) h k = bulk_item-EndsLine (c ∷ arg)
framed (multi_bulk args) h k =
    EndsLine-cons _ _ (EndsLine-append (itoa (length args)) _ (items-EndsLine crlf args ([], refl)))
framed (status s) h k = (b'+' ∷ s, refl)
framed (int z) h k = (b':' ∷ format_int z, refl)
framed (standard_err s) h k = (b'-' ∷ s, refl)

-- A framed text has the two bytes of the line end.
EndsLine-length : (s : Bytes) → EndsLine s → 2 ≤ length s
EndsLine-length s (body, e) = omega (arith, ap (λ (l : Bytes). length l) e, length-append body crlf)

last_lf : (s body : Bytes) → s ≡ body ++ crlf → last_is_lf s ≡ true
last_lf s body e = rw e (go body)
  where
    go : (b : Bytes) → last_is_lf (b ++ crlf) ≡ true
    go [] = refl
    go (_ ∷ []) = refl
    go (_ ∷ x ∷ b) = go (x ∷ b)

bulk_nil-not-EndsLine : ¬ EndsLine (to_bytes (bulk []))
unfolding to_bytes bulk_to_bytes
bulk_nil-not-EndsLine (body, e) = cc (last_lf (codes "$-1") body e)

no_reply-not-EndsLine : ¬ EndsLine (to_bytes no_reply)
unfolding to_bytes
no_reply-not-EndsLine h = omega (arith, EndsLine-length [] h)

-- A reply ends in CRLF exactly when it is neither the reply without bytes nor the bulk reply of an
-- empty value.
pub to_bytes-EndsLine : (r : Reply) → EndsLine (to_bytes r) ↔ ((r ≢ no_reply) × (r ≢ bulk []))
to_bytes-EndsLine r = (
  λ h. (λ e. no_reply-not-EndsLine (rw e at h), λ e. bulk_nil-not-EndsLine (rw e at h)),
  λ h. framed r h.0 h.1,
)

-- On every reply but NoReply, `IsErrReply` does not panic, and it answers exactly whether
-- the Go type is an `ErrorReply`.
pub is_err_reply-error_text :
    (r : Reply)
    → r ≢ no_reply
    → is_err_reply r ≡ some (elim (error_text r) [ none ↦ false | some _ ↦ true ])
unfolding is_err_reply to_bytes error_text bulk_to_bytes multi_bulk_to_bytes bulk_item
    arg_num_err_text protocol_err_text
is_err_reply-error_text no_reply h = absurd (h refl)
is_err_reply-error_text (bulk []) h = refl
is_err_reply-error_text (bulk (c ∷ arg)) h = refl
is_err_reply-error_text _ h = refl
