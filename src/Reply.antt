-- ===== src/Reply.antt =====
-- The replies of resp/reply (consts.go, error.go, reply.go): one constructor for each Go type that
-- implements `resp.Reply`, and the bytes that its `ToBytes` writes.
pub mod Framing
use go_redis.Base.{
  ℕ, zero, suc, ◌+◌, ◌-◌, ◌*◌, ◌/◌, ◌%◌, ◌^◌, ◌≤◌, ◌<◌, min, max, ◌≡◌, refl, sym, ap, ◌∙◌, subst,
  ◌≡⟨◌⟩◌, ◌∎, ◌≢◌, ◌↔◌, ◌⊎◌, inl, inr, Bool, true, false, not, ◌&&◌, ◌||◌, Option, none, some, List,
  [], ◌∷◌, ◌++◌, map, append_assoc, append-nil, arith, Bytes, codes, bytes_eq, bytes_eq_refl,
  bytes_eq→eq, bytes_eq_iff, bytes_eq_of_ne, length, get_elem?, set, replicate, take, length-append,
  length-set, get_elem?-set_self, get_elem?-set_ne, set-get_elem?, set-set, get_elem?-lt, All,
  All-append, ltb, leb, ◌==◌, if◌then◌else◌, ltb→lt, lt→ltb, leb→le, ==_iff, ==_refl, Bool-cases,
  Option-cases, ◌>>=◌, ℤ, pos, negsuc, IsInt64,
}
use go_redis.Strconv.{itoa, format_int}

-- `resp.Reply` as a closed sum of the types that implement it.
pub data Reply : Type 0 where
  pong ok null_bulk empty_multi_bulk no_reply : Reply
  unknown_err syntax_err wrong_type_err : Reply
  arg_num_err protocol_err : Bytes → Reply
  bulk : Bytes → Reply
  multi_bulk : List Bytes → Reply
  status : Bytes → Reply
  int : ℤ → Reply
  standard_err : Bytes → Reply

abbrev pub crlf : Bytes
crlf = 13 ∷ 10 ∷ []

abbrev pub pong_bytes : Bytes
pong_bytes = codes "+PONG\r\n"

abbrev pub ok_bytes : Bytes
ok_bytes = codes "+OK\r\n"

abbrev pub null_bulk_bytes : Bytes
null_bulk_bytes = codes "$-1\r\n"

abbrev pub empty_multi_bulk_bytes : Bytes
empty_multi_bulk_bytes = codes "$*0\r\n"

abbrev pub no_bytes : Bytes
no_bytes = []

abbrev pub unknown_err_bytes : Bytes
unknown_err_bytes = codes "-Err unknown\r\n"

abbrev pub syntax_err_bytes : Bytes
syntax_err_bytes = codes "-Err syntax error\r\n"

abbrev pub wrong_type_err_bytes : Bytes
wrong_type_err_bytes =
    codes "-WRONGTYPE Operation against a key holding the wrong kind of value\r\n"

-- `ArgNumErrReply.Error`, which is its `ToBytes` without the line end.
unfoldable pub arg_num_err_text : Bytes → Bytes
arg_num_err_text cmd = codes "-ERR wrong number of arguments for '" ++ (cmd ++ codes "'commend")

unfoldable pub protocol_err_text : Bytes → Bytes
protocol_err_text msg = codes "-ERR Protocol error: '" ++ (msg ++ codes "'")

-- One element, `$<length>` line and content line.
unfoldable pub bulk_item : Bytes → Bytes
bulk_item arg = b'$' ∷ (itoa (length arg) ++ (crlf ++ (arg ++ crlf)))

-- `BulkReply.ToBytes`: `nullBulkReplyBytes` has no line end.
unfoldable pub bulk_to_bytes : Bytes → Bytes
bulk_to_bytes [] = codes "$-1"
bulk_to_bytes (c ∷ arg) = bulk_item (c ∷ arg)

-- The loop body of `MultiBulkReply.ToBytes`: an empty argument is `nullBulkBytes` and a CRLF more.
unfoldable pub multi_bulk_item : Bytes → Bytes
multi_bulk_item [] = null_bulk_bytes ++ crlf
multi_bulk_item (c ∷ arg) = bulk_item (c ∷ arg)

unfoldable pub multi_bulk_items : List Bytes → Bytes
multi_bulk_items [] = []
multi_bulk_items (arg ∷ args) = multi_bulk_item arg ++ multi_bulk_items args

unfoldable pub multi_bulk_to_bytes : List Bytes → Bytes
multi_bulk_to_bytes args = b'*' ∷ (itoa (length args) ++ (crlf ++ multi_bulk_items args))

unfoldable pub to_bytes : Reply → Bytes
to_bytes pong = pong_bytes
to_bytes ok = ok_bytes
to_bytes null_bulk = null_bulk_bytes
to_bytes empty_multi_bulk = empty_multi_bulk_bytes
to_bytes no_reply = no_bytes
to_bytes unknown_err = unknown_err_bytes
to_bytes syntax_err = syntax_err_bytes
to_bytes wrong_type_err = wrong_type_err_bytes
to_bytes (arg_num_err cmd) = arg_num_err_text cmd ++ crlf
to_bytes (protocol_err msg) = protocol_err_text msg ++ crlf
to_bytes (bulk arg) = bulk_to_bytes arg
to_bytes (multi_bulk args) = multi_bulk_to_bytes args
to_bytes (status s) = b'+' ∷ (s ++ crlf)
to_bytes (int z) = b':' ∷ (format_int z ++ crlf)
to_bytes (standard_err s) = b'-' ∷ (s ++ crlf)

-- The types that implement `ErrorReply`, with what their `Error` returns.
unfoldable pub error_text : Reply → Option Bytes
error_text unknown_err = some (codes "ERR unknown error")
error_text syntax_err = some (codes "ERR syntax error")
error_text wrong_type_err =
    some (codes "-WRONGTYPE Operation against a key holding the wrong kind of value")
error_text (arg_num_err cmd) = some (arg_num_err_text cmd)
error_text (protocol_err msg) = some (protocol_err_text msg)
error_text (standard_err s) = some s
error_text _ = none

first_is_minus : Bytes → Option Bool
first_is_minus [] = none
first_is_minus (c ∷ _) = some (c == b'-')

-- `IsErrReply`; `none` is the panic of the index expression on a reply without bytes.
unfoldable pub is_err_reply : Reply → Option Bool
unfolding first_is_minus
is_err_reply r = first_is_minus (to_bytes r)

multi_bulk_test :
    to_bytes (multi_bulk (codes "SET" ∷ codes "k" ∷ [] ∷ []))
    ≡ codes "*3\r\n$3\r\nSET\r\n$1\r\nk\r\n$-1\r\n\r\n"
unfolding to_bytes multi_bulk_to_bytes multi_bulk_items multi_bulk_item bulk_item itoa
multi_bulk_test = refl
