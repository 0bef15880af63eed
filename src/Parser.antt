-- ===== src/Parser.antt =====
-- resp/parser/parser.go: the stream parser. The reader is the bytes that it will still deliver; the
-- error that it returns behind them is a parameter (`io.EOF` for a file, a network error
-- otherwise). A panic is recovered in `parse0` without closing the channel, so it is an outcome of
-- its own.
pub mod ReadLine
pub mod Messages
pub mod State
pub mod Total
pub mod Tears
pub mod Torn
pub mod Replies
pub mod RoundTrip
pub mod Dollar
pub mod Faults
unfoldable pub use ReadLine.*
use go_redis.Base.{
  ℕ, zero, suc, ◌+◌, ◌-◌, ◌*◌, ◌/◌, ◌%◌, ◌^◌, ◌≤◌, ◌<◌, min, max, ◌≡◌, refl, sym, ap, ◌∙◌, subst,
  ◌≡⟨◌⟩◌, ◌∎, ◌≢◌, ◌↔◌, ◌⊎◌, inl, inr, Bool, true, false, not, ◌&&◌, ◌||◌, Option, none, some, List,
  [], ◌∷◌, ◌++◌, map, append_assoc, append-nil, arith, Bytes, codes, bytes_eq, bytes_eq_refl,
  bytes_eq→eq, bytes_eq_iff, bytes_eq_of_ne, length, get_elem?, set, replicate, take, length-append,
  length-set, get_elem?-set_self, get_elem?-set_ne, set-get_elem?, set-set, get_elem?-lt, All,
  All-append, ltb, leb, ◌==◌, if◌then◌else◌, ltb→lt, lt→ltb, leb→le, ==_iff, ==_refl, Bool-cases,
  Option-cases, ◌>>=◌, ℤ, pos, negsuc, IsInt64,
}
use go_redis.Strconv.{parse_int, parse_uint}
use go_redis.Reply.{Reply, null_bulk, empty_multi_bulk, multi_bulk, status, standard_err, int}

pub record Payload : Type 0 where
  pub reply : Option Reply
  pub err : Option Err

abbrev pub failed : Err → Payload
failed e = record { reply = none; err = some e }

abbrev pub delivered : Option Reply → Payload
delivered r = record { reply = r; err = none }

-- `msg[1:len(msg)-2]` and `msg[0:len(msg)-2]` of a message that ends in CRLF.
unfoldable pub chop : Bytes → Bytes
chop [] = []
chop (_ ∷ []) = []
chop (_ ∷ _ ∷ []) = []
chop (a ∷ b ∷ c ∷ s) = a ∷ chop (b ∷ c ∷ s)

abbrev pub tail_bytes : Bytes → Bytes
tail_bytes [] = []
tail_bytes (_ ∷ s) = s

abbrev pub header_body : Bytes → Bytes
header_body msg = chop (tail_bytes msg)

unfoldable pub finished : ReadState → Bool
finished s = ltb 0 s.expected_args_count && length s.args == s.expected_args_count

unfoldable pub set_count : Option ℕ → Bytes → ReadState → Option Err × ReadState
set_count none msg s = (some (message (codes "parseMutiBulkHeader ParseUint error:" ++ msg)), s)
set_count (some zero) msg s = (none, record s { expected_args_count = 0 })
set_count (some (suc n)) msg s = (
  none,
  record s { msg_type = b'*'; reading_multi_line = true; expected_args_count = suc n; args = [] },
)

-- `parseMutiBulkHeader`: an error or `nil`, and the state that it leaves.
unfoldable pub parse_muti_bulk_header : Bytes → ReadState → Option Err × ReadState
unfolding set_count chop
parse_muti_bulk_header msg s = set_count (parse_uint 32 (header_body msg)) msg s

unfoldable pub set_length : Option ℤ → Bytes → ReadState → Option Err × ReadState
set_length none msg s = (some (message (codes "parseBulkHeader ParseInt error:" ++ msg)), s)
set_length (some (negsuc zero)) msg s = (none, record s { bulk_len = negsuc 0 })
set_length (some (pos (suc n))) msg s = (
  none,
  record s {
    bulk_len = pos (suc n);
    reading_multi_line = true;
    msg_type = b'$';
    expected_args_count = 1;
    args = [];
  },
)
set_length (some z) msg s =
    (some (message (codes "parseBulkHeader bulkLen error:" ++ msg)), record s { bulk_len = z })

-- `parseBulkHeader`. The length that a failed conversion leaves is not read again.
unfoldable pub parse_bulk_header : Bytes → ReadState → Option Err × ReadState
unfolding set_length chop
parse_bulk_header msg s = set_length (parse_int (header_body msg)) msg s

-- The switch of `parseSingleLineReply` on the first byte; an empty line is an index panic.
single_line : Bytes → Bytes → Option Payload
single_line msg [] = none
single_line msg (c ∷ str) =
    if c == b'+'
    then some (delivered (some (status str)))
    else if c == b'-'
    then some (delivered (some (standard_err str)))
    else if c == b':'
    then elim (parse_int str) [
      | none ↦ some (failed (message (codes "parseSingleLineReply error:" ++ msg)))
      | some z ↦ some (delivered (some (int z)))
    ]
    else some (delivered none)

-- `TrimSuffix(msg, "\r\n")` drops the line end that `readLine` has checked.
unfoldable pub parse_single_line_reply : Bytes → Option Payload
unfolding single_line
parse_single_line_reply msg = single_line msg (chop msg)

-- A `$` line within a command: a length that is not positive stands for an empty argument.
unfoldable pub take_length : Option ℤ → Bytes → ReadState → Option (Option Err × ReadState)
take_length none msg s = some (some (message (codes "readBody error:" ++ msg)), s)
take_length (some (pos (suc n))) msg s = some (none, record s { bulk_len = pos (suc n) })
take_length (some z) msg s = some (none, record s { args = s.args ++ [] ∷ []; bulk_len = pos 0 })

-- The body of `readBody` on the line without its end; an empty line is an index panic.
unfoldable pub body_line : Bytes → Bytes → ReadState → Option (Option Err × ReadState)
unfolding take_length
body_line msg [] s = none
body_line msg (c ∷ str) s =
    if c == b'$'
    then take_length (parse_int str) msg s
    else some (none, record s { args = s.args ++ (c ∷ str) ∷ [] })

unfoldable pub read_body : Bytes → ReadState → Option (Option Err × ReadState)
unfolding body_line
read_body msg s = body_line msg (chop msg) s

pub protocol_err : Bytes → Payload
protocol_err msg = failed (message (codes "protocol err:" ++ msg))

-- What one round sends on the channel, and the state of the next round.
abbrev pub Round : Type 0
Round = List Payload × ReadState

unfoldable pub after_muti_header : Option Err × ReadState → Round
after_muti_header (some e, s) = (failed e ∷ [], init)
after_muti_header (none, s) =
    if s.expected_args_count == 0 then (delivered (some empty_multi_bulk) ∷ [], init) else ([], s)

pub is_minus_one : ℤ → Bool
is_minus_one (negsuc zero) = true
is_minus_one _ = false

unfoldable pub after_bulk_header : Bytes → Option Err × ReadState → Round
unfolding protocol_err is_minus_one
after_bulk_header msg (some e, s) = (protocol_err msg ∷ [], init)
after_bulk_header msg (none, s) =
    if is_minus_one s.bulk_len then (delivered (some null_bulk) ∷ [], init) else ([], s)

pub result_of : ReadState → Option Reply
result_of s =
    if s.msg_type == b'*'
    then some (multi_bulk s.args)
    else if s.msg_type == b'$'
    then some (multi_bulk s.args)
    else none

unfoldable pub after_body : Bytes → Option (Option Err × ReadState) → Option Round
unfolding protocol_err result_of finished
after_body msg none = none
after_body msg (some (some e, s)) = some (protocol_err msg ∷ [], init)
after_body msg (some (none, s)) =
    if finished s then some (delivered (result_of s) ∷ [], init) else some ([], s)

-- The loop body behind a successful `readLine`; `none` is a panic.
unfoldable pub on_message : Bytes → ReadState → Option Round
unfolding after_muti_header after_bulk_header after_body parse_single_line_reply read_body
    parse_muti_bulk_header parse_bulk_header chop
on_message [] s = none
on_message (c ∷ msg) s =
    if s.reading_multi_line
    then after_body (c ∷ msg) (read_body (c ∷ msg) s)
    else if c == b'*'
    then some (after_muti_header (parse_muti_bulk_header (c ∷ msg) s))
    else if c == b'$'
    then some (after_bulk_header (c ∷ msg) (parse_bulk_header (c ∷ msg) s))
    else elim (parse_single_line_reply (c ∷ msg)) [ none ↦ none | some p ↦ some (p ∷ [], init) ]

-- How the goroutine ends: the channel is closed behind an input error, or a panic leaves it open.
pub data End : Type 0 where
  closed crashed out_of_fuel : End

pub record Stream : Type 0 where
  pub payloads : List Payload
  pub end : End

pub data Step : Type 0 where
  stop : List Payload → End → Step
  next : List Payload → Bytes → ReadState → Step

unfoldable pub after_message : Bytes → Option Round → Step
after_message rest none = stop [] crashed
after_message rest (some (ps, t)) = next ps rest t

-- What the loop does with the result of `readLine`.
unfoldable pub after_line : Line → Step
unfolding after_message
after_line panic = stop [] crashed
after_line (io_error e) = stop (failed e ∷ []) closed
after_line (bad_line e rest) = next (failed e ∷ []) rest init
after_line (line msg rest s) = after_message rest (on_message msg s)

abbrev pub prepend : List Payload → Stream → Stream
prepend ps r = record r { payloads = ps ++ r.payloads }

-- The end of the loop, or its next rounds.
abbrev pub advance : Step → (Bytes → ReadState → Stream) → Stream
advance (stop ps e) rounds = record { payloads = ps; end = e }
advance (next ps rest t) rounds = prepend ps (rounds rest t)

module _ (ending : Err) where
  -- One round of the loop of `parse0`.
  unfoldable pub step : Bytes → ReadState → Step
  unfolding after_line
  step input s = after_line (read_line ending input s)

  -- `parse0`, at most `fuel` rounds.
  unfoldable pub parse0 : ℕ → Bytes → ReadState → Stream
  parse0 zero input s = record { payloads = []; end = out_of_fuel }
  parse0 (suc f) input s = advance (step input s) (parse0 f)

  -- Each round takes a byte or ends the loop, so the length of the input is fuel enough.
  unfoldable pub parse_from : Bytes → ReadState → Stream
  unfolding parse0
  parse_from input s = parse0 (suc (length input)) input s

  unfoldable pub parse_stream : Bytes → Stream
  unfolding parse_from
  parse_stream input = parse_from input init
