-- ===== src/Parser/Dollar.antt =====
-- No argument that begins with `$` is ever delivered: within a command such a line is read as a
-- length.
use go_redis.Base.{
  ℕ, zero, suc, sym, subst, ◌≢◌, inl, inr, Option, none, some, [], ◌∷◌, ◌++◌, arith, Bytes, length,
  All, All-append, ◌==◌, if◌then◌else◌, Bool-cases, ℤ, pos, negsuc,
}
use go_redis.Strconv.{parse_int}
use go_redis.Reply.{Reply, multi_bulk}
use go_redis.Parser.ReadLine.Progress.{LineTakes, read_line-takes}
use go_redis.Parser.State.{IsValid, init-IsValid}
use go_redis.Parser.Total.{NonNeg-pos, StepTakes, step-takes}
use go_redis.Parser.{
  Err, ReadState, init, Payload, Stream, parse0, parse_stream, on_message, after_message,
  after_line, next, stop, step, chop, take_length, Round, advance, Step, Line, line, io_error,
  bad_line, panic, read_line, after_body, body_line, after_muti_header, parse_muti_bulk_header,
  after_bulk_header, parse_bulk_header, parse_single_line_reply,
}

abbrev pub NoDollar : Bytes → Type 0
NoDollar [] = Unit
NoDollar (c ∷ s) = c ≢ b'$'

abbrev pub ReplyNoDollar : Option Reply → Type 0
ReplyNoDollar (some (multi_bulk args)) = All NoDollar args
ReplyNoDollar _ = Unit

abbrev pub PayloadNoDollar : Payload → Type 0
PayloadNoDollar p = ReplyNoDollar p.reply

abbrev RoundNoDollar : Option Round → Type 0
RoundNoDollar none = Unit
RoundNoDollar (some (ps, t)) = All PayloadNoDollar ps × All NoDollar t.args

gained-NoDollar :
    (msg arg : Bytes) (s : ReadState) (k : ℤ)
    → All NoDollar s.args
    → NoDollar arg
    → RoundNoDollar
        (after_body msg (some (none, record s { args = s.args ++ arg ∷ []; bulk_len = k })))
unfolding after_body
gained-NoDollar msg arg s k h d = ground (arith, All-append NoDollar s.args (arg ∷ []) h (d, tt))

kept-NoDollar :
    (msg : Bytes) (s : ReadState) (k : ℤ)
    → All NoDollar s.args
    → RoundNoDollar (after_body msg (some (none, record s { bulk_len = k })))
unfolding after_body
kept-NoDollar msg s k h = ground arith

-- A length line leaves the arguments alone, but that a length of 0 or less is an empty argument.
length-NoDollar :
    (msg str : Bytes) (s : ReadState) (z : Option ℤ)
    → All NoDollar s.args
    → RoundNoDollar (after_body msg (take_length z msg s))
unfolding take_length
length-NoDollar msg str s none h = unfold after_body in ((tt, tt), tt)
length-NoDollar msg str s (some (pos (suc n))) h = kept-NoDollar msg s (pos (suc n)) h
length-NoDollar msg str s (some (pos zero)) h = gained-NoDollar msg [] s (pos 0) h tt
length-NoDollar msg str s (some (negsuc n)) h = gained-NoDollar msg [] s (pos 0) h tt

body-NoDollar :
    (msg str : Bytes) (s : ReadState)
    → All NoDollar s.args
    → RoundNoDollar (after_body msg (body_line msg str s))
unfolding body_line
body-NoDollar msg [] s h = unfold after_body in tt
body-NoDollar msg (c ∷ str) s h = elim (Bool-cases (c == b'$')) [
  | inl e ↦ rw e (length-NoDollar msg str s (parse_int str) h)
  | inr e ↦ rw e (gained-NoDollar msg (c ∷ str) s s.bulk_len h (ground (arith, e)))
]

-- Outside a command no round delivers arguments, and none begins with some.
outside-NoDollar :
    (c : ℕ) (msg : Bytes) (s : ReadState)
    → All NoDollar s.args
    → RoundNoDollar (
        if c == b'*'
        then some (after_muti_header (parse_muti_bulk_header (c ∷ msg) s))
        else if c == b'$'
        then some (after_bulk_header (c ∷ msg) (parse_bulk_header (c ∷ msg) s))
        else elim (parse_single_line_reply (c ∷ msg)) [
          | none ↦ none
          | some p ↦ some (p ∷ [], init)
        ])
unfolding after_muti_header after_bulk_header parse_muti_bulk_header parse_bulk_header
    parse_single_line_reply
outside-NoDollar c msg s h = ground arith

on_message-NoDollar :
    (msg : Bytes) (s : ReadState) → All NoDollar s.args → RoundNoDollar (on_message msg s)
unfolding on_message
on_message-NoDollar [] s h = tt
on_message-NoDollar (c ∷ msg) s h = elim (Bool-cases s.reading_multi_line) [
  | inl r ↦ simp r (body-NoDollar (c ∷ msg) (chop (c ∷ msg)) s h)
  | inr r ↦ simp r (outside-NoDollar c msg s h)
]

-- Between two rounds: the parser's invariant, and the arguments read so far.
abbrev Fine : ReadState → Type 0
Fine s = IsValid s × All NoDollar s.args

abbrev StepNoDollar : Step → Type 0
StepNoDollar (stop ps e) = All PayloadNoDollar ps
StepNoDollar (next ps rest t) = All PayloadNoDollar ps × All NoDollar t.args

after_message-NoDollar :
    (rest : Bytes) (r : Option Round) → RoundNoDollar r → StepNoDollar (after_message rest r)
unfolding after_message
after_message-NoDollar rest none h = tt
after_message-NoDollar rest (some (ps, t)) h = h

after_line-NoDollar :
    (input : Bytes) (s : ReadState) (l : Line)
    → All NoDollar s.args
    → LineTakes input s l
    → StepNoDollar (after_line l)
unfolding after_line
after_line-NoDollar input s panic h k = tt
after_line-NoDollar input s (io_error e) h k = (tt, tt)
after_line-NoDollar input s (bad_line e rest) h k = ((tt, tt), tt)
after_line-NoDollar input s (line msg rest t) h k =
    after_message-NoDollar rest (on_message msg t)
      (on_message-NoDollar msg t (subst (λ (u : ReadState). All NoDollar u.args) (sym k.1) h))

step-NoDollar :
    (ending : Err) (input : Bytes) (s : ReadState) → Fine s → StepNoDollar (step ending input s)
unfolding step
step-NoDollar ending input s (v, h) =
    let (n, e) = NonNeg-pos s.bulk_len v.nonneg in
    after_line-NoDollar input s (read_line ending input s) h (read_line-takes ending input s n e)

advance-NoDollar :
    (input : Bytes) (t : Step) (k : Bytes → ReadState → Stream)
    → StepTakes input t
    → StepNoDollar t
    → ((rest : Bytes) (u : ReadState) → Fine u → All PayloadNoDollar (k rest u).payloads)
    → All PayloadNoDollar (advance t k).payloads
advance-NoDollar input (stop ps e) k w h rounds = h
advance-NoDollar input (next ps rest u) k w h rounds =
    All-append PayloadNoDollar ps _ h.0 (rounds rest u (w.1, h.1))

parse0-NoDollar :
    (ending : Err) (f : ℕ) (input : Bytes) (s : ReadState)
    → Fine s
    → All PayloadNoDollar (parse0 ending f input s).payloads
unfolding parse0
parse0-NoDollar ending zero input s h = tt
parse0-NoDollar ending (suc f) input s h =
    advance-NoDollar input (step ending input s) (parse0 ending f) (step-takes ending input s h.0)
      (step-NoDollar ending input s h) λ rest u fine. parse0-NoDollar ending f rest u fine

-- Whatever bytes arrive, no argument of a command that the parser delivers begins with `$`.
pub parse_stream-NoDollar :
    (ending : Err) (input : Bytes) → All PayloadNoDollar (parse_stream ending input).payloads
unfolding parse_stream
parse_stream-NoDollar ending input =
    parse0-NoDollar ending (suc (length input)) input init (init-IsValid, tt)
