-- ===== src/Parser/Total.antt =====
-- The loop of `parse0` ends: every round takes input, and the fuel of `parse_stream` is enough.
use go_redis.Base.{
  ℕ, zero, suc, ◌<◌, ◌≡◌, refl, ap, ◌∙◌, ◌≢◌, Option, none, some, List, arith, Bytes, length, ℤ,
  pos, negsuc,
}
use go_redis.Parser.ReadLine.Progress.{LineTakes, read_line-takes}
use go_redis.Parser.State.{NonNeg, IsValid, RoundIsValid, init-IsValid, on_message-IsValid}
use go_redis.Parser.{
  Err, Payload, ReadState, init, Line, line, io_error, bad_line, panic, read_line, on_message,
  Round, Step, stop, next, step, after_line, after_message, Stream, End, out_of_fuel, prepend,
  advance, parse0, parse_from, parse_stream,
}

pub NonNeg-pos : (z : ℤ) → NonNeg z → (n : ℕ) × (z ≡ pos n)
NonNeg-pos (pos n) h = (n, refl)
NonNeg-pos (negsuc n) h = absurd h

-- A round that goes on has taken a byte and keeps the invariant; one that stops does not ask for
-- fuel.
abbrev pub StepTakes : Bytes → Step → Type 0
StepTakes input (stop ps e) = e ≢ out_of_fuel
StepTakes input (next ps rest t) = (length rest < length input) × IsValid t

after_message-takes :
    (input rest : Bytes) (r : Option Round)
    → length rest < length input
    → RoundIsValid r
    → StepTakes input (after_message rest r)
unfolding after_message
after_message-takes input rest none h v = λ e. cc
after_message-takes input rest (some (ps, t)) h v = (h, v)

-- `readLine` leaves no length pending, which is as good as before.
restored : (s t : ReadState) → IsValid s → t ≡ record s { bulk_len = pos 0 } → IsValid t
restored s t v e = rw e (record { nonneg = tt; fresh = λ _. refl; room = v.room; kind = v.kind })

after_line-takes :
    (input : Bytes) (s : ReadState) (l : Line)
    → IsValid s
    → LineTakes input s l
    → StepTakes input (after_line l)
unfolding after_line
after_line-takes input s panic v h = λ e. cc
after_line-takes input s (io_error e) v h = λ e. cc
after_line-takes input s (bad_line e rest) v h = (h, init-IsValid)
after_line-takes input s (line msg rest t) v h =
    after_message-takes input rest (on_message msg t) h.0
      (on_message-IsValid msg t (restored s t v h.1) (ap (λ (r : ReadState). r.bulk_len) h.1))

-- From a valid state, every round ends the loop or takes input and leaves a valid state.
pub step-takes :
    (ending : Err) (input : Bytes) (s : ReadState)
    → IsValid s
    → StepTakes input (step ending input s)
unfolding step
step-takes ending input s v =
    let (n, e) = NonNeg-pos s.bulk_len v.nonneg in
    after_line-takes input s (read_line ending input s) v (read_line-takes ending input s n e)

-- Rounds that agree wherever the step can lead give the same stream.
advance-eq :
    (input : Bytes) (t : Step) (j k : Bytes → ReadState → Stream)
    → StepTakes input t
    → ((rest : Bytes) (u : ReadState)
        → length rest < length input
        → IsValid u
        → j rest u ≡ k rest u)
    → advance t j ≡ advance t k
advance-eq input (stop ps e) j k w same = refl
advance-eq input (next ps rest u) j k w same = ap (prepend ps) (same rest u w.0 w.1)

-- Enough fuel is as good as any more.
parse0-fuel :
    (ending : Err) (f g : ℕ) (input : Bytes) (s : ReadState)
    → IsValid s
    → length input < f
    → length input < g
    → parse0 ending f input s ≡ parse0 ending g input s
unfolding parse0
parse0-fuel ending zero g input s v h k = absurd (omega arith)
parse0-fuel ending (suc f) zero input s v h k = absurd (omega arith)
parse0-fuel ending (suc f) (suc g) input s v h k =
    advance-eq input (step ending input s) (parse0 ending f) (parse0 ending g)
      (step-takes ending input s v)
      λ rest u l w. parse0-fuel ending f g rest u w (omega arith) (omega arith)

-- The stream is its first round and the stream of what that round leaves.
pub parse_from-step :
    (ending : Err) (input : Bytes) (s : ReadState)
    → IsValid s
    → parse_from ending input s ≡ advance (step ending input s) (parse_from ending)
unfolding parse_from
parse_from-step ending input s v =
    advance-eq input (step ending input s) (parse0 ending (length input))
      (λ rest u. parse0 ending (suc (length rest)) rest u) (step-takes ending input s v)
      λ rest u l w. parse0-fuel ending (length input) (suc (length rest)) rest u w l (omega arith)

advance-ends :
    (input : Bytes) (t : Step) (k : Bytes → ReadState → Stream)
    → StepTakes input t
    → ((rest : Bytes) (u : ReadState)
        → length rest < length input
        → IsValid u
        → (k rest u).end ≢ out_of_fuel)
    → (advance t k).end ≢ out_of_fuel
advance-ends input (stop ps e) k w ends = w
advance-ends input (next ps rest u) k w ends = ends rest u w.0 w.1

parse0-ends :
    (ending : Err) (f : ℕ) (input : Bytes) (s : ReadState)
    → IsValid s
    → length input < f
    → (parse0 ending f input s).end ≢ out_of_fuel
unfolding parse0
parse0-ends ending zero input s v h = absurd (omega arith)
parse0-ends ending (suc f) input s v h =
    advance-ends input (step ending input s) (parse0 ending f) (step-takes ending input s v)
      λ rest u l w. parse0-ends ending f rest u w (omega arith)

-- On every input the parser's loop ends, by an input error or by a panic.
pub parse_stream-ends :
    (ending : Err) (input : Bytes) → (parse_stream ending input).end ≢ out_of_fuel
unfolding parse_stream
parse_stream-ends ending input =
    parse0-ends ending (suc (length input)) input init init-IsValid (omega arith)

pub parse_from-next :
    (ending : Err) (input rest : Bytes) (s t : ReadState) (ps : List Payload)
    → IsValid s
    → step ending input s ≡ next ps rest t
    → parse_from ending input s ≡ prepend ps (parse_from ending rest t)
parse_from-next ending input rest s t ps v e =
    parse_from-step ending input s v ∙ ap (λ u. advance u (parse_from ending)) e

pub parse_from-stop :
    (ending : Err) (input : Bytes) (s : ReadState) (ps : List Payload) (d : End)
    → IsValid s
    → step ending input s ≡ stop ps d
    → parse_from ending input s ≡ record { payloads = ps; end = d }
parse_from-stop ending input s ps d v e =
    parse_from-step ending input s v ∙ ap (λ u. advance u (parse_from ending)) e
