-- ===== src/Logger.antt =====
-- lib/logger/logger.go: `Output` and the goroutine of a logger, which share entries through a pool and
-- a channel.
pub mod Owner
pub mod Calls
pub mod Order
pub mod Files
pub mod Lines
pub mod Rotation
use go_redis.Base.{
  ℕ, zero, suc, ◌+◌, ◌-◌, ◌*◌, ◌/◌, ◌%◌, ◌^◌, ◌≤◌, ◌<◌, min, max, ◌≡◌, refl, sym, ap, ◌∙◌, subst,
  ◌≡⟨◌⟩◌, ◌∎, ◌≢◌, ◌↔◌, ◌⊎◌, inl, inr, Bool, true, false, not, ◌&&◌, ◌||◌, Option, none, some, List,
  [], ◌∷◌, ◌++◌, map, append_assoc, append-nil, arith, Bytes, codes, bytes_eq, bytes_eq_refl,
  bytes_eq→eq, bytes_eq_iff, bytes_eq_of_ne, length, get_elem?, set, replicate, take, length-append,
  length-set, get_elem?-set_self, get_elem?-set_ne, set-get_elem?, set-set, get_elem?-lt, All,
  All-append, ltb, leb, ◌==◌, if◌then◌else◌, ltb→lt, lt→ltb, leb→le, ==_iff, ==_refl, Bool-cases,
  Option-cases, ◌>>=◌, ℤ, pos, negsuc, IsInt64, add_int64, add_int64-pos, to_word, of_word,
}
use go_redis.Strconv.{itoa}

pub data Level : Type 0 where
  debug info warning error fatal : Level

-- `levelFlags`.
unfoldable pub level_flag : Level → Bytes
level_flag debug = codes "DEBUG"
level_flag info = codes "INFO"
level_flag warning = codes "WARN"
level_flag error = codes "ERROR"
level_flag fatal = codes "FATAL"

pub record LogEntry : Type 0 where
  pub msg : Bytes
  pub level : Level

-- The line of `Output`: `base` is filepath.Base, and `caller` the result of runtime.Caller.
unfoldable pub format_msg : (Bytes → Bytes) → Option (Bytes × ℕ) → Level → Bytes → Bytes
unfolding level_flag
format_msg base (some (file, line)) level msg =
    codes "["
    ++ level_flag level
    ++ codes "]["
    ++ base file
    ++ codes ":"
    ++ itoa line
    ++ codes "] "
    ++ msg
format_msg base none level msg = codes "[" ++ level_flag level ++ codes "] " ++ msg

-- What a call of `Output` logs.
unfoldable pub output_entry : (Bytes → Bytes) → Option (Bytes × ℕ) → Level → Bytes → LogEntry
unfolding format_msg
output_entry base caller level msg = record {
  msg = format_msg base caller level msg;
  level = level;
}

-- The functions of the package, with fmt.Sprintln or fmt.Sprintf of the arguments `v` as `sprint`.
module _ {A : Type 0} (base : Bytes → Bytes) (caller : Option (Bytes × ℕ))
    (sprint : A → Bytes) where
  unfoldable pub log_debug : A → LogEntry
  unfolding output_entry
  log_debug v = output_entry base caller debug (sprint v)

  unfoldable pub log_info : A → LogEntry
  unfolding output_entry
  log_info v = output_entry base caller info (sprint v)

  unfoldable pub log_warn : A → LogEntry
  unfolding output_entry
  log_warn v = output_entry base caller warning (sprint v)

  unfoldable pub log_error : A → LogEntry
  unfolding output_entry
  log_error v = output_entry base caller error (sprint v)

  -- It only logs, as the others do.
  unfoldable pub log_fatal : A → LogEntry
  unfolding output_entry
  log_fatal v = output_entry base caller fatal (sprint v)

-- A goroutine in `Output`: before `entryPool.Get`, with the address of an entry, with the entry
-- written, or after the send. `entry` has what the call wants to log.
pub data Caller : Type 0 where
  ready : (entry : LogEntry) → Caller
  has : (address : ℕ) (entry : LogEntry) → Caller
  filled : (address : ℕ) (entry : LogEntry) → Caller
  sent : Caller

-- The goroutine of the logger: at the channel, with an entry received, or with its message written.
pub data Worker : Type 0 where
  idle : Worker
  received : (address : ℕ) → Worker
  logged : (address : ℕ) → Worker

-- `heap` has the entries that were ever made; the channel and the pool have addresses. `written` has the
-- messages given to the inner logger, and `accepted` those of the calls that have sent, both in order.
pub record Logger : Type 0 where
  pub heap : List LogEntry
  pub entry_pool : List ℕ
  pub entry_chan : List ℕ
  pub worker : Worker
  pub callers : List Caller
  pub written : List Bytes
  pub accepted : List Bytes

-- `bufferSize`.
abbrev pub buffer_size : ℕ
buffer_size = 100000

abbrev pub empty_entry : LogEntry
empty_entry = record { msg = []; level = debug }

-- A new logger, and the calls of `Output` to come.
abbrev pub new_logger : List LogEntry → Logger
new_logger entries = record {
  heap = [];
  entry_pool = [];
  entry_chan = [];
  worker = idle;
  callers = map ready entries;
  written = [];
  accepted = [];
}

-- `entryPool.Get`, when the pool has nothing to give: its function `New`.
unfoldable pub get_new : ℕ → LogEntry → Logger → Logger
get_new i e s = record s {
  heap = s.heap ++ empty_entry ∷ [];
  callers = set s.callers i (has (length s.heap) e);
}

-- `entryPool.Get`, when it gives the entry at `a`; `others` is what is left in the pool.
unfoldable pub get_pooled : ℕ → LogEntry → ℕ → List ℕ → Logger → Logger
get_pooled i e a others s = record s { entry_pool = others; callers = set s.callers i (has a e) }

-- `entry.msg = formattedMsg` and `entry.level = level`.
unfoldable pub fill_entry : ℕ → ℕ → LogEntry → Logger → Logger
fill_entry i a e s = record s { heap = set s.heap a e; callers = set s.callers i (filled a e) }

-- `logger.entryChan <- entry`.
unfoldable pub send_entry : ℕ → ℕ → LogEntry → Logger → Logger
send_entry i a e s = record s {
  entry_chan = s.entry_chan ++ a ∷ [];
  callers = set s.callers i sent;
  accepted = s.accepted ++ e.msg ∷ [];
}

-- The loop over the channel, `logger.logger.Output(0, e.msg)`, and `logger.entryPool.Put(e)`.
unfoldable pub receive_entry : ℕ → List ℕ → Logger → Logger
receive_entry a rest s = record s { entry_chan = rest; worker = received a }

unfoldable pub write_entry : ℕ → LogEntry → Logger → Logger
write_entry a e s = record s { worker = logged a; written = s.written ++ e.msg ∷ [] }

unfoldable pub put_entry : ℕ → Logger → Logger
put_entry a s = record s { entry_pool = a ∷ s.entry_pool; worker = idle }

-- One step of one goroutine. A pool may give any of its entries or a new one, and may drop one.
pub data Step (s : Logger) : Logger → Type 0 where
  get_fresh :
      (i : ℕ) (e : LogEntry) → get_elem? s.callers i ≡ some (ready e) → Step s (get_new i e s)
  get_again :
      (i : ℕ) (e : LogEntry) (xs ys : List ℕ) (a : ℕ)
      → get_elem? s.callers i ≡ some (ready e)
      → s.entry_pool ≡ xs ++ a ∷ ys
      → Step s (get_pooled i e a (xs ++ ys) s)
  fill :
      (i a : ℕ) (e : LogEntry)
      → get_elem? s.callers i ≡ some (has a e)
      → Step s (fill_entry i a e s)
  send :
      (i a : ℕ) (e : LogEntry)
      → get_elem? s.callers i ≡ some (filled a e)
      → length s.entry_chan < buffer_size
      → Step s (send_entry i a e s)
  receive :
      (a : ℕ) (rest : List ℕ)
      → s.worker ≡ idle
      → s.entry_chan ≡ a ∷ rest
      → Step s (receive_entry a rest s)
  write :
      (a : ℕ) (e : LogEntry)
      → s.worker ≡ received a
      → get_elem? s.heap a ≡ some e
      → Step s (write_entry a e s)
  put : (a : ℕ) → s.worker ≡ logged a → Step s (put_entry a s)
  drop :
      (xs ys : List ℕ) (a : ℕ)
      → s.entry_pool ≡ xs ++ a ∷ ys
      → Step s (record s { entry_pool = xs ++ ys })

-- What the logger reaches.
pub data Reach (s : Logger) : Logger → Type 0 where
  start : Reach s s
  step : {t u : Logger} → Reach s t → Step t u → Reach s u
