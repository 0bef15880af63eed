-- ===== src/Logger/Order.antt =====
-- lib/logger/logger.go: what reaches the inner logger.
use go_redis.Base.{
  ℕ, zero, suc, ◌<◌, ◌≡◌, refl, sym, ap, ◌∙◌, some, List, [], ◌∷◌, ◌++◌, append_assoc, append-nil,
  arith, length, get_elem?, one, occ, one_self, occ-split,
}
use go_redis.Logger.{
  LogEntry, Worker, idle, received, logged, Logger, new_logger, get_new, get_pooled, fill_entry,
  send_entry, receive_entry, write_entry, put_entry, Step, get_fresh, get_again, fill, send,
  receive, write, put, drop, Reach, start, step,
}
use go_redis.Logger.Owner.{at_work, total, msg_at-some, msgs, unwritten, pending}
use go_redis.Logger.Calls.{
  Inv, new_logger-Inv, get_new-Inv, get_pooled-Inv, fill_entry-Inv, send_entry-Inv,
}

module _ (s : Logger) (inv : Inv s) where
  receive_entry-Inv :
      (a : ℕ) (rest : List ℕ)
      → s.worker ≡ idle
      → s.entry_chan ≡ a ∷ rest
      → Inv (receive_entry a rest s)
  unfolding receive_entry
  receive_entry-Inv a rest w at =
      let now = receive_entry a rest s in
      let same : (b : ℕ) → total b now ≡ total b s =
        λ b. omega (arith, ap (at_work b) w, ap (occ b) at) in
      record {
        unique = λ b. omega (arith, same b, inv.unique b);
        made = λ b k. inv.made b (omega (arith, same b, k));
        fills = inv.fills;
        in_order =
            inv.in_order
            ∙ ap (λ r. s.written ++ r)
                (ap (λ v. unwritten s.heap v ++ msgs s.heap s.entry_chan) w ∙ ap (msgs s.heap) at);
        room = omega (arith, inv.room, ap length at);
      }

  write_entry-Inv :
      (a : ℕ) (e : LogEntry)
      → s.worker ≡ received a
      → get_elem? s.heap a ≡ some e
      → Inv (write_entry a e s)
  unfolding write_entry
  write_entry-Inv a e w at =
      let now = write_entry a e s in
      let same : (b : ℕ) → total b now ≡ total b s = λ b. omega (arith, ap (at_work b) w) in
      record {
        unique = λ b. omega (arith, same b, inv.unique b);
        made = λ b k. inv.made b (omega (arith, same b, k));
        fills = inv.fills;
        in_order =
            inv.in_order
            ∙ (ap (λ r. s.written ++ r)
                  (ap (λ v. unwritten s.heap v ++ msgs s.heap s.entry_chan) w
                    ∙ ap (λ r. r ++ msgs s.heap s.entry_chan) (msg_at-some s.heap a e at))
                ∙ sym (append_assoc s.written (e.msg ∷ []) (msgs s.heap s.entry_chan)));
        room = inv.room;
      }

  put_entry-Inv : (a : ℕ) → s.worker ≡ logged a → Inv (put_entry a s)
  unfolding put_entry
  put_entry-Inv a w =
      let now = put_entry a s in
      let same : (b : ℕ) → total b now ≡ total b s = λ b. omega (arith, ap (at_work b) w) in
      record {
        unique = λ b. omega (arith, same b, inv.unique b);
        made = λ b k. inv.made b (omega (arith, same b, k));
        fills = inv.fills;
        in_order =
            inv.in_order
            ∙ ap (λ v. s.written ++ (unwritten s.heap v ++ msgs s.heap s.entry_chan)) w;
        room = inv.room;
      }

step-Inv : (s : Logger) {t : Logger} → Inv s → Step s t → Inv t
unfolding get_new get_pooled fill_entry send_entry receive_entry write_entry put_entry
step-Inv s inv (get_fresh i e at) = get_new-Inv s inv i e at
step-Inv s inv (get_again i e xs ys a at split) = get_pooled-Inv s inv i e xs ys a at split
step-Inv s inv (fill i a e at) = fill_entry-Inv s inv i a e at
step-Inv s inv (send i a e at room) = send_entry-Inv s inv i a e at room
step-Inv s inv (receive a rest w at) = receive_entry-Inv s inv a rest w at
step-Inv s inv (write a e w at) = write_entry-Inv s inv a e w at
step-Inv s inv (put a w) = put_entry-Inv s inv a w
step-Inv s inv (drop xs ys a split) = record {
  unique = λ b. omega (arith, inv.unique b, ap (occ b) split, occ-split b a xs ys);
  made = λ b n. inv.made b (omega (arith, n, ap (occ b) split, occ-split b a xs ys));
  fills = inv.fills;
  in_order = inv.in_order;
  room = inv.room;
}

Reach-Inv : {s t : Logger} → Inv s → Reach s t → Inv t
Reach-Inv inv start = inv
Reach-Inv inv (step {t = t} r one) = step-Inv t (Reach-Inv inv r) one

-- A run of the goroutine of the logger alone.
pub data Flushes : Logger → Logger → Type 0 where
  rest : {s : Logger} → Flushes s s
  receive_next :
      {s t : Logger} (a : ℕ) (others : List ℕ)
      → s.worker ≡ idle
      → s.entry_chan ≡ a ∷ others
      → Flushes (receive_entry a others s) t
      → Flushes s t
  write_next :
      {s t : Logger} (a : ℕ) (e : LogEntry)
      → s.worker ≡ received a
      → get_elem? s.heap a ≡ some e
      → Flushes (write_entry a e s) t
      → Flushes s t
  put_next : {s t : Logger} (a : ℕ) → s.worker ≡ logged a → Flushes (put_entry a s) t → Flushes s t

-- Nothing waits.
abbrev Flushed : Logger → Type 0
Flushed t = (t.worker ≡ idle) × (t.entry_chan ≡ [])

lt-get_elem? :
    (heap : List LogEntry) (a : ℕ) → a < length heap → (e : LogEntry) × (get_elem? heap a ≡ some e)
lt-get_elem? [] a h = elim h [ ]
lt-get_elem? (e ∷ heap) zero h = (e, refl)
lt-get_elem? (e ∷ heap) (suc a) h = lt-get_elem? heap a (omega arith)

flush_received :
    (s : Logger) (a : ℕ)
    → Inv s
    → s.worker ≡ received a
    → (e : LogEntry) × (get_elem? s.heap a ≡ some e) × (s.worker ≡ received a)
flush_received s a inv w =
    let (e, at) =
      lt-get_elem? s.heap a (inv.made a (omega (arith, ap (at_work a) w, one_self a))) in
    (e, at, w)

flush_idle :
    (chan : List ℕ) (s : Logger)
    → Inv s
    → s.worker ≡ idle
    → s.entry_chan ≡ chan
    → (t : Logger) × Flushes s t × Flushed t × Inv t × (t.accepted ≡ s.accepted)
unfolding receive_entry write_entry put_entry
flush_idle [] s inv w at = (s, rest, (w, at), inv, refl)
flush_idle (a ∷ others) s inv w at =
    let s1 = receive_entry a others s in
    let inv1 = receive_entry-Inv s inv a others w at in
    let (e, is, w1) = flush_received s1 a inv1 refl in
    let inv2 = write_entry-Inv s1 inv1 a e w1 is in
    let s2 = write_entry a e s1 in
    let inv3 = put_entry-Inv s2 inv2 a refl in
    let (t, run, done, last, same) = flush_idle others (put_entry a s2) inv3 refl refl in
    (t, receive_next a others w at (write_next a e w1 is (put_next a refl run)), done, last, same)

flush_any :
    (v : Worker) (s : Logger)
    → Inv s
    → s.worker ≡ v
    → (t : Logger) × Flushes s t × Flushed t × Inv t × (t.accepted ≡ s.accepted)
unfolding write_entry put_entry
flush_any idle s inv w = flush_idle s.entry_chan s inv w refl
flush_any (logged a) s inv w =
    let (t, run, done, last, eq) =
      flush_idle s.entry_chan (put_entry a s) (put_entry-Inv s inv a w) refl refl in
    (t, put_next a w run, done, last, eq)
flush_any (received a) s inv w =
    let (e, is, same) = flush_received s a inv w in
    let s1 = write_entry a e s in
    let (t, run, done, last, eq) =
      flush_idle s.entry_chan (put_entry a s1)
        (put_entry-Inv s1 (write_entry-Inv s inv a e w is) a refl) refl refl in
    (t, write_next a e w is (put_next a refl run), done, last, eq)

-- Whatever entries the pool gives again: in every state that any number of concurrent calls of `Output`
-- reach, the messages of the calls that have sent are, in the order of the sends, those written and then
-- those that wait, each once and as its call formatted it. And from there the goroutine of the logger can go
-- on alone until the channel is empty and it has written all of them.
pub Reach-written :
    (entries : List LogEntry) {s : Logger}
    → Reach (new_logger entries) s
    → (s.accepted ≡ s.written ++ pending s)
      × ((t : Logger) × Flushes s t × (t.entry_chan ≡ []) × (t.written ≡ s.accepted))
Reach-written entries {s} r =
    let inv = Reach-Inv (new_logger-Inv entries) r in
    let (t, run, done, last, same) = flush_any s.worker s inv refl in
    let none_left : pending t ≡ [] =
      ap (λ v. unwritten t.heap v ++ msgs t.heap t.entry_chan) done.0 ∙ ap (msgs t.heap) done.1 in
    (
      inv.in_order,
      (
        t,
        run,
        done.1,
        sym (
            sym same
            ∙ (last.in_order ∙ (ap (λ r. t.written ++ r) none_left ∙ append-nil t.written))),
      ),
    )
