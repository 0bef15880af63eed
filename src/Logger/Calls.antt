-- ===== src/Logger/Calls.antt =====
-- lib/logger/logger.go: the steps of the goroutines that log.
use go_redis.Base.{
  ℕ, zero, suc, ◌+◌, ◌≤◌, ◌<◌, ◌≡◌, refl, sym, ap, ◌∙◌, ◌≢◌, ◌⊎◌, inl, inr, some, List, [], ◌∷◌,
  ◌++◌, map, append_assoc, arith, length, get_elem?, set, length-append, length-set,
  get_elem?-set_self, get_elem?-set_ne, get_elem?-append, get_elem?-append_lt, set-cases, one, occ,
  one_self, one-le, one-ne, one-eq, one-lt, occ-append, occ-split,
}
use go_redis.Logger.{
  LogEntry, ready, has, filled, sent, Logger, buffer_size, new_logger, empty_entry, get_new,
  get_pooled, fill_entry, send_entry,
}
use go_redis.Logger.Owner.{
  held_all, total, held_all-set, held_all-get_elem?, held_all-two, held_all-ready, msg_at-some,
  msgs, unwritten, pending, msgs-append, pending-same,
}

-- Each address that was made is in one place, a filled entry has its message, and what is sent and not
-- written waits in order.
pub record Inv (s : Logger) : Type 0 where
  pub unique : (a : ℕ) → total a s ≤ 1
  pub made : (a : ℕ) → 1 ≤ total a s → a < length s.heap
  pub fills :
      (i a : ℕ) (e : LogEntry)
      → get_elem? s.callers i ≡ some (filled a e)
      → get_elem? s.heap a ≡ some e
  pub in_order : s.accepted ≡ s.written ++ pending s
  pub room : length s.entry_chan ≤ buffer_size

not_filled :
    (es : List LogEntry) (i a : ℕ) (e : LogEntry) → get_elem? (map ready es) i ≢ some (filled a e)
not_filled [] i a e = λ h. cc
not_filled (x ∷ es) zero a e = λ h. cc
not_filled (x ∷ es) (suc i) a e = not_filled es i a e

pub new_logger-Inv : (entries : List LogEntry) → Inv (new_logger entries)
new_logger-Inv entries = record {
  unique = λ a. omega (arith, held_all-ready a entries);
  made = λ a n. absurd (omega (arith, n, held_all-ready a entries));
  fills = λ i a e at. absurd (not_filled entries i a e at);
  in_order = refl;
  room = omega arith;
}

zero_or : (n : ℕ) → (n ≡ 0) ⊎ (1 ≤ n)
zero_or zero = inl refl
zero_or (suc n) = inr (omega arith)

module _ (s : Logger) (inv : Inv s) where
  pub get_new-Inv :
      (i : ℕ) (e : LogEntry) → get_elem? s.callers i ≡ some (ready e) → Inv (get_new i e s)
  unfolding get_new
  get_new-Inv i e at =
      let n = length s.heap in
      let more : (a : ℕ) → held_all a (set s.callers i (has n e)) ≡ held_all a s.callers + one a n =
        λ a. omega (arith, held_all-set a s.callers i (ready e) (has n e) at) in
      record {
        unique = λ a. elim (zero_or (total a s)) [
          | inl z ↦ omega (arith, z, more a, one-le a n)
          | inr k ↦ omega (arith, inv.unique a, more a, one-lt a n (inv.made a k))
        ];
        made = λ a k. elim (zero_or (total a s)) [
          | inl z ↦ omega (
            arith,
            length-append s.heap (empty_entry ∷ []),
            one-eq a n (omega (arith, z, k, more a)),
          )
          | inr h ↦ omega (arith, length-append s.heap (empty_entry ∷ []), inv.made a h)
        ];
        fills = λ j b f h. elim (set-cases s.callers i j (has n e) (filled b f) h) [
          | inl same ↦ cc
          | inr old ↦ get_elem?-append s.heap (empty_entry ∷ []) b f (inv.fills j b f old.1)
        ];
        in_order =
            inv.in_order
            ∙ ap (λ r. s.written ++ r)
                (sym (
                  pending-same s (s.heap ++ empty_entry ∷ []) (λ a h.
                    get_elem?-append_lt s.heap (empty_entry ∷ []) a
                      (inv.made a (omega (arith, h))))));
        room = inv.room;
      }

  pub get_pooled-Inv :
      (i : ℕ) (e : LogEntry) (xs ys : List ℕ) (a : ℕ)
      → get_elem? s.callers i ≡ some (ready e)
      → s.entry_pool ≡ xs ++ a ∷ ys
      → Inv (get_pooled i e a (xs ++ ys) s)
  unfolding get_pooled
  get_pooled-Inv i e xs ys a at split =
      let now = get_pooled i e a (xs ++ ys) s in
      let same : (b : ℕ) → total b now ≡ total b s = λ b. omega (
        arith,
        ap (occ b) split,
        occ-split b a xs ys,
        held_all-set b s.callers i (ready e) (has a e) at,
      ) in
      record {
        unique = λ b. omega (arith, same b, inv.unique b);
        made = λ b k. inv.made b (omega (arith, same b, k));
        fills = λ j b f h. elim (set-cases s.callers i j (has a e) (filled b f) h) [
          | inl e ↦ cc
          | inr old ↦ inv.fills j b f old.1
        ];
        in_order = inv.in_order;
        room = inv.room;
      }

  pub fill_entry-Inv :
      (i a : ℕ) (e : LogEntry) → get_elem? s.callers i ≡ some (has a e) → Inv (fill_entry i a e s)
  unfolding fill_entry
  fill_entry-Inv i a e at =
      let now = fill_entry i a e s in
      let same : (b : ℕ) → total b now ≡ total b s =
        λ b. omega (arith, held_all-set b s.callers i (has a e) (filled a e) at) in
      let mine : (b : ℕ) → one b a ≤ held_all b s.callers =
        λ b. held_all-get_elem? b s.callers i (has a e) at in
      record {
        unique = λ b. omega (arith, same b, inv.unique b);
        made = λ b k. omega (arith, length-set s.heap a e, inv.made b (omega (arith, same b, k)));
        fills = λ j b f h. elim (set-cases s.callers i j (filled a e) (filled b f) h) [
          | inl eq ↦
              let lt = inv.made a (omega (arith, mine a, one_self a)) in
              let same_address : b ≡ a = cc in
              let same_entry : e ≡ f = cc in
              ap (get_elem? (set s.heap a e)) same_address
              ∙ (get_elem?-set_self s.heap a e lt ∙ ap some same_entry)
          | inr old ↦
              let two = held_all-two b s.callers i j (has a e) (filled b f) old.0 at old.1 in
              get_elem?-set_ne s.heap a b e
                (λ q. one-ne b a (omega (arith, two, inv.unique b, one_self b)) (sym q))
              ∙ inv.fills j b f old.1
        ];
        in_order =
            inv.in_order
            ∙ ap (λ r. s.written ++ r)
                (sym (
                  pending-same s (set s.heap a e) (λ b h.
                    get_elem?-set_ne s.heap a b e
                      (λ q. one-ne b a (omega (arith, h, mine b, inv.unique b)) (sym q)))));
        room = inv.room;
      }

  pub send_entry-Inv :
      (i a : ℕ) (e : LogEntry)
      → get_elem? s.callers i ≡ some (filled a e)
      → length s.entry_chan < buffer_size
      → Inv (send_entry i a e s)
  unfolding send_entry
  send_entry-Inv i a e at room =
      let now = send_entry i a e s in
      let same : (b : ℕ) → total b now ≡ total b s = λ b. omega (
        arith,
        held_all-set b s.callers i (filled a e) sent at,
        occ-append b s.entry_chan (a ∷ []),
      ) in
      record {
        unique = λ b. omega (arith, same b, inv.unique b);
        made = λ b k. inv.made b (omega (arith, same b, k));
        fills = λ j b f h. elim (set-cases s.callers i j sent (filled b f) h) [
          | inl e ↦ cc
          | inr old ↦ inv.fills j b f old.1
        ];
        in_order =
            let waiting = unwritten s.heap s.worker in
            let last : msgs s.heap (s.entry_chan ++ a ∷ [])
                ≡ msgs s.heap s.entry_chan ++ e.msg ∷ [] =
              msgs-append s.heap s.entry_chan (a ∷ [])
              ∙ ap (λ r. msgs s.heap s.entry_chan ++ (r ++ []))
                  (msg_at-some s.heap a e (inv.fills i a e at)) in
            ap (λ r. r ++ e.msg ∷ []) inv.in_order
            ∙ (append_assoc s.written (pending s) (e.msg ∷ [])
                ∙ ap (λ r. s.written ++ r)
                    (append_assoc waiting (msgs s.heap s.entry_chan) (e.msg ∷ [])
                      ∙ ap (λ r. waiting ++ r) (sym last)));
        room = omega (arith, room, length-append s.entry_chan (a ∷ []));
      }
