-- ===== src/Tcp/Late.antt =====
-- A connection that becomes active after `handler.Close`.
use go_redis.Base.{
  ℕ, ◌≤◌, ◌≡◌, refl, sym, ap, ◌∙◌, ◌≢◌, inl, inr, true, false, Option, some, List, arith, get_elem?,
  set, get_elem?-set_ne, get_elem?-append,
}
use go_redis.Tcp.{
  serving, returned, Link, finished, handler_closed, Server, new_server, accept_link, leave_link,
  drop_link, block_link, close_listener, close_handler, finish, Step, accept, accept_error, enter,
  hang_up, lose, block, cut_off, signal, close, drained, Reach,
}
use go_redis.Tcp.Shutdown.{
  weight, running, running-set, enter_link-now, step-Inv, Inv, Reach-Inv, new_server-Inv,
}

-- A run in which the client of connection `i` neither leaves nor is lost, nor sends what its parser panics on.
pub data Stays (i : ℕ) (s : Server) : Server → Type 0 where
  stay : Stays i s s
  go_on :
      {t u : Server} {label : Option ℕ}
      → Stays i s t
      → label ≢ some i
      → Step t label u
      → Stays i s u

-- The signal came, and the connection `i` is served since.
pub record Held (i : ℕ) (l : Link) (s : Server) : Type 0 where
  pub inv : Inv s
  pub closed : s.closer ≡ handler_closed
  pub at : get_elem? s.links i ≡ some l
  pub serves : l.stage ≡ serving
  pub opened : l.is_open ≡ true

-- Its goroutine is counted.
Held-running : (i : ℕ) (l : Link) (s : Server) → Held i l s → 1 ≤ running s.links
Held-running i l s h =
    let out : Link = record { stage = returned; is_open = false } in
    let one : weight l ≡ 1 =
      ap (λ st. weight (record { stage = st; is_open = l.is_open })) h.serves in
    omega (arith, running-set s.links i l out h.at, one)

step-closed :
    (i : ℕ) (l : Link) (s : Server) {label : Option ℕ} {t : Server}
    → Held i l s
    → Step s label t
    → t.closer ≡ handler_closed
unfolding accept_link leave_link drop_link block_link close_listener close_handler finish
step-closed i l s h (accept p b) = h.closed
step-closed i l s h (accept_error p) = h.closed
step-closed i l s h (enter j k at a) = rw (enter_link-now s j h.inv.refuses) h.closed
step-closed i l s h (hang_up j k at a) = h.closed
step-closed i l s h (lose j k at a) = h.closed
step-closed i l s h (block j k at a) = h.closed
step-closed i l s h (cut_off j k at a o) = h.closed
step-closed i l s h (signal c) = cc
step-closed i l s h (close c) = refl
step-closed i l s h (drained p z) = h.closed

set-other :
    (links : List Link) (i j : ℕ) (l k : Link)
    → i ≢ j
    → get_elem? links i ≡ some l
    → get_elem? (set links j k) i ≡ some l
set-other links i j l k n at = get_elem?-set_ne links j i k (λ e. n (sym e)) ∙ at

step-at :
    (i : ℕ) (l : Link) (s : Server) {label : Option ℕ} {t : Server}
    → label ≢ some i
    → Held i l s
    → Step s label t
    → get_elem? t.links i ≡ some l
unfolding accept_link leave_link drop_link block_link close_listener close_handler finish
step-at i l s n h (accept p b) = get_elem?-append s.links _ i l h.at
step-at i l s n h (accept_error p) = h.at
step-at i l s n h (enter j k at a) =
    rw (enter_link-now s j h.inv.refuses) (set-other s.links i j l _ (λ e. cc) h.at)
step-at i l s n h (hang_up j k at a) = set-other s.links i j l _ (λ e. n (ap some (sym e))) h.at
step-at i l s n h (lose j k at a) = set-other s.links i j l _ (λ e. n (ap some (sym e))) h.at
step-at i l s n h (block j k at a) = set-other s.links i j l _ (λ e. n (ap some (sym e))) h.at
step-at i l s n h (cut_off j k at a o) = set-other s.links i j l _ (λ e. cc) h.at
step-at i l s n h (signal c) = h.at
step-at i l s n h (close c) = cc
step-at i l s n h (drained p z) = absurd (omega (arith, z, h.inv.count, Held-running i l s h))

step-Held :
    (i : ℕ) (l : Link) (s : Server) {label : Option ℕ} {t : Server}
    → label ≢ some i
    → Held i l s
    → Step s label t
    → Held i l t
unfolding accept_link leave_link drop_link block_link close_listener close_handler finish
step-Held i l s other h one = record {
  inv = step-Inv s h.inv one;
  closed = step-closed i l s h one;
  at = step-at i l s other h one;
  serves = h.serves;
  opened = h.opened;
}

Stays-Held : (i : ℕ) (l : Link) {s t : Server} → Held i l s → Stays i s t → Held i l t
Stays-Held i l h stay = h
Stays-Held i l h (go_on {t = t} r other one) = step-Held i l t other (Stays-Held i l h r) one

-- The signal does not end the server while one client stays: a connection whose goroutine enters its loop
-- after `handler.Close` has closed the others is not closed, and in every run of the server in which this
-- client neither leaves nor is lost nor makes its parser panic, the connection is still served and
-- `ListenAndServe` does not return.
pub late_link-stuck :
    {s t : Server} (i : ℕ) (l : Link)
    → Reach new_server s
    → s.closer ≡ handler_closed
    → get_elem? s.links i ≡ some l
    → l.stage ≡ serving
    → l.is_open ≡ true
    → Stays i s t
    → (get_elem? t.links i ≡ some l) × (t.phase ≢ finished)
late_link-stuck {s} {t} i l r c at serves opened stays =
    let held =
      Stays-Held i l
        (record {
          inv = Reach-Inv new_server-Inv r;
          closed = c;
          at = at;
          serves = serves;
          opened = opened;
        })
        stays in
    (
      held.at,
      elim held.inv.ended [
        | inl more ↦ more
        | inr all ↦ absurd (omega (arith, all.1, Held-running i l t held))
      ],
    )
