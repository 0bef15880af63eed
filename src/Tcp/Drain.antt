-- ===== src/Tcp/Drain.antt =====
-- tcp/server.go with resp/handler/handler.go: a signal that comes between two connections.
use go_redis.Base.{
  ℕ, zero, suc, ◌≤◌, ◌≡◌, refl, ap, ◌⊎◌, inl, inr, Bool, true, false, none, some, List, [], ◌∷◌,
  arith, get_elem?, set, All,
}
use go_redis.Tcp.{
  Stage, accepted, serving, blocked, returned, Link, Phase, accepting, draining, finished,
  listener_closed, Server, new_server, close_link, close_links, leave_link, close_handler, finish,
  Step, accept_error, cut_off, close, drained, Reach,
}
use go_redis.Tcp.Shutdown.{weight, running, running-set, step-Inv, Inv, Reach-Inv, new_server-Inv}

-- A run in which no client leaves.
pub data Quiet : Server → Server → Type 0 where
  rest : {s : Server} → Quiet s s
  next : {s t u : Server} → Step s none t → Quiet t u → Quiet s u

-- A goroutine that has returned, or that will find its connection closed.
abbrev Leaving : Link → Type 0
Leaving l = (l.stage ≡ returned) ⊎ ((l.stage ≡ serving) × (l.is_open ≡ false))

-- A goroutine in its loop, or one that has returned.
pub data AtLoop : Stage → Type 0 where
  in_loop : AtLoop serving
  out_of_loop : AtLoop returned

phase_cases : (p : Phase) → (p ≡ accepting) ⊎ ((p ≡ draining) ⊎ (p ≡ finished))
phase_cases accepting = inl refl
phase_cases draining = inr (inl refl)
phase_cases finished = inr (inr refl)

close_link-Leaving :
    (st : Stage) (b : Bool) → AtLoop st → Leaving (close_link (record { stage = st; is_open = b }))
close_link-Leaving accepted b h = elim h [ ]
close_link-Leaving blocked b h = elim h [ ]
close_link-Leaving serving b in_loop = inr (refl, refl)
close_link-Leaving returned b out_of_loop = inl refl

close_links-Leaving :
    (links : List Link) → All (λ l. AtLoop l.stage) links → All Leaving (close_links links)
unfolding close_links
close_links-Leaving [] h = tt
close_links-Leaving (l ∷ links) (n, h) =
    (close_link-Leaving l.stage l.is_open n, close_links-Leaving links h)

-- A goroutine that still runs.
abbrev Runner : List Link → Type 0
Runner links =
    (i : ℕ) × (l : Link) × (get_elem? links i ≡ some l) × (l.stage ≡ serving) × (l.is_open ≡ false)

weight-stage :
    (l : Link) (st : Stage)
    → l.stage ≡ st
    → weight l ≡ weight (record { stage = st; is_open = true })
weight-stage l st e = ap (λ (x : Stage). weight (record { stage = x; is_open = true })) e

find-Runner : (links : List Link) → All Leaving links → 1 ≤ running links → Runner links
find-Runner [] h n = absurd (omega (arith, n))
find-Runner (l ∷ links) (inr (s, c), h) n = (0, l, refl, s, c)
find-Runner (l ∷ links) (inl r, h) n =
    let (i, k, at, s, c) = find-Runner links h (omega (arith, n, weight-stage l returned r)) in
    (suc i, k, at, s, c)

set-Leaving :
    (links : List Link) (i : ℕ) (l : Link)
    → Leaving l
    → All Leaving links
    → All Leaving (set links i l)
set-Leaving [] i l k h = h
set-Leaving (x ∷ links) zero l k (y, h) = (k, h)
set-Leaving (x ∷ links) (suc i) l k (y, h) = (y, set-Leaving links i l k h)

drain :
    (n : ℕ) (s : Server)
    → Inv s
    → s.phase ≡ draining
    → All Leaving s.links
    → running s.links ≡ n
    → (t : Server) × Quiet s t × (t.phase ≡ finished)
unfolding leave_link finish
drain zero s inv p h e = (finish s, next (drained p (omega (arith, e, inv.count))) rest, refl)
drain (suc n) s inv p h e =
    let (i, l, at, serves, closed) = find-Runner s.links h (omega (arith, e)) in
    let out : Link = record { stage = returned; is_open = false } in
    let left : Step s none (leave_link i s) = cut_off i l at serves closed in
    let fewer : running (set s.links i out) ≡ n =
      omega (arith, e, running-set s.links i l out at, weight-stage l serving serves) in
    let (t, run, f) =
      drain n (leave_link i s) (step-Inv s inv left) p (set-Leaving s.links i out (inl refl) h)
        fewer in
    (t, next left run, f)

drain-any :
    (s : Server) → Inv s → All Leaving s.links → (t : Server) × Quiet s t × (t.phase ≡ finished)
drain-any s inv h = elim (phase_cases s.phase) [
  | inl p ↦
      let stop = accept_error p in
      let (t, run, f) =
        drain (running s.links) (record s { phase = draining }) (step-Inv s inv stop) refl h refl in
      (t, next stop run, f)
  | inr (inl p) ↦ drain (running s.links) s inv p h refl
  | inr (inr p) ↦ (s, rest, p)
]

-- From every state of the server in which the signal has closed the listener and each goroutine is in its
-- loop or has returned, `ListenAndServe` can return although no client leaves: the rest of the steps are the
-- server's own.
pub shutdown-finished :
    {s : Server}
    → Reach new_server s
    → s.closer ≡ listener_closed
    → All (λ l. AtLoop l.stage) s.links
    → (t : Server) × Quiet s t × (t.phase ≡ finished)
unfolding close_handler
shutdown-finished {s} r c h =
    let closes = close c in
    let (t, run, f) =
      drain-any (close_handler s) (step-Inv s (Reach-Inv new_server-Inv r) closes)
        (close_links-Leaving s.links h) in
    (t, next closes run, f)
