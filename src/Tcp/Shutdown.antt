-- ===== src/Tcp/Shutdown.antt =====
-- What a shutdown waits for.
use go_redis.Base.{
  ◌-◌, ◌≤◌, ℕ, zero, suc, ◌+◌, ◌≡◌, refl, ap, ◌≢◌, ◌⊎◌, inl, inr, Bool, true, false, Option, some,
  List, [], ◌∷◌, ◌++◌, arith, get_elem?, set, All,
}
use go_redis.Sync
use go_redis.Tcp.{
  Stage, accepted, serving, blocked, returned, Link, finished, Server, new_server, close_links,
  accept_link, leave_link, drop_link, block_link, enter_link, close_listener, close_handler, finish,
  Step, accept, accept_error, enter, hang_up, lose, block, cut_off, signal, close, drained, Reach,
  start, step,
}

-- A goroutine that has not returned counts for `waitDone`.
abbrev pub weight : Link → ℕ
weight l = elim l.stage [ returned ↦ 0 | _ ↦ 1 ]

abbrev pub running : List Link → ℕ
running [] = 0
running (l ∷ links) = weight l + running links

running-append : (xs ys : List Link) → running (xs ++ ys) ≡ running xs + running ys
running-append [] ys = omega arith
running-append (x ∷ xs) ys = omega (arith, running-append xs ys)

pub running-set :
    (links : List Link) (i : ℕ) (l k : Link)
    → get_elem? links i ≡ some l
    → running (set links i k) + weight l ≡ running links + weight k
running-set [] i l k e = cc
running-set (x ∷ links) zero l k e = let same : x ≡ l = cc in omega (arith, ap weight same)
running-set (x ∷ links) (suc i) l k e = omega (arith, running-set links i l k e)

pub running-close_links : (links : List Link) → running (close_links links) ≡ running links
unfolding close_links
running-close_links [] = refl
running-close_links (l ∷ links) = ground (arith, running-close_links links)

-- Every goroutine that runs is counted, and `closing` is not set.
pub record Inv (s : Server) : Type 0 where
  pub count : s.wait_done ≡ running s.links
  pub refuses : s.closing ≡ 0
  pub ended : (s.phase ≢ finished) ⊎ ((s.listening ≡ false) × (running s.links ≡ 0))

-- A goroutine that returns takes itself off the counter.
returned-Inv :
    (s : Server) (i : ℕ) (l out : Link)
    → Inv s
    → get_elem? s.links i ≡ some l
    → weight l ≡ 1
    → weight out ≡ 0
    → Inv (record s { wait_done = s.wait_done - 1; links = set s.links i out })
returned-Inv s i l out inv at w z =
    let changed : running (set s.links i out) + 1 ≡ running s.links =
      omega (arith, running-set s.links i l out at, w, z) in
    record {
      count = omega (arith, inv.count, changed);
      refuses = inv.refuses;
      ended = elim inv.ended [
        | inl more ↦ inl more
        | inr all ↦ absurd (omega (arith, all.1, changed))
      ];
    }

block_link-Inv :
    (s : Server) (i : ℕ) (l : Link)
    → Inv s
    → get_elem? s.links i ≡ some l
    → weight l ≡ 1
    → Inv (block_link i l s)
unfolding block_link
block_link-Inv s i l inv at w =
    let same : running (set s.links i (record l { stage = blocked })) ≡ running s.links =
      omega (arith, running-set s.links i l (record l { stage = blocked }) at, w) in
    record {
      count = omega (arith, inv.count, same);
      refuses = inv.refuses;
      ended = elim inv.ended [
        | inl more ↦ inl more
        | inr all ↦ inr (all.0, omega (arith, all.1, same))
      ];
    }

-- A new connection becomes active, since `closing` is never set.
pub enter_link-now :
    (s : Server) (i : ℕ)
    → s.closing ≡ 0
    → enter_link i s
      ≡ record s { links = set s.links i (record { stage = serving; is_open = true }) }
unfolding enter_link Sync.get
enter_link-now s i e = rw e refl

enter_link-Inv :
    (s : Server) (i : ℕ) (l : Link)
    → Inv s
    → get_elem? s.links i ≡ some l
    → weight l ≡ 1
    → Inv (enter_link i s)
enter_link-Inv s i l inv at w =
    let into : Link = record { stage = serving; is_open = true } in
    let same : running (set s.links i into) ≡ running s.links =
      omega (arith, running-set s.links i l into at, w) in
    rw (enter_link-now s i inv.refuses) (record {
      count = omega (arith, inv.count, same);
      refuses = inv.refuses;
      ended = elim inv.ended [
        | inl more ↦ inl more
        | inr all ↦ inr (all.0, omega (arith, all.1, same))
      ];
    })

pub step-Inv : (s : Server) {label : Option ℕ} {t : Server} → Inv s → Step s label t → Inv t
unfolding accept_link leave_link drop_link block_link enter_link close_listener close_handler finish
    Sync.get
step-Inv s inv (accept p l) = record {
  count =
      omega (
        arith,
        inv.count,
        running-append s.links (record { stage = accepted; is_open = true } ∷ []),
      );
  refuses = inv.refuses;
  ended = inl (λ e. cc);
}
step-Inv s inv (accept_error p) = record {
  count = inv.count;
  refuses = inv.refuses;
  ended = inl (λ e. cc);
}
step-Inv s inv (enter i l at a) = enter_link-Inv s i l inv at (cc)
step-Inv s inv (hang_up i l at a) = returned-Inv s i l _ inv at (cc) refl
step-Inv s inv (lose i l at a) = returned-Inv s i l (record l { stage = returned }) inv at (cc) refl
step-Inv s inv (block i l at a) = block_link-Inv s i l inv at (cc)
step-Inv s inv (cut_off i l at a o) = returned-Inv s i l _ inv at (cc) refl
step-Inv s inv (signal c) = record {
  count = inv.count;
  refuses = inv.refuses;
  ended = elim inv.ended [ inl more ↦ inl more | inr all ↦ inr (refl, all.1) ];
}
step-Inv s inv (close c) = record {
  count = omega (arith, inv.count, running-close_links s.links);
  refuses = inv.refuses;
  ended = elim inv.ended [
    | inl more ↦ inl more
    | inr all ↦ inr (all.0, omega (arith, all.1, running-close_links s.links))
  ];
}
step-Inv s inv (drained p z) = record {
  count = omega (arith, inv.count, running-close_links s.links);
  refuses = inv.refuses;
  ended = inr (refl, omega (arith, z, inv.count, running-close_links s.links));
}

pub Reach-Inv : {s t : Server} → Inv s → Reach s t → Inv t
Reach-Inv inv start = inv
Reach-Inv inv (step {t = t} r one) = step-Inv t (Reach-Inv inv r) one

pub new_server-Inv : Inv new_server
new_server-Inv = record { count = refl; refuses = refl; ended = inl (λ e. cc) }

-- No connection runs.
abbrev pub AllReturned : List Link → Type 0
AllReturned links = All (λ l. l.stage ≡ returned) links

weight-returned :
    (st : Stage) (b : Bool) → weight (record { stage = st; is_open = b }) ≡ 0 → st ≡ returned
weight-returned accepted b h = absurd (omega (arith, h))
weight-returned serving b h = absurd (omega (arith, h))
weight-returned blocked b h = absurd (omega (arith, h))
weight-returned returned b h = refl

running-AllReturned : (links : List Link) → running links ≡ 0 → AllReturned links
running-AllReturned [] h = tt
running-AllReturned (l ∷ links) h = (
  weight-returned l.stage l.is_open (omega (arith, h)),
  running-AllReturned links (omega (arith, h)),
)

-- In every run of the server: when `ListenAndServe` has returned, the listener is closed and the goroutine of
-- every connection has returned.
pub finished-AllReturned :
    {s : Server}
    → Reach new_server s
    → s.phase ≡ finished
    → (s.listening ≡ false) × AllReturned s.links
finished-AllReturned {s} r p = elim (Reach-Inv new_server-Inv r).ended [
  | inl more ↦ absurd (more p)
  | inr all ↦ (all.0, running-AllReturned s.links all.1)
]

weight-positive :
    (st : Stage) (b : Bool) → st ≢ returned → 1 ≤ weight (record { stage = st; is_open = b })
weight-positive accepted b n = omega arith
weight-positive serving b n = omega arith
weight-positive blocked b n = omega arith
weight-positive returned b n = absurd (n refl)

-- In every run, the `Done` of a goroutine that returns does not take the counter below zero.
pub leave_link-done :
    {s : Server} (i : ℕ) (l : Link)
    → Reach new_server s
    → get_elem? s.links i ≡ some l
    → l.stage ≢ returned
    → Sync.done s.wait_done ≡ some (leave_link i s).wait_done
unfolding leave_link
leave_link-done {s} i l r at n =
    let inv = Reach-Inv new_server-Inv r in
    let out : Link = record { stage = returned; is_open = false } in
    Sync.done-positive s.wait_done (
      omega (arith, inv.count, running-set s.links i l out at, weight-positive l.stage l.is_open n))
