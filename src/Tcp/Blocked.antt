-- ===== src/Tcp/Blocked.antt =====
-- tcp/server.go with resp/parser/parser.go: a connection whose parser has panicked.
use go_redis.Base.{
  ℕ, zero, suc, ◌≤◌, ◌≡◌, refl, sym, ap, ◌∙◌, ◌≢◌, inl, inr, Bool, false, Option, some, List, [],
  ◌∷◌, arith, get_elem?, set, get_elem?-set_ne, get_elem?-append, one,
}
use go_redis.Tcp.{
  Stage, accepted, serving, blocked, returned, Link, finished, Server, new_server, close_link,
  close_links, accept_link, leave_link, drop_link, block_link, close_listener, close_handler,
  finish, Step, accept, accept_error, enter, hang_up, lose, block, cut_off, signal, close, drained,
  Reach, start, step,
}
use go_redis.Tcp.Shutdown.{
  weight, running, running-set, enter_link-now, step-Inv, Inv, Reach-Inv, new_server-Inv,
}

-- A connection of the list is blocked.
abbrev pub IsBlocked : ℕ → List Link → Type 0
IsBlocked i links = (l : Link) × (get_elem? links i ≡ some l) × (l.stage ≡ blocked)

unsome : (x l : Link) → some x ≡ some l → x ≡ l
unsome x l e = cc

close_link-blocked :
    (st : Stage) (b : Bool)
    → st ≡ blocked
    → (close_link (record { stage = st; is_open = b })).stage ≡ blocked
close_link-blocked blocked b e = refl
close_link-blocked accepted b e = cc
close_link-blocked serving b e = cc
close_link-blocked returned b e = cc

close_links-IsBlocked :
    (links : List Link) (i : ℕ) → IsBlocked i links → IsBlocked i (close_links links)
unfolding close_links
close_links-IsBlocked [] i (l, at, b) = cc
close_links-IsBlocked (x ∷ links) zero (l, at, b) =
    let same : x.stage ≡ blocked = ap (λ (o : Link). o.stage) (unsome x l at) ∙ b in
    (close_link x, refl, close_link-blocked x.stage x.is_open same)
close_links-IsBlocked (x ∷ links) (suc i) h = close_links-IsBlocked links i h

set-IsBlocked :
    (links : List Link) (i j : ℕ) (k : Link)
    → i ≢ j
    → IsBlocked i links
    → IsBlocked i (set links j k)
set-IsBlocked links i j k n (l, at, b) = (l, get_elem?-set_ne links j i k (λ e. n (sym e)) ∙ at, b)

IsBlocked-running : (links : List Link) (i : ℕ) → IsBlocked i links → 1 ≤ running links
IsBlocked-running links i (l, at, b) =
    let out : Link = record { stage = returned; is_open = false } in
    let one_more : weight l ≡ 1 =
      ap (λ (st : Stage). weight (record { stage = st; is_open = l.is_open })) b in
    omega (arith, running-set links i l out at, one_more)

step-IsBlocked :
    (i : ℕ) (s : Server) {label : Option ℕ} {t : Server}
    → Inv s
    → IsBlocked i s.links
    → Step s label t
    → IsBlocked i t.links
unfolding accept_link leave_link drop_link block_link close_listener close_handler finish
step-IsBlocked i s inv (l, at, b) (accept p h) = (l, get_elem?-append s.links _ i l at, b)
step-IsBlocked i s inv h (accept_error p) = h
step-IsBlocked i s inv (l, at, b) (enter j k at_j a) =
    rw (enter_link-now s j inv.refuses) (set-IsBlocked s.links i j _ (λ e. cc) (l, at, b))
step-IsBlocked i s inv (l, at, b) (hang_up j k at_j a) =
    set-IsBlocked s.links i j _ (λ e. cc) (l, at, b)
step-IsBlocked i s inv (l, at, b) (lose j k at_j a) =
    set-IsBlocked s.links i j _ (λ e. cc) (l, at, b)
step-IsBlocked i s inv (l, at, b) (block j k at_j a) =
    set-IsBlocked s.links i j _ (λ e. cc) (l, at, b)
step-IsBlocked i s inv (l, at, b) (cut_off j k at_j a o) =
    set-IsBlocked s.links i j _ (λ e. cc) (l, at, b)
step-IsBlocked i s inv h (signal c) = h
step-IsBlocked i s inv h (close c) = close_links-IsBlocked s.links i h
step-IsBlocked i s inv h (drained p z) = close_links-IsBlocked s.links i h

Reach-IsBlocked :
    (i : ℕ) {s t : Server} → Inv s → IsBlocked i s.links → Reach s t → Inv t × IsBlocked i t.links
Reach-IsBlocked i inv h start = (inv, h)
Reach-IsBlocked i inv h (step {t = t} r one) =
    let (now, b) = Reach-IsBlocked i inv h r in (step-Inv t now one, step-IsBlocked i t now b one)

-- One client whose input made the parser panic is enough: from then on, in every run of the server,
-- whatever the clients and the signal do, its goroutine does not return, and neither does `ListenAndServe`.
pub panic_link-stuck :
    {s t : Server} (i : ℕ)
    → Reach new_server s
    → IsBlocked i s.links
    → Reach s t
    → IsBlocked i t.links × (t.phase ≢ finished)
panic_link-stuck {s} {t} i r h run =
    let (inv, b) = Reach-IsBlocked i (Reach-Inv new_server-Inv r) h run in
    (
      b,
      elim inv.ended [
        | inl others ↦ others
        | inr all ↦ absurd (omega (arith, all.1, IsBlocked-running t.links i b))
      ],
    )
