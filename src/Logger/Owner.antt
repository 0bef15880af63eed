-- ===== src/Logger/Owner.antt =====
-- lib/logger/logger.go: who has the address of an entry.
use go_redis.Base.{
  ℕ, zero, suc, ◌+◌, ◌≤◌, ◌≡◌, refl, sym, ap, ◌∙◌, ◌≢◌, Option, none, some, List, [], ◌∷◌, ◌++◌,
  map, append_assoc, arith, Bytes, get_elem?, set, get_elem?-set_ne, one, occ, one_self,
}
use go_redis.Logger.{
  LogEntry, Caller, ready, has, filled, sent, Worker, idle, received, logged, Logger,
}

abbrev pub held : ℕ → Caller → ℕ
held a (ready e) = 0
held a (has b e) = one a b
held a (filled b e) = one a b
held a sent = 0

abbrev pub held_all : ℕ → List Caller → ℕ
held_all a [] = 0
held_all a (c ∷ cs) = held a c + held_all a cs

abbrev pub at_work : ℕ → Worker → ℕ
at_work a idle = 0
at_work a (received b) = one a b
at_work a (logged b) = one a b

abbrev pub total : ℕ → Logger → ℕ
total a s = occ a s.entry_pool + occ a s.entry_chan + at_work a s.worker + held_all a s.callers

pub held_all-set :
    (a : ℕ) (cs : List Caller) (i : ℕ) (c d : Caller)
    → get_elem? cs i ≡ some c
    → held_all a (set cs i d) + held a c ≡ held_all a cs + held a d
held_all-set a [] i c d h = cc
held_all-set a (x ∷ cs) zero c d h = let same : x ≡ c = cc in omega (arith, ap (held a) same)
held_all-set a (x ∷ cs) (suc i) c d h = omega (arith, held_all-set a cs i c d h)

pub held_all-get_elem? :
    (a : ℕ) (cs : List Caller) (i : ℕ) (c : Caller)
    → get_elem? cs i ≡ some c
    → held a c ≤ held_all a cs
held_all-get_elem? a cs i c h = omega (arith, held_all-set a cs i c sent h)

-- Two calls have no address in common if it occurs once.
pub held_all-two :
    (a : ℕ) (cs : List Caller) (i j : ℕ) (c d : Caller)
    → i ≢ j
    → get_elem? cs i ≡ some c
    → get_elem? cs j ≡ some d
    → held a c + held a d ≤ held_all a cs
held_all-two a cs i j c d n hi hj = omega (
  arith,
  held_all-set a cs i c sent hi,
  held_all-get_elem? a (set cs i sent) j d (get_elem?-set_ne cs i j sent n ∙ hj),
)

pub held_all-ready : (a : ℕ) (es : List LogEntry) → held_all a (map ready es) ≡ 0
held_all-ready a [] = refl
held_all-ready a (e ∷ es) = omega (arith, held_all-ready a es)

-- The messages at addresses.
abbrev msg_of : Option LogEntry → List Bytes
msg_of none = []
msg_of (some e) = e.msg ∷ []

abbrev pub msg_at : List LogEntry → ℕ → List Bytes
msg_at heap a = msg_of (get_elem? heap a)

pub msg_at-some :
    (heap : List LogEntry) (a : ℕ) (e : LogEntry)
    → get_elem? heap a ≡ some e
    → msg_at heap a ≡ e.msg ∷ []
msg_at-some heap a e h = ap msg_of h

abbrev pub msgs : List LogEntry → List ℕ → List Bytes
msgs heap [] = []
msgs heap (a ∷ at) = msg_at heap a ++ msgs heap at

abbrev pub unwritten : List LogEntry → Worker → List Bytes
unwritten heap idle = []
unwritten heap (received a) = msg_at heap a
unwritten heap (logged a) = []

-- What is sent and not yet written.
abbrev pub pending : Logger → List Bytes
pending s = unwritten s.heap s.worker ++ msgs s.heap s.entry_chan

pub msgs-same :
    (h k : List LogEntry) (at : List ℕ)
    → ((a : ℕ) → 1 ≤ occ a at → get_elem? k a ≡ get_elem? h a)
    → msgs k at ≡ msgs h at
msgs-same h k [] same = refl
msgs-same h k (a ∷ at) same =
    let here : get_elem? k a ≡ get_elem? h a = same a (omega (arith, one_self a)) in
    let rest = msgs-same h k at (λ b n. same b (omega (arith, n))) in
    ap (λ r. msg_at k a ++ r) rest ∙ ap (λ m. msg_of m ++ msgs h at) here

pub unwritten-same :
    (h k : List LogEntry) (w : Worker)
    → ((a : ℕ) → 1 ≤ at_work a w → get_elem? k a ≡ get_elem? h a)
    → unwritten k w ≡ unwritten h w
unwritten-same h k idle same = refl
unwritten-same h k (received a) same = ap msg_of (same a (omega (arith, one_self a)))
unwritten-same h k (logged a) same = refl

pub msgs-append : (h : List LogEntry) (xs ys : List ℕ) → msgs h (xs ++ ys) ≡ msgs h xs ++ msgs h ys
msgs-append h [] ys = refl
msgs-append h (x ∷ xs) ys =
    ap (λ r. msg_at h x ++ r) (msgs-append h xs ys)
    ∙ sym (append_assoc (msg_at h x) (msgs h xs) (msgs h ys))

pub pending-same :
    (s : Logger) (heap : List LogEntry)
    → ((a : ℕ)
        → 1 ≤ at_work a s.worker + occ a s.entry_chan
        → get_elem? heap a ≡ get_elem? s.heap a)
    → unwritten heap s.worker ++ msgs heap s.entry_chan ≡ pending s
pending-same s heap same =
    ap (λ r. r ++ msgs heap s.entry_chan)
      (unwritten-same s.heap heap s.worker (λ a n. same a (omega (arith, n))))
    ∙ ap (λ r. unwritten s.heap s.worker ++ r)
        (msgs-same s.heap heap s.entry_chan (λ a n. same a (omega (arith, n))))
