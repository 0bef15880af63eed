-- ===== src/Client/Pipeline.antt =====
-- The client's goroutines, a step at a time: which reply goes to which request.
use go_redis.Base.{
  ℕ, zero, suc, ◌-◌, ◌<◌, ◌≡◌, refl, ◌∙◌, subst, ◌≢◌, ◌⊎◌, inl, inr, true, false, Option, none,
  some, List, [], ◌∷◌, ◌++◌, append-nil, arith, Bytes, length, ◌==◌, if◌then◌else◌, Bool-cases,
  Option-cases,
}
use go_redis.Reply.{Reply}
use go_redis.Parser.{Payload}
use go_redis.Client.Order.{
  finish_request-first, Inv, push-Inv, fail-Inv, finish-Inv, enqueue-Inv, next-Inv,
}
use go_redis.Client.{
  Request, chan_size, Net, Client, make_client, redial, handle_connection_error, retry, deliver,
  do_request, finish_request, reply_of, enqueue, stop_requests, clean,
}

-- The line that the request puts on the network: none if it fails.
abbrev pub carried : {W : Type 0} → Net W → Request → Client W → List (List Bytes)
carried net r c =
    if length r.args == 0
    then []
    else elim (deliver net r.args c).0 [ none ↦ r.args ∷ [] | some _ ↦ [] ]

module _ {W : Type 0} (net : Net W) where
  -- One step of one goroutine, with the lines that it puts on the network and the replies that it
  -- takes. A send on a full channel waits, and so does a receive on an empty one: `write` is the whole
  -- of `doRequest`, taken where its send does not wait, since only it sends on that channel.
  -- Where that send panics the process is gone, and there is no step.
  pub data Step (c : Client W) : List (List Bytes) → List (Option Reply) → Client W → Type 0 where
    send :
        (r : Request)
        → r.err ≡ none
        → c.pending_closed ≡ false
        → length c.pending_reqs < chan_size
        → Step c [] [] (enqueue r c)
    write :
        {r : Request} {rest : List Request} {d : Client W}
        → c.pending_reqs ≡ r ∷ rest
        → length c.waiting_reqs < chan_size
        → do_request net r (record c { pending_reqs = rest }) ≡ some d
        → Step c (carried net r (record c { pending_reqs = rest })) [] d
    read :
        {d : Client W} (p : Payload)
        → c.waiting_reqs ≢ []
        → finish_request (reply_of p) c ≡ some d
        → Step c [] (reply_of p ∷ []) d
    late_read :
        {d : Client W} (p : Payload)
        → c.waiting_reqs ≡ []
        → finish_request (reply_of p) c ≡ some d
        → Step c [] [] d
    return : 0 < c.working → Step c [] [] (record c { working = c.working - 1 })
    stop : Step c [] [] (stop_requests c)
    close : c.pending_closed ≡ true → c.working ≡ 0 → Step c [] [] (clean net c)

  -- The runs of a new client, with the lines and the replies so far.
  pub data Run (w : W) : List (List Bytes) → List (Option Reply) → Client W → Type 0 where
    start : Run w [] [] (make_client w)
    more :
        {c d : Client W} {lines here : List (List Bytes)} {replies now : List (Option Reply)}
        → Run w lines replies c
        → Step c here now d
        → Run w (lines ++ here) (replies ++ now) d

  -- The requests are where they were.
  abbrev pub Kept : Client W → Client W → Type 0
  Kept c d =
      (d.pending_reqs ≡ c.pending_reqs)
      × (d.waiting_reqs ≡ c.waiting_reqs)
      × (d.finished ≡ c.finished)
      × (d.waiting_closed ≡ c.waiting_closed)

  Kept-trans : (b c d : Client W) → Kept b c → Kept c d → Kept b d
  Kept-trans b c d (p, q, r, s) (p', q', r', s') = (p' ∙ p, q' ∙ q, r' ∙ r, s' ∙ s)

  redial-Kept : (c : Client W) → Kept c (redial net c).1
  unfolding redial
  redial-Kept c = ground arith

  handle_connection_error-Kept : (c : Client W) → Kept c (handle_connection_error net c).1
  unfolding handle_connection_error
  handle_connection_error-Kept c =
      ground (arith, redial-Kept (record c { world = (net.close c.world).1 }))

  retry-Kept :
      (i : ℕ) (bytes : Bytes) (e : Option Bytes) (c : Client W) → Kept c (retry net i bytes e c).1
  unfolding retry
  retry-Kept zero bytes e c = (refl, refl, refl, refl)
  retry-Kept (suc i) bytes none c = (refl, refl, refl, refl)
  retry-Kept (suc i) bytes (some e) c =
      let (e1, d) = handle_connection_error net c in
      let (e2, w) = net.write bytes d.world in
      let k = handle_connection_error-Kept c in
      let next : Client W = record d { world = w } in
      elim (Option-cases (handle_connection_error net c).0) [
        | inl no_error ↦
            rw (retry, no_error)
              (Kept-trans c d (retry net i bytes e2 next).1 k (retry-Kept i bytes e2 next))
        | inr (text, is) ↦
            rw (retry, is)
              (Kept-trans c d (retry net i bytes (some text) d).1 k
                (retry-Kept i bytes (some text) d))
      ]

  pub deliver-Kept : (args : List Bytes) (c : Client W) → Kept c (deliver net args c).1
  unfolding deliver
  deliver-Kept args c =
      let bytes = go_redis.Reply.multi_bulk_to_bytes args in
      let (e, w) = net.write bytes c.world in retry-Kept 3 bytes e (record c { world = w })

  abbrev pub ClientInv : List (List Bytes) → List (Option Reply) → Client W → Type 0
  ClientInv lines replies c = Inv lines replies c.pending_reqs c.waiting_reqs c.finished

  Kept-ClientInv :
      (lines : List (List Bytes)) (replies : List (Option Reply)) (c d : Client W)
      → Kept c d
      → ClientInv lines replies c
      → ClientInv lines replies d
  Kept-ClientInv lines replies c d (p, q, f, _) inv = rw (p, q, f) inv

  -- `doRequest` puts the request at the end of the waiting ones, or finishes it with an error.
  write-Inv :
      (lines : List (List Bytes)) (replies : List (Option Reply)) (r : Request) (c d : Client W)
      → ClientInv lines replies c
      → r.err ≡ none
      → length c.waiting_reqs < chan_size
      → do_request net r c ≡ some d
      → ClientInv (lines ++ carried net r c) replies d
  unfolding do_request
  write-Inv lines replies r c d inv e l is = elim (Bool-cases (length r.args == 0)) [
    | inl empty ↦
        let now : do_request net r c ≡ some c = simp (do_request, empty) refl in
        let same : c ≡ d = cc (is, now) in
        subst (ClientInv (lines ++ carried net r c) replies) same (rw (empty, append-nil lines) inv)
    | inr there ↦
        let t = (deliver net r.args c).1 in
        let k = deliver-Kept r.args c in
        let here = Kept-ClientInv lines replies c t k inv in
        elim (Option-cases (deliver net r.args c).0) [
          | inl written ↦ elim (Bool-cases t.waiting_closed) [
            | inl closed ↦
                let now : do_request net r c ≡ none =
                  simp (do_request, there, written, closed) refl in
                cc (is, now)
            | inr open_ ↦
                let pushed : Client W = record t { waiting_reqs = t.waiting_reqs ++ r ∷ [] } in
                let now : do_request net r c ≡ some pushed =
                  simp (do_request, there, written, open_) refl in
                let same : pushed ≡ d = cc (is, now) in
                subst (ClientInv (lines ++ carried net r c) replies) same (
                  rw (there, written)
                    (push-Inv lines replies t.pending_reqs t.waiting_reqs t.finished r here e
                      (rw k.1 l)))
          ]
          | inr (text, failed) ↦
              let told : Client W = record t {
                finished = t.finished ++ record r { err = some text } ∷ [];
              } in
              let now : do_request net r c ≡ some told = simp (do_request, there, failed) refl in
              let same : told ≡ d = cc (is, now) in
              subst (ClientInv (lines ++ carried net r c) replies) same (
                rw (there, failed, append-nil lines)
                  (fail-Inv lines replies t.pending_reqs t.waiting_reqs t.finished r text here))
        ]
  ]

  -- A request that waits, or none.
  first_waiting :
      (c : Client W)
      → (c.waiting_reqs ≡ [])
        ⊎ ((r : Request) × (rest : List Request) × (c.waiting_reqs ≡ r ∷ rest))
  first_waiting c =
      elim c.waiting_reqs
        as (λ ws. (ws ≡ []) ⊎ ((r : Request) × (rest : List Request) × (ws ≡ r ∷ rest))) [
          | [] ↦ inl refl
          | r ∷ rest ↦ inr (r, rest, refl)
        ]

  read-Inv :
      (lines : List (List Bytes)) (replies : List (Option Reply)) (p : Option Reply)
      (c d : Client W)
      → ClientInv lines replies c
      → c.waiting_reqs ≢ []
      → finish_request p c ≡ some d
      → ClientInv lines (replies ++ p ∷ []) d
  read-Inv lines replies p c d inv ne e = elim (first_waiting c) [
    | inl z ↦ absurd (ne z)
    | inr (r, rest, is) ↦
        let next : Client W = record c {
          waiting_reqs = rest;
          finished = c.finished ++ record r { reply = p } ∷ [];
        } in
        let same : next ≡ d = cc (e, finish_request-first p c r rest is) in
        subst (ClientInv lines (replies ++ p ∷ [])) same (
          finish-Inv lines replies c.pending_reqs rest c.finished r p
            (subst (λ ws. Inv lines replies c.pending_reqs ws c.finished) is inv))
  ]

  late-Inv :
      (lines : List (List Bytes)) (replies : List (Option Reply)) (p : Option Reply)
      (c d : Client W)
      → ClientInv lines replies c
      → c.waiting_reqs ≡ []
      → finish_request p c ≡ some d
      → ClientInv lines replies d
  unfolding finish_request
  late-Inv lines replies p c d inv z e = elim (Bool-cases c.waiting_closed) [
    | inl closed ↦
        let still : finish_request p c ≡ some c = simp (finish_request, z, closed) refl in
        let same : c ≡ d = cc (e, still) in subst (ClientInv lines replies) same inv
    | inr open_ ↦
        let still : finish_request p c ≡ none = simp (finish_request, z, open_) refl in
        cc (e, still)
  ]

  Step-Inv :
      (lines : List (List Bytes)) (replies : List (Option Reply)) (c : Client W) {d : Client W}
      {here : List (List Bytes)} {now : List (Option Reply)}
      → ClientInv lines replies c
      → Step c here now d
      → ClientInv (lines ++ here) (replies ++ now) d
  unfolding enqueue stop_requests clean
  Step-Inv lines replies c inv (send r e o l) =
      rw (append-nil lines, append-nil replies)
        (enqueue-Inv lines replies c.pending_reqs c.waiting_reqs c.finished r inv e l)
  Step-Inv lines replies c inv (write {r = r} {rest = rest} {d = d} is l now) =
      let at = subst (λ rs. Inv lines replies rs c.waiting_reqs c.finished) is inv in
      rw (append-nil replies) (
        write-Inv lines replies r (record c { pending_reqs = rest }) d
          (next-Inv lines replies rest c.waiting_reqs c.finished r at) at.fresh_pending.0 l now)
  Step-Inv lines replies c inv (read p ne e) =
      rw (append-nil lines) (read-Inv lines replies (reply_of p) c _ inv ne e)
  Step-Inv lines replies c inv (late_read p z e) =
      rw (append-nil lines, append-nil replies) (late-Inv lines replies (reply_of p) c _ inv z e)
  Step-Inv lines replies c inv (return l) = rw (append-nil lines, append-nil replies) inv
  Step-Inv lines replies c inv stop = rw (append-nil lines, append-nil replies) inv
  Step-Inv lines replies c inv (close e z) = rw (append-nil lines, append-nil replies) inv

  pub Run-Inv :
      {w : W} {lines : List (List Bytes)} {replies : List (Option Reply)} {c : Client W}
      → Run w lines replies c
      → ClientInv lines replies c
  Run-Inv start = record {
    fresh_pending = tt;
    fresh_waiting = tt;
    lines_order = refl;
    replies_order = refl;
    pending_fits = omega arith;
    waiting_fits = omega arith;
  }
  Run-Inv (more {c = c} {lines = lines} {replies = replies} r s) =
      Step-Inv lines replies c (Run-Inv r) s
