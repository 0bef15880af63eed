-- ===== src/Client/Order.antt =====
-- The order of the lines, of the replies and of the requests in the client's channels.
use go_redis.Base.{
  ◌≤◌, ◌<◌, ◌≡◌, refl, sym, ap, ◌∙◌, Bool, true, false, Option, none, some, List, [], ◌∷◌, ◌++◌,
  map, append_assoc, append-nil, arith, Bytes, length, length-append, All, All-append,
  if◌then◌else◌,
}
use mathlib.Core.List.{map-append}
use go_redis.Reply.{Reply}
use go_redis.Client.{Request, Client, chan_size, finish_request}

-- The requests that a reply has finished, and no error of the network.
abbrev pub has_reply : Request → Bool
has_reply r = elim r.err [ none ↦ true | some _ ↦ false ]

abbrev pub answered : List Request → List Request
answered [] = []
answered (r ∷ rs) = let rest = answered rs in if has_reply r then r ∷ rest else rest

-- Nothing that waits has failed; each line was answered or waits, in order; each reply was given
-- out.
pub record Inv (lines : List (List Bytes)) (replies : List (Option Reply))
    (pending waiting finished : List Request) : Type 0 where
  pub fresh_pending : All (λ r. r.err ≡ none) pending
  pub fresh_waiting : All (λ r. r.err ≡ none) waiting
  pub lines_order : map (λ r. r.args) (answered finished ++ waiting) ≡ lines
  pub replies_order : map (λ r. r.reply) (answered finished) ≡ replies
  pub pending_fits : length pending ≤ chan_size
  pub waiting_fits : length waiting ≤ chan_size

answered-append : (xs ys : List Request) → answered (xs ++ ys) ≡ answered xs ++ answered ys
answered-append [] ys = refl
answered-append (x ∷ xs) ys = ground (arith, answered-append xs ys)

answered-failed :
    (r : Request) (text : Bytes) (rs : List Request)
    → answered (rs ++ record r { err = some text } ∷ []) ≡ answered rs
answered-failed r text rs =
    answered-append rs (record r { err = some text } ∷ []) ∙ append-nil (answered rs)

answered-replied :
    (r : Request) (p : Option Reply) (rs : List Request)
    → r.err ≡ none
    → answered (rs ++ record r { reply = p } ∷ []) ≡ answered rs ++ record r { reply = p } ∷ []
answered-replied r p rs e =
    answered-append rs (record r { reply = p } ∷ []) ∙ ap (λ xs. answered rs ++ xs) (rw e refl)

module _ (lines : List (List Bytes)) (replies : List (Option Reply))
    (pending waiting finished : List Request) where
  pub push-Inv :
      (r : Request)
      → Inv lines replies pending waiting finished
      → r.err ≡ none
      → length waiting < chan_size
      → Inv (lines ++ r.args ∷ []) replies pending (waiting ++ r ∷ []) finished
  push-Inv r inv e l = record {
    fresh_pending = inv.fresh_pending;
    fresh_waiting =
        All-append (λ (q : Request). q.err ≡ none) waiting (r ∷ []) inv.fresh_waiting (e, tt);
    lines_order =
        ap (map (λ (q : Request). q.args)) (sym (append_assoc (answered finished) waiting (r ∷ [])))
        ∙ (map-append (λ (q : Request). q.args) (answered finished ++ waiting) (r ∷ [])
            ∙ ap (λ ls. ls ++ r.args ∷ []) inv.lines_order);
    replies_order = inv.replies_order;
    pending_fits = inv.pending_fits;
    waiting_fits = omega (arith, length-append waiting (r ∷ []));
  }

  pub fail-Inv :
      (r : Request) (text : Bytes)
      → Inv lines replies pending waiting finished
      → Inv lines replies pending waiting (finished ++ record r { err = some text } ∷ [])
  fail-Inv r text inv = record {
    fresh_pending = inv.fresh_pending;
    fresh_waiting = inv.fresh_waiting;
    lines_order =
        ap (λ rs. map (λ (q : Request). q.args) (rs ++ waiting)) (answered-failed r text finished)
        ∙ inv.lines_order;
    replies_order =
        ap (map (λ (q : Request). q.reply)) (answered-failed r text finished) ∙ inv.replies_order;
    pending_fits = inv.pending_fits;
    waiting_fits = inv.waiting_fits;
  }

  pub finish-Inv :
      (r : Request) (p : Option Reply)
      → Inv lines replies pending (r ∷ waiting) finished
      → Inv lines (replies ++ p ∷ []) pending waiting (finished ++ record r { reply = p } ∷ [])
  finish-Inv r p inv =
      let e : r.err ≡ none = inv.fresh_waiting.0 in
      let q : Request = record r { reply = p } in
      let is : answered (finished ++ q ∷ []) ≡ answered finished ++ q ∷ [] =
        answered-replied r p finished e in
      record {
        fresh_pending = inv.fresh_pending;
        fresh_waiting = inv.fresh_waiting.1;
        lines_order =
            ap (λ rs. map (λ (z : Request). z.args) (rs ++ waiting)) is
            ∙ (ap (map (λ (z : Request). z.args))
                  (append_assoc (answered finished) (q ∷ []) waiting)
                ∙ (map-append (λ (z : Request). z.args) (answered finished) (q ∷ waiting)
                    ∙ (sym (map-append (λ (z : Request). z.args) (answered finished) (r ∷ waiting))
                        ∙ inv.lines_order)));
        replies_order =
            ap (map (λ (z : Request). z.reply)) is
            ∙ (map-append (λ (z : Request). z.reply) (answered finished) (q ∷ [])
                ∙ ap (λ ps. ps ++ p ∷ []) inv.replies_order);
        pending_fits = inv.pending_fits;
        waiting_fits = omega (arith, inv.waiting_fits);
      }

  pub enqueue-Inv :
      (r : Request)
      → Inv lines replies pending waiting finished
      → r.err ≡ none
      → length pending < chan_size
      → Inv lines replies (pending ++ r ∷ []) waiting finished
  enqueue-Inv r inv e l = record {
    fresh_pending =
        All-append (λ (q : Request). q.err ≡ none) pending (r ∷ []) inv.fresh_pending (e, tt);
    fresh_waiting = inv.fresh_waiting;
    lines_order = inv.lines_order;
    replies_order = inv.replies_order;
    pending_fits = omega (arith, length-append pending (r ∷ []));
    waiting_fits = inv.waiting_fits;
  }

  pub next-Inv :
      (r : Request)
      → Inv lines replies (r ∷ pending) waiting finished
      → Inv lines replies pending waiting finished
  next-Inv r inv = record {
    fresh_pending = inv.fresh_pending.1;
    fresh_waiting = inv.fresh_waiting;
    lines_order = inv.lines_order;
    replies_order = inv.replies_order;
    pending_fits = omega (arith, inv.pending_fits);
    waiting_fits = inv.waiting_fits;
  }

module _ {W : Type 0} where
  -- A reply goes to the request that has waited longest.
  pub finish_request-first :
      (p : Option Reply) (c : Client W) (r : Request) (rest : List Request)
      → c.waiting_reqs ≡ r ∷ rest
      → finish_request p c
        ≡ some
            (record c { waiting_reqs = rest; finished = c.finished ++ record r { reply = p } ∷ [] })
  unfolding finish_request
  finish_request-first p c r rest e = rw (finish_request, e) refl
