-- ===== src/Client/Replies.antt =====
-- Which reply a request of the client gets.
use go_redis.Base.{
  ℕ, zero, suc, ◌+◌, ◌≤◌, ◌≡◌, refl, sym, ap, ◌∙◌, Option, none, some, List, [], ◌∷◌, ◌++◌, map,
  arith, Bytes, length, get_elem?, length-append,
}
use go_redis.Reply.{Reply}
use go_redis.Client.{Request, chan_size, Net, Client}
use go_redis.Client.Order.{answered}
use go_redis.Client.Pipeline.{Run, Run-Inv}

module _ {A B : Type 0} (f : A → B) where
  get_elem?-map :
      (xs : List A) (i : ℕ) (y : B)
      → get_elem? (map f xs) i ≡ some y
      → (x : A) × (get_elem? xs i ≡ some x) × (f x ≡ y)
  get_elem?-map [] i y e = cc
  get_elem?-map (x ∷ xs) zero y e = (x, refl, cc)
  get_elem?-map (x ∷ xs) (suc i) y e = get_elem?-map xs i y e

  map-get_elem? :
      (xs ys : List A) (i : ℕ) (x : A)
      → get_elem? xs i ≡ some x
      → get_elem? (map f (xs ++ ys)) i ≡ some (f x)
  map-get_elem? [] ys i x e = cc
  map-get_elem? (y ∷ xs) ys zero x e = ap (λ o. elim o [ none ↦ none | some z ↦ some (f z) ]) e
  map-get_elem? (y ∷ xs) ys (suc i) x e = map-get_elem? xs ys i x e

  length-map : (xs : List A) → length (map f xs) ≡ length xs
  length-map [] = refl
  length-map (x ∷ xs) = ap suc (length-map xs)

module _ {W : Type 0} (net : Net W) where
  -- In every run of the client, the reply that the readers take in the k-th place, from whatever
  -- connection, goes to the request whose line was put on the network in the k-th place.
  pub reply-Run :
      {w : W} {lines : List (List Bytes)} {replies : List (Option Reply)} {c : Client W} (k : ℕ)
      (p : Option Reply)
      → Run net w lines replies c
      → get_elem? replies k ≡ some p
      → (r : Request) × (get_elem? (answered c.finished) k ≡ some r)
        × (r.reply ≡ p)
        × (get_elem? lines k ≡ some r.args)
  reply-Run {c = c} k p run e =
      let inv = Run-Inv net run in
      let (r, at, is) =
        get_elem?-map (λ (q : Request). q.reply) (answered c.finished) k p
          (ap (λ ps. get_elem? ps k) inv.replies_order ∙ e) in
      (
        r,
        at,
        is,
        ap (λ ls. get_elem? ls k) (sym inv.lines_order)
            ∙ map-get_elem? (λ (q : Request). q.args) (answered c.finished) c.waiting_reqs k r at,
      )

  -- In every run of the client, its channels hold no more than their size, no more replies were
  -- given out than lines were put on the network, and at most as many lines as the channel holds
  -- are without a reply.
  pub in_flight-Run :
      {w : W} {lines : List (List Bytes)} {replies : List (Option Reply)} {c : Client W}
      → Run net w lines replies c
      → (length c.pending_reqs ≤ chan_size)
        × (length c.waiting_reqs ≤ chan_size)
        × (length lines ≡ length replies + length c.waiting_reqs)
  in_flight-Run {lines = lines} {c = c} run =
      let inv = Run-Inv net run in
      let a = ap length inv.lines_order in
      let b = ap length inv.replies_order in
      let f = λ (q : Request). q.args in
      let g = λ (q : Request). q.reply in
      (
        inv.pending_fits,
        inv.waiting_fits,
        omega (
          arith,
          a,
          b,
          length-map f (answered c.finished ++ c.waiting_reqs),
          length-map g (answered c.finished),
          length-append (answered c.finished) c.waiting_reqs,
        ),
      )
