-- ===== src/Client/Reconnect.antt =====
-- What a connection that is dialled again does to the requests that wait.
use go_redis.Base.{
  ◌≤◌, ◌≡◌, refl, sym, ap, ◌∙◌, ◌≢◌, ◌⊎◌, inl, inr, false, some, List, [], ◌∷◌, ◌++◌, append_assoc,
  append-nil, arith, Bytes, length, ◌==◌, Option-cases,
}
use go_redis.Parser.{Payload}
use go_redis.Client.{Request, Net, Client, deliver, do_request, reply_of, handle_read}
use go_redis.Client.Order.{finish_request-first}
use go_redis.Client.Pipeline.{deliver-Kept}

length-not_empty : {A : Type 0} (xs : List A) → xs ≢ [] → (length xs == 0) ≡ false
length-not_empty [] h = absurd (h refl)
length-not_empty (x ∷ xs) h = ground arith

-- Requests with the replies that come, one for each, and those that are left.
abbrev pub given : List Request → List Payload → List Request
given qs [] = []
given [] (p ∷ ps) = []
given (q ∷ qs) (p ∷ ps) = record q { reply = reply_of p } ∷ given qs ps

abbrev pub left : List Request → List Payload → List Request
left qs [] = qs
left [] (p ∷ ps) = []
left (q ∷ qs) (p ∷ ps) = left qs ps

-- Where the new request is when `doRequest` is over: behind those that wait, or finished with the
-- error of its last attempt.
abbrev pub Placed : {W : Type 0} → Request → Client W → Client W → List Request → Type 0
Placed req c d tail =
    ((tail ≡ req ∷ []) × (d.finished ≡ c.finished))
    ⊎ ((tail ≡ [])
        × ((text : Bytes) × (d.finished ≡ c.finished ++ record req { err = some text } ∷ [])))

module _ {W : Type 0} where
  abbrev served : Client W → List Request → List Request → Client W
  served d waiting finished = record d { waiting_reqs = waiting; finished = finished }

  -- The next payloads go to the first requests.
  handle_read-given :
      (ps : List Payload) (qs tail : List Request) (d : Client W)
      → length ps ≤ length qs
      → d.waiting_reqs ≡ qs ++ tail
      → handle_read ps d ≡ ([], served d (left qs ps ++ tail) (d.finished ++ given qs ps))
  unfolding handle_read
  handle_read-given [] qs tail d l e =
      ap (λ ws. ([], served d ws d.finished)) e
      ∙ ap (λ fs. ([], served d (qs ++ tail) fs)) (sym (append-nil d.finished))
  handle_read-given (p ∷ ps) [] tail d l e = absurd (omega (arith, l))
  handle_read-given (p ∷ ps) (q ∷ qs) tail d l e =
      let answer = record q { reply = reply_of p } in
      let next = served d (qs ++ tail) (d.finished ++ answer ∷ []) in
      let first : handle_read (p ∷ ps) d ≡ handle_read ps next =
        simp (handle_read, finish_request-first (reply_of p) d q (qs ++ tail) e) refl in
      first
      ∙ (handle_read-given ps qs tail next (omega (arith, l)) refl
          ∙ ap (λ fs. ([], served d (left qs ps ++ tail) fs))
              (append_assoc d.finished (answer ∷ []) (given qs ps)))

  do_request-Placed :
      (net : Net W) (req : Request) (c : Client W)
      → req.args ≢ []
      → c.waiting_closed ≡ false
      → (d : Client W) × (do_request net req c ≡ some d)
        × ((tail : List Request) × Placed req c d tail × (d.waiting_reqs ≡ c.waiting_reqs ++ tail))
  unfolding do_request
  do_request-Placed net req c some_args opened =
      let t = (deliver net req.args c).1 in
      let k = deliver-Kept net req.args c in
      let still : t.waiting_closed ≡ false = k.3 ∙ opened in
      let there = length-not_empty req.args some_args in
      elim (Option-cases (deliver net req.args c).0) [
        | inl written ↦ (
          record t { waiting_reqs = t.waiting_reqs ++ req ∷ [] },
          simp (do_request, there, written, still) refl,
          (req ∷ [], inl (refl, k.2), ap (λ ws. ws ++ req ∷ []) k.1),
        )
        | inr (text, failed) ↦ (
          record t { finished = t.finished ++ record req { err = some text } ∷ [] },
          simp (do_request, there, failed) refl,
          (
            [],
            inr (refl, (text, ap (λ fs. fs ++ record req { err = some text } ∷ []) k.2)),
            k.1 ∙ sym (append-nil c.waiting_reqs),
          ),
        )
      ]

  -- Whatever the writes, the closes and the dials of `doRequest` answer, on a client that is not closed:
  -- the payloads that come next, though they come on a connection that was just dialled, go to the requests
  -- that have waited since before, one each and in order, and as long as there are no more payloads
  -- than those requests, the new request gets none of them.
  pub do_request-redial :
      (net : Net W) (req : Request) (c : Client W) (ps : List Payload)
      → req.args ≢ []
      → c.waiting_closed ≡ false
      → length ps ≤ length c.waiting_reqs
      → (d : Client W) × (do_request net req c ≡ some d)
        × ((tail : List Request) × Placed req c d tail
            × (handle_read ps d ≡ (
              [],
              record d {
                waiting_reqs = left c.waiting_reqs ps ++ tail;
                finished = d.finished ++ given c.waiting_reqs ps;
              },
            )))
  do_request-redial net req c ps some_args opened l =
      let (d, is, (tail, placed, waits)) = do_request-Placed net req c some_args opened in
      (d, is, (tail, placed, handle_read-given ps c.waiting_reqs tail d l waits))
