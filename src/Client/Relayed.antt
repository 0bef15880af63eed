-- ===== src/Client/Relayed.antt =====
-- The client's reader on the bytes that a server sends.
use go_redis.Base.{
  ◌≡◌, refl, sym, ap, ◌∙◌, false, none, List, [], ◌∷◌, ◌++◌, map, append_assoc, append-nil, arith,
  Bytes, length, All,
}
use go_redis.Reply.{Reply, to_bytes}
use go_redis.Parser.{Payload, failed, eof, init, prepend, parse_from, parse_stream}
use go_redis.Parser.Replies.{IsReadable, received, parse_from-to_bytes}
use go_redis.Client.{Request, Client, finish_request, reply_of, handle_read}
use go_redis.Client.Order.{finish_request-first}

-- The bytes of replies, one behind the other.
abbrev pub sent_bytes : List Reply → Bytes
sent_bytes [] = []
sent_bytes (r ∷ rs) = to_bytes r ++ sent_bytes rs

-- The requests with what the reader makes of their replies.
abbrev pub replied_to : List Request → List Reply → List Request
replied_to (q ∷ qs) (r ∷ rs) = record q { reply = reply_of (received r) } ∷ replied_to qs rs
replied_to _ _ = []

prepend-payloads :
    (ps : List Payload) (s : go_redis.Parser.Stream) → (prepend ps s).payloads ≡ ps ++ s.payloads
prepend-payloads ps s = refl

pub payloads-sent :
    (rs : List Reply)
    → All IsReadable rs
    → (parse_from eof (sent_bytes rs) init).payloads ≡ map received rs ++ failed eof ∷ []
unfolding go_redis.Parser.step go_redis.Parser.read_line
payloads-sent [] h = unfold parse_from in refl
payloads-sent (r ∷ rs) (a, h) =
    ap (λ s. s.payloads) (parse_from-to_bytes eof r (sent_bytes rs) a)
    ∙ ap (λ ps. received r ∷ ps) (payloads-sent rs h)

module _ {W : Type 0} where
  handle_read-first :
      (p : Payload) (ps : List Payload) (c : Client W) (q : Request) (qs : List Request)
      → c.waiting_reqs ≡ q ∷ qs
      → handle_read (p ∷ ps) c
        ≡ handle_read ps (record c {
          waiting_reqs = qs;
          finished = c.finished ++ record q { reply = reply_of p } ∷ [];
        })
  unfolding handle_read
  handle_read-first p ps c q qs e =
      simp (handle_read, finish_request-first (reply_of p) c q qs e) refl

  handle_read-waits :
      (p : Payload) (ps : List Payload) (c : Client W)
      → c.waiting_reqs ≡ []
      → c.waiting_closed ≡ false
      → handle_read (p ∷ ps) c ≡ (p ∷ ps, c)
  unfolding handle_read finish_request
  handle_read-waits p ps c e o =
      let waits : finish_request (reply_of p) c ≡ none = simp (finish_request, e, o) refl in
      simp (handle_read, waits) refl

  handle_read-all :
      (rs : List Reply) (qs : List Request) (ps : List Payload) (c : Client W)
      → c.waiting_reqs ≡ qs
      → length qs ≡ length rs
      → handle_read (map received rs ++ ps) c
        ≡ handle_read ps (record c { waiting_reqs = []; finished = c.finished ++ replied_to qs rs })
  handle_read-all [] [] ps c e l =
      ap (λ ws. handle_read ps (record c { waiting_reqs = ws })) e
      ∙ ap (λ fs. handle_read ps (record c { waiting_reqs = []; finished = fs }))
          (sym (append-nil c.finished))
  handle_read-all [] (q ∷ qs) ps c e l = absurd (omega (arith, l))
  handle_read-all (r ∷ rs) [] ps c e l = absurd (omega (arith, l))
  handle_read-all (r ∷ rs) (q ∷ qs) ps c e l =
      let d : Client W = record c {
        waiting_reqs = qs;
        finished = c.finished ++ record q { reply = reply_of (received r) } ∷ [];
      } in
      handle_read-first (received r) (map received rs ++ ps) c q qs e
      ∙ (handle_read-all rs qs ps d refl (omega (arith, l))
          ∙ ap (λ fs. handle_read ps (record c { waiting_reqs = []; finished = fs }))
              (append_assoc c.finished (record q { reply = reply_of (received r) } ∷ [])
                (replied_to qs rs)))

  -- When a server sends readable replies to the requests that wait (each a text of one line, or values
  -- that are not empty, do not begin with `$` and fit a buffer), in order, and closes the connection,
  -- then the client's reader, on a client that is not closed, gives each request what it makes of its
  -- reply, and waits with the error of the end.
  pub handle_read-sent :
      (rs : List Reply) (c : Client W)
      → All IsReadable rs
      → length c.waiting_reqs ≡ length rs
      → c.waiting_closed ≡ false
      → handle_read (parse_stream eof (sent_bytes rs)).payloads c ≡ (
        failed eof ∷ [],
        record c { waiting_reqs = []; finished = c.finished ++ replied_to c.waiting_reqs rs },
      )
  unfolding parse_stream handle_read finish_request
  handle_read-sent rs c h l o =
      ap (λ ps. handle_read ps c) (payloads-sent rs h)
      ∙ (handle_read-all rs c.waiting_reqs (failed eof ∷ []) c refl l
          ∙ handle_read-waits (failed eof) [] _ refl o)
