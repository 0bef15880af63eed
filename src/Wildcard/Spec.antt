-- ===== src/Wildcard/Spec.antt =====
-- What a pattern means: the text falls into one segment for each item, in order.
use go_redis.Base.{
  ℕ, ◌≡◌, refl, sym, ap, ◌∙◌, true, false, List, [], ◌∷◌, ◌++◌, append_assoc, append-nil, arith,
  Bytes,
}
use go_redis.Wildcard.{Item, accepts, is_all}

-- `*` covers any segment, another item one byte that it accepts.
pub data Covers (i : Item) (segment : Bytes) : Type 0 where
  star : is_all i ≡ true → Covers i segment
  one : (c : ℕ) → is_all i ≡ false → accepts i c ≡ true → segment ≡ c ∷ [] → Covers i segment

abbrev pub Matches : List Item → Bytes → Type 0
Matches [] s = s ≡ []
Matches (i ∷ items) s =
    (segment : Bytes) × (rest : Bytes) × (s ≡ segment ++ rest)
    × Covers i segment
    × Matches items rest

-- The same from the end: the last item covers the last segment.
abbrev pub LastMatches : List Item → Item → Bytes → Type 0
LastMatches items i s =
    (front : Bytes) × (segment : Bytes) × (s ≡ front ++ segment)
    × Matches items front
    × Covers i segment

pub Matches-last :
    (items : List Item) (i : Item) (s : Bytes) → Matches (items ++ i ∷ []) s → LastMatches items i s
Matches-last [] i s (segment, rest, e, cover, nil) =
    ([], segment, e ∙ rw nil (append-nil segment), refl, cover)
Matches-last (j ∷ items) i s (segment, rest, e, cover, m) =
    let (front, last, f, n, k) = Matches-last items i rest m in
    (
      segment ++ front,
      last,
      e ∙ ap (λ (l : Bytes). segment ++ l) f ∙ sym (append_assoc segment front last),
      (segment, front, refl, cover, n),
      k,
    )

pub last-Matches :
    (items : List Item) (i : Item) (s : Bytes) → LastMatches items i s → Matches (items ++ i ∷ []) s
last-Matches [] i s (front, segment, e, nil, cover) =
    (segment, [], e ∙ rw nil (sym (append-nil segment)), cover, refl)
last-Matches (j ∷ items) i s (front, segment, e, (seg, rest, f, cover, m), k) = (
  seg,
  rest ++ segment,
  e ∙ ap (λ (l : Bytes). l ++ segment) f ∙ append_assoc seg rest segment,
  cover,
  last-Matches items i (rest ++ segment) (rest, segment, refl, m, k),
)

-- Where the last byte of a text falls when the text is cut in two.
pub data LastByte (p : Bytes) (c : ℕ) (front segment : Bytes) : Type 0 where
  in_front : segment ≡ [] → front ≡ p ++ c ∷ [] → LastByte p c front segment
  in_segment : (s : Bytes) → segment ≡ s ++ c ∷ [] → p ≡ front ++ s → LastByte p c front segment

pub last_byte :
    (p : Bytes) (c : ℕ) (front segment : Bytes)
    → p ++ c ∷ [] ≡ front ++ segment
    → LastByte p c front segment
last_byte p c [] segment e = in_segment p (sym e) refl
last_byte [] c (x ∷ front) segment e = only front segment (ground (arith, e)) (ground (arith, e))
  where
    only : (f s : Bytes) → [] ≡ f ++ s → c ≡ x → LastByte [] c (x ∷ f) s
    only [] [] h k = in_front refl (rw k)
    only [] (_ ∷ _) h k = absurd (cc h)
    only (_ ∷ _) s h k = absurd (cc h)
last_byte (y ∷ p) c (x ∷ front) segment e =
    step (last_byte p c front segment (ground (arith, e))) (ground (arith, e))
  where
    step : LastByte p c front segment → y ≡ x → LastByte (y ∷ p) c (x ∷ front) segment
    step (in_front h k) g = in_front h (rw (k, g))
    step (in_segment s h k) g = in_segment s h (rw (k, g))
