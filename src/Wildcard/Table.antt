-- ===== src/Wildcard/Table.antt =====
-- `IsMatch` fills its table with what the pattern means.
use go_redis.Base.{
  ℕ, ◌≡◌, refl, sym, ap, ◌∙◌, subst, ◌≢◌, ◌↔◌, ◌⊎◌, inl, inr, Bool, true, false, ◌&&◌, ◌||◌, List,
  [], ◌∷◌, ◌++◌, append_assoc, append-nil, arith, Bytes, if◌then◌else◌, Bool-cases,
}
use go_redis.Wildcard.{Item, accepts, is_all, first_cells, next_cells, last_cell, rows, is_match}
use go_redis.Wildcard.Spec.{
  Covers, star, one, Matches, Matches-last, last-Matches, LastByte, in_front, in_segment, last_byte,
}

-- A cell holds whether the items match the text.
abbrev Holds : Bool → List Item → Bytes → Type 0
Holds b items s = (b ≡ true) ↔ Matches items s

abbrev snoc : Bytes → ℕ → Bytes
snoc p c = p ++ c ∷ []

snoc-ne-nil : (p : Bytes) (c : ℕ) → snoc p c ≢ []
snoc-ne-nil [] c = λ e. cc
snoc-ne-nil (x ∷ p) c = λ e. cc

or-split : (a b : Bool) → (a || b) ≡ true → (a ≡ true) ⊎ (b ≡ true)
or-split a b h = ground arith

-- A `*` takes one byte more, or no byte.
star_grows :
    (items : List Item) (i : Item) (p : Bytes) (c : ℕ)
    → is_all i ≡ true
    → Matches (items ++ i ∷ []) p
    → Matches (items ++ i ∷ []) (snoc p c)
star_grows items i p c a m =
    let (front, segment, e, n, k) = Matches-last items i p m in
    last-Matches items i (snoc p c) (
      front,
      snoc segment c,
      ap (λ (l : Bytes). snoc l c) e ∙ append_assoc front segment (c ∷ []),
      n,
      star a,
    )

star_starts :
    (items : List Item) (i : Item) (s : Bytes)
    → is_all i ≡ true
    → Matches items s
    → Matches (items ++ i ∷ []) s
star_starts items i s a m = last-Matches items i s (s, [], sym (append-nil s), m, star a)

star_inverse :
    (items : List Item) (i : Item) (p : Bytes) (c : ℕ)
    → is_all i ≡ true
    → Matches (items ++ i ∷ []) (snoc p c)
    → Matches (items ++ i ∷ []) p ⊎ Matches items (snoc p c)
star_inverse items i p c a m =
    let (front, segment, e, n, k) = Matches-last items i (snoc p c) m in
    go front segment n (last_byte p c front segment e)
  where
    go :
        (front segment : Bytes)
        → Matches items front
        → LastByte p c front segment
        → Matches (items ++ i ∷ []) p ⊎ Matches items (snoc p c)
    go front segment n (in_front g h) = inr (subst (Matches items) h n)
    go front segment n (in_segment s g h) = inl (last-Matches items i p (front, s, h, n, star a))

-- The two recurrences of the table.
star_cell :
    (items : List Item) (i : Item) (p : Bytes) (c : ℕ) (up left : Bool)
    → is_all i ≡ true
    → Holds up (items ++ i ∷ []) p
    → Holds left items (snoc p c)
    → Holds (up || left) (items ++ i ∷ []) (snoc p c)
star_cell items i p c up left a hu hl = (
  λ h. elim (or-split up left h) [
    | inl u ↦ star_grows items i p c a (hu.0 u)
    | inr l ↦ star_starts items i (snoc p c) a (hl.0 l)
  ],
  λ m. elim (star_inverse items i p c a m) [
    | inl n ↦ ground (arith, hu.1 n)
    | inr n ↦ ground (arith, hl.1 n)
  ],
)

byte_inverse :
    (items : List Item) (i : Item) (p : Bytes) (c : ℕ)
    → is_all i ≡ false
    → Matches (items ++ i ∷ []) (snoc p c)
    → Matches items p × (accepts i c ≡ true)
byte_inverse items i p c a m =
    let (front, segment, e, n, k) = Matches-last items i (snoc p c) m in
    go front segment n k (last_byte p c front segment e)
  where
    single : (s : Bytes) (d : ℕ) → s ++ c ∷ [] ≡ d ∷ [] → (s ≡ []) × (d ≡ c)
    single [] d h = (refl, ground (arith, h))
    single (x ∷ []) d h = absurd (cc h)
    single (x ∷ y ∷ s) d h = absurd (cc h)

    go :
        (front segment : Bytes)
        → Matches items front
        → Covers i segment
        → LastByte p c front segment
        → Matches items p × (accepts i c ≡ true)
    go front segment n (star b) l = cc
    go front segment n (one d b acc f) (in_front g h) = absurd (cc (f, g))
    go front segment n (one d b acc f) (in_segment s g h) =
        let (nil, same) = single s d (sym g ∙ f) in
        (
          subst (Matches items) (sym (h ∙ rw nil (append-nil front))) n,
          subst (λ (x : ℕ). accepts i x ≡ true) same acc,
        )

byte_cell :
    (items : List Item) (i : Item) (p : Bytes) (c : ℕ) (above : Bool)
    → is_all i ≡ false
    → Holds above items p
    → Holds (above && accepts i c) (items ++ i ∷ []) (snoc p c)
byte_cell items i p c above a h = (
  λ e.
      last-Matches items i (snoc p c)
        (p, c ∷ [], refl, h.0 (ground (arith, e)), one c a (ground (arith, e)) refl),
  λ m. let (n, acc) = byte_inverse items i p c a m in ground (arith, h.1 n, acc),
)

-- A cell of row 0: only `*` covers no byte.
first_cell :
    (items : List Item) (i : Item) (left : Bool)
    → Holds left items []
    → Holds (left && is_all i) (items ++ i ∷ []) []
first_cell items i left h = (
  λ e. star_starts items i [] (ground (arith, e)) (h.0 (ground (arith, e))),
  λ m. let (front, segment, e, n, k) = Matches-last items i [] m in go front segment e n k,
)
  where
    go :
        (front segment : Bytes)
        → [] ≡ front ++ segment
        → Matches items front
        → Covers i segment
        → (left && is_all i) ≡ true
    go [] [] e n (star a) = ground (arith, h.1 n, a)
    go [] [] e n (one c a acc f) = absurd (cc f)
    go [] (_ ∷ _) e n k = absurd (cc e)
    go (_ ∷ _) segment e n k = absurd (cc e)

-- A row holds, from the items `before` it on, for each longer list of items.
abbrev RowHolds : Bytes → List Item → List Bool → List Item → Type 0
RowHolds p before [] [] = Unit
RowHolds p before (b ∷ row) (i ∷ items) =
    Holds b (before ++ i ∷ []) p × RowHolds p (before ++ i ∷ []) row items
RowHolds p before _ _ = ⊥

first_cells-RowHolds :
    (before : List Item) (left : Bool) (items : List Item)
    → Holds left before []
    → RowHolds [] before (first_cells left items) items
unfolding first_cells
first_cells-RowHolds before left [] h = tt
first_cells-RowHolds before left (i ∷ items) h =
    let cell = first_cell before i left h in
    (cell, first_cells-RowHolds (before ++ i ∷ []) (left && is_all i) items cell)

next_cell :
    (before : List Item) (i : Item) (p : Bytes) (c : ℕ) (left above up : Bool)
    → Holds left before (snoc p c)
    → Holds above before p
    → Holds up (before ++ i ∷ []) p
    → Holds (if is_all i then up || left else above && accepts i c) (before ++ i ∷ []) (snoc p c)
next_cell before i p c left above up hl ha hu = elim (Bool-cases (is_all i)) [
  | inl a ↦ rw a (star_cell before i p c up left a hu hl)
  | inr a ↦ rw a (byte_cell before i p c above a ha)
]

next_cells-RowHolds :
    (before : List Item) (p : Bytes) (c : ℕ) (left above : Bool) (row : List Bool)
    (items : List Item)
    → Holds left before (snoc p c)
    → Holds above before p
    → RowHolds p before row items
    → RowHolds (snoc p c) before (next_cells c left above row items) items
unfolding next_cells
next_cells-RowHolds before p c left above [] [] hl ha h = tt
next_cells-RowHolds before p c left above [] (i ∷ items) hl ha h = absurd h
next_cells-RowHolds before p c left above (up ∷ row) [] hl ha h = absurd h
next_cells-RowHolds before p c left above (up ∷ row) (i ∷ items) hl ha (hu, h) =
    let cell = next_cell before i p c left above up hl ha hu in
    (cell, next_cells-RowHolds (before ++ i ∷ []) p c _ up row items cell hu h)

last_cell-Holds :
    (before : List Item) (p : Bytes) (first : Bool) (row : List Bool) (items : List Item)
    → Holds first before p
    → RowHolds p before row items
    → Holds (last_cell first row) (before ++ items) p
unfolding last_cell
last_cell-Holds before p first [] [] h r = rw (append-nil before) h
last_cell-Holds before p first [] (i ∷ items) h r = absurd r
last_cell-Holds before p first (b ∷ row) [] h r = absurd r
last_cell-Holds before p first (b ∷ row) (i ∷ items) h (hb, r) =
    rw (← append_assoc before (i ∷ []) items)
      (last_cell-Holds (before ++ i ∷ []) p b row items hb r)

rows-Holds :
    (items : List Item) (p s : Bytes) (first : Bool) (row : List Bool)
    → Holds first [] p
    → RowHolds p [] row items
    → Holds (rows items first row s) items (p ++ s)
unfolding rows
rows-Holds items p [] first row h r = rw (append-nil p) (last_cell-Holds [] p first row items h r)
rows-Holds items p (c ∷ s) first row h r =
    let none_yet : Holds false [] (snoc p c) = (λ e. cc, λ m. absurd (snoc-ne-nil p c m)) in
    rw (← append_assoc p (c ∷ []) s) (
      rows-Holds items (snoc p c) s false _ none_yet
        (next_cells-RowHolds [] p c false first row items none_yet h r))

-- IsMatch answers true exactly if the text falls into one segment for each item of the pattern, in
-- order, a `*` covering any segment and another item one byte that it accepts.
pub is_match-Matches : (items : List Item) (s : Bytes) → (is_match items s ≡ true) ↔ Matches items s
unfolding is_match
is_match-Matches [] [] = (λ _. refl, λ _. refl)
is_match-Matches [] (_ ∷ _) = (λ e. cc, λ e. cc)
is_match-Matches (i ∷ items) s =
    let empty : Holds true [] [] = (λ _. refl, λ _. refl) in
    rows-Holds (i ∷ items) [] s true (first_cells true (i ∷ items)) empty
      (first_cells-RowHolds [] true (i ∷ items) empty)
