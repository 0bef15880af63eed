-- ===== src/Utils/Unique.antt =====
-- RemoveDuplicates and BytesEquals.
use go_redis.Base.{
  ◌≡◌, refl, sym, ap, ◌∙◌, subst, ◌↔◌, inl, inr, Bool, true, false, ◌||◌, none, some, List, [], ◌∷◌,
  ◌++◌, arith, Bytes, bytes_eq, bytes_eq_refl, bytes_eq→eq, bytes_eq_iff, bytes_eq_of_ne, length,
  ◌==◌, if◌then◌else◌, ==_iff, Bool-cases, Option-cases,
}
use go_redis.Dict
use go_redis.Dict.{Dict}
use go_redis.Dict.Laws.{load-store}
use go_redis.Utils.{Slice, same_bytes, bytes_equals, remove_loop, remove_duplicates}

-- Membership as a test.
abbrev pub has : Bytes → List Bytes → Bool
has k [] = false
has k (x ∷ xs) = bytes_eq x k || has k xs

-- No item stands behind an equal one.
abbrev pub IsUnique : List Bytes → Type 0
IsUnique [] = Unit
IsUnique (x ∷ xs) = (has x xs ≡ false) × IsUnique xs

has-append : (k : Bytes) (xs ys : List Bytes) → has k (xs ++ ys) ≡ (has k xs || has k ys)
has-append k [] ys = refl
has-append k (x ∷ xs) ys = ground (arith, has-append k xs ys)

append-IsUnique :
    (xs : List Bytes) (y : Bytes) → IsUnique xs → has y xs ≡ false → IsUnique (xs ++ y ∷ [])
append-IsUnique [] y u h = (refl, tt)
append-IsUnique (x ∷ xs) y (a, u) h = (
  ground
      (arith, has-append x xs (y ∷ []), bytes_eq_iff x y, bytes_eq_iff y x, bytes_eq_refl x, a, h),
  append-IsUnique xs y u (ground (arith, h)),
)

-- The map of the loop has exactly the items of the result.
abbrev Same : Dict Unit → List Bytes → Type 0
Same unique result = (k : Bytes) → Dict.is_some (Dict.load k unique) ≡ has k result

store-Same :
    (unique : Dict Unit) (result : List Bytes) (item : Bytes)
    → Same unique result
    → Same (Dict.store item tt unique) (result ++ item ∷ [])
store-Same unique result item s k =
    ground (arith, s k, load-store item k tt unique, has-append k result (item ∷ []))

-- What the loop gives: unique items, those of the result so far and of the input, behind the result
-- so far.
abbrev Loop : List Bytes → List Bytes → List Bytes → Type 0
Loop result input out = IsUnique out × ((k : Bytes) → has k out ≡ (has k result || has k input))

seen :
    (item k : Bytes) (result input : List Bytes)
    → has item result ≡ true
    → (has k result || has k (item ∷ input)) ≡ (has k result || has k input)
seen item k result input h = elim (Bool-cases (bytes_eq item k)) [
  | inl e ↦
      let there : has k result ≡ true = subst (λ j. has j result ≡ true) (bytes_eq→eq item k e) h in
      rw there refl
  | inr e ↦ rw e refl
]

remove_loop-Loop :
    (unique : Dict Unit) (result input : List Bytes)
    → Same unique result
    → IsUnique result
    → Loop result input (remove_loop unique result input)
unfolding remove_loop
remove_loop-Loop unique result [] s u = (u, λ k. ground arith)
remove_loop-Loop unique result (item ∷ input) s u = elim (Option-cases (Dict.load item unique)) [
  | inl new ↦
      let fresh : has item result ≡ false = ground (arith, new, s item) in
      let (v, h) =
        remove_loop-Loop (Dict.store item tt unique) (result ++ item ∷ []) input
          (store-Same unique result item s) (append-IsUnique result item u fresh) in
      rw (remove_loop, new) (v, λ k. h k ∙ ground (arith, has-append k result (item ∷ [])))
  | inr (_, old) ↦
      let there : has item result ≡ true = ground (arith, old, s item) in
      let (v, h) = remove_loop-Loop unique result input s u in
      rw (remove_loop, old) (v, λ k. h k ∙ sym (seen item k result input there))
]

remove_loop-new :
    (unique : Dict Unit) (result input : List Bytes) (item : Bytes)
    → Dict.load item unique ≡ none
    → remove_loop unique result (item ∷ input)
      ≡ remove_loop (Dict.store item tt unique) (result ++ item ∷ []) input
unfolding remove_loop
remove_loop-new unique result input item e = rw (remove_loop, e) refl

remove_loop-old :
    (unique : Dict Unit) (result input : List Bytes) (item : Bytes) (u : Unit)
    → Dict.load item unique ≡ some u
    → remove_loop unique result (item ∷ input) ≡ remove_loop unique result input
unfolding remove_loop
remove_loop-old unique result input item u e = rw (remove_loop, e) refl

-- A list with the item behind it, if it is not there.
abbrev pub added : Bytes → List Bytes → List Bytes
added y out = if has y out then out else out ++ y ∷ []

remove_loop-last :
    (unique : Dict Unit) (result input : List Bytes) (y : Bytes)
    → Same unique result
    → remove_loop unique result (input ++ y ∷ []) ≡ added y (remove_loop unique result input)
unfolding remove_loop
remove_loop-last unique result [] y s = ground (arith, s y)
remove_loop-last unique result (item ∷ input) y s = elim (Option-cases (Dict.load item unique)) [
  | inl new ↦
      remove_loop-new unique result (input ++ y ∷ []) item new
      ∙ (remove_loop-last (Dict.store item tt unique) (result ++ item ∷ []) input y
            (store-Same unique result item s)
          ∙ ap (added y) (sym (remove_loop-new unique result input item new)))
  | inr (u, old) ↦
      remove_loop-old unique result (input ++ y ∷ []) item u old
      ∙ (remove_loop-last unique result input y s
          ∙ ap (added y) (sym (remove_loop-old unique result input item u old)))
]

no_items-Same : Same [] []
unfolding Dict.load
no_items-Same k = refl

remove_duplicates-Loop : (input : List Bytes) → Loop [] input (remove_duplicates input)
unfolding remove_duplicates
remove_duplicates-Loop input = remove_loop-Loop [] [] input no_items-Same tt

-- RemoveDuplicates keeps the first of equal items, in their order: one item more adds itself behind
-- the others if it is not among them, and nothing if it is; and no two items of a result are equal.
pub remove_duplicates-append :
    (xs : List Bytes) (y : Bytes)
    → (remove_duplicates (xs ++ y ∷ [])
        ≡ (if has y xs then remove_duplicates xs else remove_duplicates xs ++ y ∷ []))
      × IsUnique (remove_duplicates xs)
unfolding remove_duplicates
remove_duplicates-append xs y =
    let (u, h) = remove_duplicates-Loop xs in
    (
      remove_loop-last [] [] xs y no_items-Same
          ∙ ap (λ b. if b then remove_duplicates xs else remove_duplicates xs ++ y ∷ []) (h y),
      u,
    )

same_bytes-bytes_eq : (s t : Bytes) → length s ≡ length t → same_bytes s t ≡ bytes_eq s t
unfolding same_bytes bytes_eq
same_bytes-bytes_eq [] [] h = refl
same_bytes-bytes_eq [] (b ∷ t) h = absurd (omega (arith, h))
same_bytes-bytes_eq (a ∷ s) [] h = absurd (omega (arith, h))
same_bytes-bytes_eq (a ∷ s) (b ∷ t) h = ground (arith, same_bytes-bytes_eq s t (omega (arith, h)))

equals-some : (s t : Bytes) → bytes_equals (some s) (some t) ≡ bytes_eq s t
unfolding bytes_equals
equals-some s t = elim (Bool-cases (length s == length t)) [
  | inl e ↦ rw e (same_bytes-bytes_eq s t ((==_iff (length s) (length t)).0 e))
  | inr e ↦ rw e (sym (bytes_eq_of_ne s t (λ p. ground (arith, e, ap length p))))
]

-- BytesEquals is equality of slices that may be nil, which is not an empty slice.
pub bytes_equals_iff : (s t : Slice) → (bytes_equals s t ≡ true) ↔ (s ≡ t)
unfolding bytes_equals
bytes_equals_iff none none = (λ _. refl, λ _. refl)
bytes_equals_iff none (some t) = (λ e. cc, λ e. cc)
bytes_equals_iff (some s) none = (λ e. cc, λ e. cc)
bytes_equals_iff (some s) (some t) = (
  λ e. ap some (bytes_eq→eq s t (sym (equals-some s t) ∙ e)),
  λ e. equals-some s t ∙ ground (arith, e, bytes_eq_refl s),
)
