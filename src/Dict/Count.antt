-- ===== src/Dict/Count.antt =====
-- What `Len`, `Keys` and the random picks return.
use mathlib.Core.Option
use go_redis.Base.{
  ℕ, zero, suc, ◌+◌, ◌-◌, ◌≡◌, refl, ap, ◌∙◌, subst, ◌≢◌, ◌↔◌, inl, inr, none, some, List, [], ◌∷◌,
  ◌++◌, arith, Bytes, bytes_eq, bytes_eq→eq, length, replicate, take, if◌then◌else◌, Bool-cases,
}
use go_redis.Dict.{
  Dict, Order, load, store, delete, put, remove, is_some, counted, len, filled, keys, fill_distinct,
  random_distinct_keys,
}
use go_redis.Dict.Laws.{IsDistinct, delete-absent}

module _ {V : Type 0} where
  counted-length : (n : ℕ) (m : Dict V) → counted n m ≡ n + length m
  unfolding counted
  counted-length n [] = omega arith
  counted-length n (e ∷ m) = omega (arith, counted-length (n + 1) m)

  pub len-length : (order : Order V) (m : Dict V) → len order m ≡ length (order m)
  unfolding len
  len-length order m = omega (arith, counted-length 0 (order m))

  length-store :
      (k : Bytes) (v : V) (m : Dict V)
      → length (store k v m) ≡ length m + (if is_some (load k m) then 0 else 1)
  unfolding load store
  length-store k v [] = refl
  length-store k v ((j, w) ∷ m) = ground (arith, length-store k v m)

  length-delete :
      (k : Bytes) (m : Dict V)
      → IsDistinct m
      → length (delete k m) + (if is_some (load k m) then 1 else 0) ≡ length m
  unfolding load delete
  length-delete k [] h = refl
  length-delete k ((j, w) ∷ m) (f, h) = elim (Bool-cases (bytes_eq j k)) [
    | inl e ↦ rw e (
        rw (delete-absent k m (subst (λ (i : Bytes). load i m ≡ none) (bytes_eq→eq j k e) f))
          (omega arith))
    | inr e ↦ rw e (omega (arith, length-delete k m h))
  ]

  -- With an order of `Range` that visits each entry once, and no key bound twice, `Len` grows by
  -- what `Put` returns and shrinks by what `Remove` returns.
  pub len-put-remove :
      (order : Order V) (visits : (m : Dict V) → length (order m) ≡ length m) (m : Dict V)
      (k : Bytes) (v : V)
      → IsDistinct m
      → (len order (put m k v).0 ≡ len order m + (put m k v).1)
        × (len order (remove m k).0 + (remove m k).1 ≡ len order m)
  unfolding put remove
  len-put-remove order visits m k v h = ground (
    arith,
    len-length order m,
    len-length order (store k v m),
    len-length order (delete k m),
    visits m,
    visits (store k v m),
    visits (delete k m),
    length-store k v m,
    length-delete k m h,
  )

  abbrev pub visited_keys : Dict V → List Bytes
  visited_keys [] = []
  visited_keys ((k, v) ∷ m) = k ∷ visited_keys m

  filled-visited : (m : Dict V) → filled (replicate (length m) []) m ≡ visited_keys m
  unfolding filled
  filled-visited [] = refl
  filled-visited ((k, v) ∷ m) = ap (λ (l : List Bytes). k ∷ l) (filled-visited m)

  -- Keys returns the keys that `Range` visits, in its order, and no empty slot is left.
  pub keys_lem : (order : Order V) (m : Dict V) → keys order m ≡ visited_keys (order m)
  unfolding keys
  keys_lem order m = rw (len-length order m) (filled-visited (order m))

  fill_distinct_lem :
      (n : ℕ) (m : Dict V)
      → fill_distinct (replicate (suc n) []) m
        ≡ some (take (suc n) (visited_keys m) ++ replicate (suc n - length m) [])
  unfolding fill_distinct
  fill_distinct_lem n [] =
      let e : suc n ≡ suc n - 0 = omega arith in ap (λ (c : ℕ). some (replicate {A = Bytes} c [])) e
  fill_distinct_lem zero ((k, v) ∷ m) =
      let e : 0 ≡ 1 - suc (length m) = omega arith in
      ap (λ (c : ℕ). some (k ∷ replicate {A = Bytes} c [])) e
  fill_distinct_lem (suc n) ((k, v) ∷ m) =
      let e : suc n - length m ≡ suc (suc n) - suc (length m) = omega arith in
      ap (Option.map (λ (ks : List Bytes). k ∷ ks)) (fill_distinct_lem n m)
      ∙ ap (λ (c : ℕ). some (k ∷ (take (suc n) (visited_keys m) ++ replicate {A = Bytes} c []))) e

  -- RandomDistinctKeys(n) with n positive returns the first n keys that `Range` visits, and an
  -- empty string for each key that is missing; with n = 0 it panics exactly if there is a key.
  pub random_distinct_keys_lem :
      (order : Order V) (m : Dict V) (n : ℕ)
      → (random_distinct_keys order m (suc n)
          ≡ some (take (suc n) (visited_keys (order m)) ++ replicate (suc n - length (order m)) []))
        × ((random_distinct_keys order m 0 ≡ none) ↔ (order m ≢ []))
  unfolding random_distinct_keys
  random_distinct_keys_lem order m n = (fill_distinct_lem n (order m), no_room (order m))
    where
      no_room : (l : Dict V) → (fill_distinct [] l ≡ none) ↔ (l ≢ [])
      no_room [] = (λ e. cc, λ h. absurd (h refl))
      no_room (_ ∷ l) = (λ _ e. cc, λ _. refl)
