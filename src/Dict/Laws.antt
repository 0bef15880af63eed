-- ===== src/Dict/Laws.antt =====
-- What each operation of the dictionary changes, read through `get`, and that keys stay distinct.
use go_redis.Base.{
  ◌≡◌, refl, ◌∙◌, inl, inr, ◌&&◌, none, some, [], ◌∷◌, arith, Bytes, bytes_eq, bytes_eq_refl,
  bytes_eq→eq, bytes_eq_iff, if◌then◌else◌, Bool-cases,
}
use go_redis.Dict.{
  Dict, load, store, delete, load_or_store, get, put, put_if_absent, put_if_exists, remove, is_some,
}

module _ {V : Type 0} where
  pub load-store :
      (k j : Bytes) (v : V) (m : Dict V)
      → load j (store k v m) ≡ (if bytes_eq k j then some v else load j m)
  unfolding load store
  load-store k j v [] = refl
  load-store k j v ((i, w) ∷ m) = elim (Bool-cases (bytes_eq i k)) [
    | inl e ↦ ground (arith, e, bytes_eq→eq i k e)
    | inr e ↦ ground (
      arith,
      e,
      load-store k j v m,
      bytes_eq→eq i j,
      bytes_eq→eq k j,
      bytes_eq_iff i k,
      bytes_eq_refl k,
    )
  ]

  pub load-delete :
      (k j : Bytes) (m : Dict V) → load j (delete k m) ≡ (if bytes_eq k j then none else load j m)
  unfolding load delete
  load-delete k j [] = ground arith
  load-delete k j ((i, w) ∷ m) = ground (
    arith,
    load-delete k j m,
    bytes_eq→eq i j,
    bytes_eq→eq k j,
    bytes_eq→eq i k,
    bytes_eq_refl k,
    bytes_eq_refl j,
  )

  -- Put binds the key to the value, keeps every other key, and returns 1 exactly for a new key.
  pub put_lem :
      (m : Dict V) (k j : Bytes) (v : V)
      → (get (put m k v).0 j ≡ (if bytes_eq k j then some v else get m j))
        × ((put m k v).1 ≡ (if is_some (get m k) then 0 else 1))
  unfolding put get
  put_lem m k j v = (load-store k j v m, refl)

  -- PutIfAbsent binds a key that is not there and returns 1; else it changes no key and returns 0.
  pub put_if_absent_lem :
      (m : Dict V) (k j : Bytes) (v : V)
      → (get (put_if_absent m k v).0 j
          ≡ (if is_some (get m k) then get m j else if bytes_eq k j then some v else get m j))
        × ((put_if_absent m k v).1 ≡ (if is_some (get m k) then 0 else 1))
  unfolding put_if_absent load_or_store get
  put_if_absent_lem m k j v = ground (arith, load-store k j v (store k v m), load-store k j v m)

  -- PutIfExists rebinds a key that is there and returns 1; else it changes no key and returns 0.
  pub put_if_exists_lem :
      (m : Dict V) (k j : Bytes) (v : V)
      → (get (put_if_exists m k v).0 j
          ≡ (if is_some (get m k) && bytes_eq k j then some v else get m j))
        × ((put_if_exists m k v).1 ≡ (if is_some (get m k) then 1 else 0))
  unfolding put_if_exists get
  put_if_exists_lem m k j v = ground (arith, load-store k j v m)

  -- Remove unbinds the key alone, and returns 1 exactly if it was bound.
  pub remove_lem :
      (m : Dict V) (k j : Bytes)
      → (get (remove m k).0 j ≡ (if bytes_eq k j then none else get m j))
        × ((remove m k).1 ≡ (if is_some (get m k) then 1 else 0))
  unfolding remove get
  remove_lem m k j = ground (arith, load-delete k j m, bytes_eq→eq k j)

  -- No key is bound twice.
  abbrev pub IsDistinct : Dict V → Type 0
  IsDistinct [] = Unit
  IsDistinct ((k, v) ∷ m) = (load k m ≡ none) × IsDistinct m

  pub store-IsDistinct : (k : Bytes) (v : V) (m : Dict V) → IsDistinct m → IsDistinct (store k v m)
  unfolding load store
  store-IsDistinct k v [] h = (refl, tt)
  store-IsDistinct k v ((j, w) ∷ m) (f, h) = elim (Bool-cases (bytes_eq j k)) [
    | inl e ↦ rw e (rw (← bytes_eq→eq j k e) f, h)
    | inr e ↦ rw e (
      load-store k j v m ∙ ground (arith, e, f, bytes_eq→eq k j, bytes_eq_iff j k, bytes_eq_refl j),
      store-IsDistinct k v m h,
    )
  ]

  pub delete-IsDistinct : (k : Bytes) (m : Dict V) → IsDistinct m → IsDistinct (delete k m)
  unfolding load delete
  delete-IsDistinct k [] h = tt
  delete-IsDistinct k ((j, w) ∷ m) (f, h) = elim (Bool-cases (bytes_eq j k)) [
    | inl e ↦ rw e (delete-IsDistinct k m h)
    | inr e ↦ rw e (load-delete k j m ∙ ground (arith, f), delete-IsDistinct k m h)
  ]

  pub delete-absent : (k : Bytes) (m : Dict V) → load k m ≡ none → delete k m ≡ m
  unfolding load delete
  delete-absent k [] h = refl
  delete-absent k ((j, w) ∷ m) h = ground (arith, delete-absent k m)
