-- ===== src/Dict/Races.antt =====
-- Which of the operations of sync_dict.go are right when goroutines interleave.
use go_redis.Base.{
  ℕ, zero, suc, ◌+◌, ◌≤◌, min, ◌≡◌, refl, sym, ◌∙◌, subst, ◌⊎◌, inl, inr, Bool, true, false, none,
  some, List, [], ◌∷◌, arith, Bytes, bytes_eq_refl, length, get_elem?, set, All, if◌then◌else◌,
  Bool-cases, Option-cases,
}
use go_redis.Dict.{Dict, load, store, delete, load_or_store, is_some}
use go_redis.Dict.Laws.{load-store}
use go_redis.Dict.Threads.{
  Call, put, put_if_absent, remove, Thread, called, loaded, returned, first_access, second_access,
  move, Reach, start, step, wins, winners, winners-set, is_returned, all_returned,
}

All-lookup :
    {A : Type 0} (P : A → Type 0) (xs : List A) (i : ℕ) (x : A)
    → All P xs
    → get_elem? xs i ≡ some x
    → P x
All-lookup P [] i x h e = cc
All-lookup P (y ∷ xs) zero x (p, h) e = let same : y ≡ x = cc in subst P same p
All-lookup P (y ∷ xs) (suc i) x (p, h) e = All-lookup P xs i x h e

All-set :
    {A : Type 0} (P : A → Type 0) (xs : List A) (i : ℕ) (x : A)
    → All P xs
    → P x
    → All P (set xs i x)
All-set P [] i x h p = tt
All-set P (y ∷ xs) zero x (q, h) p = (p, h)
All-set P (y ∷ xs) (suc i) x (q, h) p = (q, All-set P xs i x h p)

abbrev bit : Bool → ℕ
bit b = if b then 1 else 0

module _ {V : Type 0} (k : Bytes) where
  abbrev there : Dict V → Bool
  there m = is_some (load k m)

  there-store : (v : V) (m : Dict V) → there (store k v m) ≡ true
  there-store v m = rw (load-store k k v m, bytes_eq_refl k) refl

  -- The goroutine runs PutIfAbsent on the key; and once it has begun, the key is there.
  pub data IsAdding (m : Dict V) : Thread V → Type 0 where
    begins : (v : V) → IsAdding m (called (put_if_absent k v))
    adds :
        (v : V) (existed : Bool) → there m ≡ true → IsAdding m (loaded (put_if_absent k v) existed)
    done : (n : ℕ) → there m ≡ true → n ≤ 1 → IsAdding m (returned n)

  IsAdding-more :
      {m n : Dict V} {t : Thread V}
      → (there m ≡ true → there n ≡ true)
      → IsAdding m t
      → IsAdding n t
  IsAdding-more f (begins v) = begins v
  IsAdding-more f (adds v e h) = adds v e (f h)
  IsAdding-more f (done n h l) = done n (f h) l

  All-more :
      (m n : Dict V) (ts : List (Thread V))
      → (there m ≡ true → there n ≡ true)
      → All (IsAdding m) ts
      → All (IsAdding n) ts
  All-more m n [] f h = tt
  All-more m n (t ∷ ts) f (a, h) = (IsAdding-more f a, All-more m n ts f h)

  -- A step keeps the goroutine at its work and the key in the map, and the goroutine wins as the
  -- key gets there.
  abbrev Moved : Dict V → Thread V → Thread V × Dict V → Type 0
  Moved m t (u, n) =
      IsAdding n u
      × (there m ≡ true → there n ≡ true)
      × (wins u + bit (there m) ≡ wins t + bit (there n))

  called-Moved :
      (v : V) (m : Dict V)
      → Moved m (called (put_if_absent k v)) (move (called (put_if_absent k v)) m)
  unfolding move first_access load_or_store
  called-Moved v m = elim (Option-cases (load k m)) [
    | inl e ↦
        let now : move (called (put_if_absent k v)) m
            ≡ (loaded (put_if_absent k v) false, store k v m) =
          rw (move, first_access, load_or_store, e) refl in
        subst (Moved m (called (put_if_absent k v))) (sym now)
          (adds v false (there-store v m), (λ p. there-store v m), rw (e, there-store v m) refl)
    | inr (w, e) ↦
        let now : move (called (put_if_absent k v)) m ≡ (loaded (put_if_absent k v) true, m) =
          rw (move, first_access, load_or_store, e) refl in
        subst (Moved m (called (put_if_absent k v))) (sym now)
          (adds v true (rw e refl), (λ p. p), rw e refl)
  ]

  move-Moved : (m : Dict V) {t : Thread V} → IsAdding m t → Moved m t (move t m)
  unfolding move second_access
  move-Moved m (begins v) = called-Moved v m
  move-Moved m (adds v true h) = (done 0 h (omega arith), (λ p. p), refl)
  move-Moved m (adds v false h) =
      (done 1 (there-store v m) (omega arith), (λ p. there-store v m), rw (h, there-store v m) refl)
  move-Moved m (done n h l) = (done n h l, (λ p. p), refl)

  pub record Inv (ts : List (Thread V)) (m : Dict V) : Type 0 where
    pub adding : All (IsAdding m) ts
    pub count : winners ts ≡ bit (there m)

  step-Inv :
      (ts : List (Thread V)) (m : Dict V) (i : ℕ) (t : Thread V)
      → Inv ts m
      → get_elem? ts i ≡ some t
      → Inv (set ts i (move t m).0) (move t m).1
  step-Inv ts m i t inv at =
      let (u, n) = move t m in
      let (a, f, e) = move-Moved m (All-lookup (IsAdding m) ts i t inv.adding at) in
      record {
        adding = All-set (IsAdding n) ts i u (All-more m n ts f inv.adding) a;
        count = omega (arith, e, inv.count, winners-set ts i t u at);
      }

  Reach-Inv :
      {ts : List (Thread V)} {m : Dict V} {us : List (Thread V)} {n : Dict V}
      → Inv ts m
      → Reach ts m us n
      → Inv us n
  Reach-Inv inv start = inv
  Reach-Inv inv (step {us = us} {n = n} i t r at) = step-Inv us n i t (Reach-Inv inv r) at

  -- Goroutines that call PutIfAbsent with these values.
  abbrev pub adders : List V → List (Thread V)
  adders [] = []
  adders (v ∷ vs) = called (put_if_absent k v) ∷ adders vs

  adders-IsAdding : (m : Dict V) (vs : List V) → All (IsAdding m) (adders vs)
  adders-IsAdding m [] = tt
  adders-IsAdding m (v ∷ vs) = (begins v, adders-IsAdding m vs)

  adders-winners : (vs : List V) → winners (adders vs) ≡ 0
  adders-winners [] = refl
  adders-winners (v ∷ vs) = omega (arith, adders-winners vs)

  -- The state of the first goroutine, which has returned, shows that the key is there.
  returned-there :
      (m : Dict V) (t : Thread V) → IsAdding m t → is_returned t ≡ true → there m ≡ true
  returned-there m t (begins v) e = cc
  returned-there m t (adds v b h) e = h
  returned-there m t (done n h l) e = h

  winners-returned :
      (m : Dict V) (us : List (Thread V))
      → Inv us m
      → (all_returned us ≡ false) ⊎ (winners us ≡ min (length us) 1)
  winners-returned m [] inv = inr refl
  winners-returned m (t ∷ us) inv = elim (Bool-cases (is_returned t)) [
    | inl e ↦
        let yes : there m ≡ true = returned-there m t inv.adding.0 e in
        inr (inv.count ∙ (rw yes (omega arith)))
    | inr e ↦ inl (rw e refl)
  ]

  -- Of any number of goroutines that call PutIfAbsent on a key that is not there, in any
  -- interleaving, at most one adds it; and when all have returned, one, if there is any, has
  -- returned 1.
  pub put_if_absent-Reach :
      (vs : List V) (m : Dict V) {us : List (Thread V)} {n : Dict V}
      → load k m ≡ none
      → Reach (adders vs) m us n
      → (winners us ≤ 1) × ((all_returned us ≡ false) ⊎ (winners us ≡ min (length us) 1))
  put_if_absent-Reach vs m {us} {n} e r =
      let first : Inv (adders vs) m = record {
        adding = adders-IsAdding m vs;
        count = adders-winners vs ∙ (rw e refl);
      } in
      let inv = Reach-Inv first r in (ground (arith, inv.count), winners-returned n us inv)

  -- The state of two goroutines behind the first access of each and then the second of each.
  abbrev pub crossed : Call V → Call V → Dict V → List (Thread V) × Dict V
  crossed c d m =
      let (t, m1) = move (called c) m in
      let (u, m2) = move (called d) m1 in
      let (t', m3) = move t m2 in let (u', m4) = move u m3 in (t' ∷ u' ∷ [], m4)

  crossed-Reach :
      (c d : Call V) (m : Dict V)
      → Reach (called c ∷ called d ∷ []) m (crossed c d m).0 (crossed c d m).1
  crossed-Reach c d m =
      let (t, m1) = move (called c) m in
      let (u, m2) = move (called d) m1 in
      step 1 u (step 0 t (step 1 (called d) (step 0 (called c) start refl) refl) refl) refl

  -- Two goroutines that put one new key can both get 1, as if each had added it, and two that
  -- remove one key can both get 1, as if each had removed it.
  pub put-remove_races :
      (v w : V) (m p : Dict V)
      → load k m ≡ none
      → is_some (load k p) ≡ true
      → ((n : Dict V) × Reach
            (called (put k v) ∷ called (put k w) ∷ [])
            m
            (returned 1 ∷ returned 1 ∷ [])
            n)
        × ((n : Dict V) × Reach
              (called (remove k) ∷ called (remove k) ∷ [])
              p
              (returned 1 ∷ returned 1 ∷ [])
              n)
  unfolding move first_access second_access
  put-remove_races v w m p e f =
      let two : crossed (put k v) (put k w) m
          ≡ (returned 1 ∷ returned 1 ∷ [], store k w (store k v m)) =
        rw (move, first_access, second_access, e) refl in
      let both : crossed (remove k) (remove k) p
          ≡ (returned 1 ∷ returned 1 ∷ [], delete k (delete k p)) =
        rw (move, first_access, second_access, f) refl in
      (
        (
          _,
          subst
              (λ (r : List (Thread V) × Dict V).
                Reach (called (put k v) ∷ called (put k w) ∷ []) m r.0 r.1)
              two (crossed-Reach (put k v) (put k w) m),
        ),
        (
          _,
          subst
              (λ (r : List (Thread V) × Dict V).
                Reach (called (remove k) ∷ called (remove k) ∷ []) p r.0 r.1)
              both (crossed-Reach (remove k) (remove k) p),
        ),
      )
