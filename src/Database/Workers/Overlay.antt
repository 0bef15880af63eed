-- ===== src/Database/Workers/Overlay.antt =====
-- Goroutines that set keys of their own, and what their changes put on top of the file.
use go_redis.Base.{
  ℕ, zero, suc, ◌≡◌, refl, subst, inl, inr, true, false, Option, some, List, [], ◌∷◌, arith, Bytes,
  bytes_eq, bytes_eq_refl, bytes_eq→eq, get_elem?, set, All, if◌then◌else◌, Bool-cases,
}
use go_redis.Database.Db.{Entity}
use go_redis.Database.Strings.{entity_of}
use go_redis.Database.Behaviour.{set_line}
use go_redis.Database.Workers.{Worker, ready, changed, finished}

-- A goroutine that sets the key to the value, wherever it stands.
pub data Sets (k v : Bytes) : Worker → Type 0 where
  not_yet : Sets k v (ready (set_line k v))
  unlogged : Sets k v (changed (set_line k v ∷ []))
  done : Sets k v finished

-- The goroutines, each with its key and value.
abbrev pub AllSet : List (Bytes × Bytes) → List Worker → Type 0
AllSet [] [] = Unit
AllSet ((k, v) ∷ sets) (w ∷ ws) = Sets k v w × AllSet sets ws
AllSet _ _ = ⊥

abbrev pub setters : List (Bytes × Bytes) → List Worker
setters [] = []
setters ((k, v) ∷ sets) = ready (set_line k v) ∷ setters sets

-- No key is set twice.
abbrev pub AreDistinct : List (Bytes × Bytes) → Type 0
AreDistinct [] = Unit
AreDistinct ((k, v) ∷ sets) = All (λ s. bytes_eq k s.0 ≡ false) sets × AreDistinct sets

-- What a key reads once the changes that are not in the file yet are made on top.
abbrev pub overlay : List (Bytes × Bytes) → List Worker → Bytes → Option Entity → Option Entity
overlay ((k, v) ∷ sets) (changed lines ∷ ws) j base =
    let rest = overlay sets ws j base in if bytes_eq k j then some (entity_of v) else rest
overlay (s ∷ sets) (w ∷ ws) j base = overlay sets ws j base
overlay [] _ j base = base
overlay _ [] j base = base

-- What the i-th goroutine sets.
pub set_of :
    (sets : List (Bytes × Bytes)) (ws : List Worker) (i : ℕ) (w : Worker)
    → AllSet sets ws
    → get_elem? ws i ≡ some w
    → (s : Bytes × Bytes) × (get_elem? sets i ≡ some s) × Sets s.0 s.1 w
set_of [] [] i w h e = cc
set_of [] (x ∷ ws) i w h e = absurd h
set_of ((k, v) ∷ sets) [] i w h e = absurd h
set_of ((k, v) ∷ sets) (x ∷ ws) zero w (a, h) e =
    let same : x ≡ w = cc in ((k, v), refl, subst (Sets k v) same a)
set_of ((k, v) ∷ sets) (x ∷ ws) (suc i) w (a, h) e = set_of sets ws i w h e

pub set-AllSet :
    (sets : List (Bytes × Bytes)) (ws : List Worker) (i : ℕ) (s : Bytes × Bytes) (w : Worker)
    → AllSet sets ws
    → get_elem? sets i ≡ some s
    → Sets s.0 s.1 w
    → AllSet sets (set ws i w)
set-AllSet [] [] i s w h e a = tt
set-AllSet [] (x ∷ ws) i s w h e a = absurd h
set-AllSet ((k, v) ∷ sets) [] i s w h e a = absurd h
set-AllSet ((k, v) ∷ sets) (x ∷ ws) zero s w (b, h) e a =
    let same : s ≡ (k, v) = cc in (subst (λ (p : Bytes × Bytes). Sets p.0 p.1 w) same a, h)
set-AllSet ((k, v) ∷ sets) (x ∷ ws) (suc i) s w (b, h) e a = (b, set-AllSet sets ws i s w h e a)

-- The key of a goroutine is none of those behind it.
apart :
    (k : Bytes) (sets : List (Bytes × Bytes)) (i : ℕ) (s : Bytes × Bytes)
    → All (λ p. bytes_eq k p.0 ≡ false) sets
    → get_elem? sets i ≡ some s
    → bytes_eq k s.0 ≡ false
apart k [] i s h e = cc
apart k (p ∷ sets) zero s (a, h) e =
    let same : p ≡ s = cc in subst (λ (q : Bytes × Bytes). bytes_eq k q.0 ≡ false) same a
apart k (p ∷ sets) (suc i) s (a, h) e = apart k sets i s h e

-- If two keys differ, one of them is not the third.
other_key : (k k' j : Bytes) → bytes_eq k k' ≡ false → bytes_eq k' j ≡ true → bytes_eq k j ≡ false
other_key k k' j h e = rw (← bytes_eq→eq k' j e) h

-- A change goes on top.
pub overlay-changed :
    (sets : List (Bytes × Bytes)) (ws : List Worker) (i : ℕ) (s : Bytes × Bytes)
    (lines : List (List Bytes)) (j : Bytes) (base : Option Entity)
    → AreDistinct sets
    → AllSet sets ws
    → get_elem? sets i ≡ some s
    → get_elem? ws i ≡ some (ready (set_line s.0 s.1))
    → overlay sets (set ws i (changed lines)) j base
      ≡ (if bytes_eq s.0 j then some (entity_of s.1) else overlay sets ws j base)
overlay-changed [] ws i s lines j base d h e w = cc
overlay-changed ((k, v) ∷ sets) [] i s lines j base d h e w = absurd h
overlay-changed ((k, v) ∷ sets) (x ∷ ws) zero s lines j base d (not_yet, h) e w =
    let same : s ≡ (k, v) = cc in rw same refl
overlay-changed ((k, v) ∷ sets) (x ∷ ws) zero s lines j base (a, d) (unlogged, h) e w = cc
overlay-changed ((k, v) ∷ sets) (x ∷ ws) zero s lines j base d (done, h) e w = cc
overlay-changed ((k, v) ∷ sets) (x ∷ ws) (suc i) s lines j base (a, d) (not_yet, h) e w =
    overlay-changed sets ws i s lines j base d h e w
overlay-changed ((k, v) ∷ sets) (x ∷ ws) (suc i) s lines j base (a, d) (unlogged, h) e w = ground (
  arith,
  overlay-changed sets ws i s lines j base d h e w,
  other_key k s.0 j (apart k sets i s a e),
)
overlay-changed ((k, v) ∷ sets) (x ∷ ws) (suc i) s lines j base (a, d) (done, h) e w =
    overlay-changed sets ws i s lines j base d h e w

overlay-apart :
    (k : Bytes) (sets : List (Bytes × Bytes)) (ws : List Worker) (j : Bytes) (base : Option Entity)
    → All (λ p. bytes_eq k p.0 ≡ false) sets
    → k ≡ j
    → overlay sets ws j base ≡ base
overlay-apart k [] ws j base h e = refl
overlay-apart k (s ∷ sets) [] j base h e = refl
overlay-apart k (s ∷ sets) (ready line ∷ ws) j base (a, h) e = overlay-apart k sets ws j base h e
overlay-apart k ((k', v) ∷ sets) (changed lines ∷ ws) j base (a, h) e =
    let no : bytes_eq k' j ≡ false = ground (arith, a, e, bytes_eq→eq k' j, bytes_eq_refl k) in
    rw no (overlay-apart k sets ws j base h e)
overlay-apart k (s ∷ sets) (finished ∷ ws) j base (a, h) e = overlay-apart k sets ws j base h e

-- A change that has gone to the file is no more on top, but below.
pub overlay-finished :
    (sets : List (Bytes × Bytes)) (ws : List Worker) (i : ℕ) (s : Bytes × Bytes)
    (lines : List (List Bytes)) (j : Bytes) (base : Option Entity)
    → AreDistinct sets
    → AllSet sets ws
    → get_elem? sets i ≡ some s
    → get_elem? ws i ≡ some (changed lines)
    → overlay sets (set ws i finished) j (if bytes_eq s.0 j then some (entity_of s.1) else base)
      ≡ overlay sets ws j base
overlay-finished [] ws i s lines j base d h e w = cc
overlay-finished ((k, v) ∷ sets) [] i s lines j base d h e w = absurd h
overlay-finished ((k, v) ∷ sets) (x ∷ ws) zero s lines j base d (not_yet, h) e w = cc
overlay-finished ((k, v) ∷ sets) (x ∷ ws) zero s lines j base (a, d) (unlogged, h) e w =
    let same : s ≡ (k, v) = cc in
    rw same (elim (Bool-cases (bytes_eq k j)) [
      | inl same_key ↦
          rw same_key (overlay-apart k sets ws j (some (entity_of v)) a (bytes_eq→eq k j same_key))
      | inr other ↦ rw other refl
    ])
overlay-finished ((k, v) ∷ sets) (x ∷ ws) zero s lines j base d (done, h) e w = cc
overlay-finished ((k, v) ∷ sets) (x ∷ ws) (suc i) s lines j base (a, d) (not_yet, h) e w =
    overlay-finished sets ws i s lines j base d h e w
overlay-finished ((k, v) ∷ sets) (x ∷ ws) (suc i) s lines j base (a, d) (unlogged, h) e w = ground (
  arith,
  overlay-finished sets ws i s lines j base d h e w,
  other_key k s.0 j (apart k sets i s a e),
)
overlay-finished ((k, v) ∷ sets) (x ∷ ws) (suc i) s lines j base (a, d) (done, h) e w =
    overlay-finished sets ws i s lines j base d h e w

pub setters-AllSet : (sets : List (Bytes × Bytes)) → AllSet sets (setters sets)
setters-AllSet [] = tt
setters-AllSet ((k, v) ∷ sets) = (not_yet, setters-AllSet sets)

pub overlay-setters :
    (sets : List (Bytes × Bytes)) (j : Bytes) (base : Option Entity)
    → overlay sets (setters sets) j base ≡ base
overlay-setters [] j base = refl
overlay-setters ((k, v) ∷ sets) j base = overlay-setters sets j base

pub overlay-returned :
    (sets : List (Bytes × Bytes)) (ws : List Worker) (j : Bytes) (base : Option Entity)
    → All (λ w. w ≡ finished) ws
    → overlay sets ws j base ≡ base
overlay-returned [] ws j base h = refl
overlay-returned (s ∷ sets) [] j base h = refl
overlay-returned (s ∷ sets) (ready line ∷ ws) j base (e, h) = overlay-returned sets ws j base h
overlay-returned (s ∷ sets) (changed lines ∷ ws) j base (e, h) = cc
overlay-returned (s ∷ sets) (finished ∷ ws) j base (e, h) = overlay-returned sets ws j base h
