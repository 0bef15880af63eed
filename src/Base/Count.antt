-- ===== src/Base/Count.antt =====
-- How often a number occurs in a list.
use Prim.Native.Nat.{ℕ, zero, suc, ◌+◌, ◌≤◌, ◌<◌}
use mathlib.Core.Path.{◌≡◌, refl, ap}
use mathlib.Core.Logic.{◌≢◌}
use mathlib.Core.Option.{some}
use mathlib.Core.List.{List, [], ◌∷◌, ◌++◌}
use native.Mathlib.Omega.{arith}
use go_redis.Base.Tests.{◌==◌, if◌then◌else◌, ==_refl}
use go_redis.Base.Lists.{get_elem?, set}

-- How often a number occurs.
abbrev pub one : ℕ → ℕ → ℕ
one a b = if a == b then 1 else 0

abbrev pub occ : ℕ → List ℕ → ℕ
occ a [] = 0
occ a (b ∷ bs) = one a b + occ a bs

pub one_self : (a : ℕ) → one a a ≡ 1
one_self a = rw (==_refl a) refl

pub one-le : (a b : ℕ) → one a b ≤ 1
one-le a b = ground arith

pub one-ne : (a b : ℕ) → one a b ≡ 0 → a ≢ b
one-ne a b h e = absurd (omega (arith, h, one_self a, ap (one a) e))

pub occ-append : (a : ℕ) (xs ys : List ℕ) → occ a (xs ++ ys) ≡ occ a xs + occ a ys
occ-append a [] ys = omega arith
occ-append a (x ∷ xs) ys = omega (arith, occ-append a xs ys)

pub occ-split : (a b : ℕ) (xs ys : List ℕ) → occ a (xs ++ b ∷ ys) ≡ one a b + occ a (xs ++ ys)
occ-split a b xs ys = omega (arith, occ-append a xs (b ∷ ys), occ-append a xs ys)

pub one-eq : (a b : ℕ) → 1 ≤ one a b → a ≡ b
one-eq a b h = ground arith

pub one-lt : (a b : ℕ) → a < b → one a b ≡ 0
one-lt a b h = ground arith

pub occ-set :
    (a : ℕ) (xs : List ℕ) (i v w : ℕ)
    → get_elem? xs i ≡ some v
    → occ a (set xs i w) + one a v ≡ occ a xs + one a w
occ-set a [] i v w h = cc
occ-set a (x ∷ xs) zero v w h = let same : x ≡ v = cc in omega (arith, ap (one a) same)
occ-set a (x ∷ xs) (suc i) v w h = omega (arith, occ-set a xs i v w h)
