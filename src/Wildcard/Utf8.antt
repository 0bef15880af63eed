-- ===== src/Wildcard/Utf8.antt =====
-- `range` over a Go string: the runes of its UTF-8 text, U+FFFD for each byte that is no part of
-- one.
use go_redis.Base.{
  ℕ, zero, suc, ◌+◌, ◌-◌, ◌*◌, ◌≡◌, refl, Bool, ◌&&◌, List, [], ◌∷◌, Bytes, ltb, leb, ◌==◌,
  if◌then◌else◌,
}

within : ℕ → ℕ → ℕ → Bool
within lo hi b = leb lo b && leb b hi

is_cont : ℕ → Bool
unfolding within
is_cont = within 0x80 0xbf

-- The second bytes that may follow a lead byte of three or four.
second_ok : ℕ → ℕ → Bool
unfolding within
second_ok lead b =
    if lead == 0xe0
    then within 0xa0 0xbf b
    else if lead == 0xed
    then within 0x80 0x9f b
    else if lead == 0xf0
    then within 0x90 0xbf b
    else if lead == 0xf4
    then within 0x80 0x8f b
    else within 0x80 0xbf b

-- The rune at the front of a text, and how many bytes stand behind its first.
front : ℕ → Bytes → ℕ × ℕ
unfolding within is_cont second_ok
front a [] = if ltb a 0x80 then (a, 0) else (0xfffd, 0)
front a (b ∷ []) =
    if ltb a 0x80
    then (a, 0)
    else if within 0xc2 0xdf a && is_cont b
    then ((a - 0xc0) * 64 + (b - 0x80), 1)
    else (0xfffd, 0)
front a (b ∷ c ∷ []) =
    if ltb a 0x80
    then (a, 0)
    else if within 0xc2 0xdf a && is_cont b
    then ((a - 0xc0) * 64 + (b - 0x80), 1)
    else if within 0xe0 0xef a && second_ok a b && is_cont c
    then ((a - 0xe0) * 4096 + (b - 0x80) * 64 + (c - 0x80), 2)
    else (0xfffd, 0)
front a (b ∷ c ∷ d ∷ _) =
    if ltb a 0x80
    then (a, 0)
    else if within 0xc2 0xdf a && is_cont b
    then ((a - 0xc0) * 64 + (b - 0x80), 1)
    else if within 0xe0 0xef a && second_ok a b && is_cont c
    then ((a - 0xe0) * 4096 + (b - 0x80) * 64 + (c - 0x80), 2)
    else if within 0xf0 0xf4 a && second_ok a b && is_cont c && is_cont d
    then ((a - 0xf0) * 262144 + (b - 0x80) * 4096 + (c - 0x80) * 64 + (d - 0x80), 3)
    else (0xfffd, 0)

-- `skip` bytes still belong to the rune that was read.
scan : ℕ → Bytes → List ℕ
unfolding front
scan skip [] = []
scan zero (a ∷ s) = let (rune, more) = front a s in rune ∷ scan more s
scan (suc skip) (a ∷ s) = scan skip s

unfoldable pub runes : Bytes → List ℕ
unfolding scan
runes = scan 0

euro : runes (0x61 ∷ 0xe2 ∷ 0x82 ∷ 0xac ∷ 0xff ∷ []) ≡ 0x61 ∷ 0x20ac ∷ 0xfffd ∷ []
unfolding runes
euro = refl
