-- ===== src/Utils.antt =====
-- lib/utils/utils.go.
pub mod Range
pub mod Unique
pub mod Random
use go_redis.Base.{
  ℕ, zero, suc, ◌+◌, ◌-◌, ◌*◌, ◌/◌, ◌%◌, ◌^◌, ◌≤◌, ◌<◌, min, max, ◌≡◌, refl, sym, ap, ◌∙◌, subst,
  ◌≡⟨◌⟩◌, ◌∎, ◌≢◌, ◌↔◌, ◌⊎◌, inl, inr, Bool, true, false, not, ◌&&◌, ◌||◌, Option, none, some, List,
  [], ◌∷◌, ◌++◌, map, append_assoc, append-nil, arith, Bytes, codes, bytes_eq, bytes_eq_refl,
  bytes_eq→eq, bytes_eq_iff, bytes_eq_of_ne, length, get_elem?, set, replicate, take, length-append,
  length-set, get_elem?-set_self, get_elem?-set_ne, set-get_elem?, set-set, get_elem?-lt, All,
  All-append, ltb, leb, ◌==◌, if◌then◌else◌, ltb→lt, lt→ltb, leb→le, ==_iff, ==_refl, Bool-cases,
  Option-cases, ◌>>=◌, ℤ, pos, negsuc, IsInt64, add_int64, add_int64-pos, to_word, of_word,
}
use go_redis.Dict
use go_redis.Dict.{Dict}

-- `ToCmdLine`: a copy of the strings as byte slices.
unfoldable pub to_cmd_line : List Bytes → List Bytes
to_cmd_line [] = []
to_cmd_line (s ∷ cmd) = s ∷ to_cmd_line cmd

-- `ToCmdLine2` and `ToCmdLine3`: the name in front of the arguments.
abbrev pub to_cmd_line2 : Bytes → List Bytes → List Bytes
to_cmd_line2 name args = name ∷ args

abbrev pub to_cmd_line3 : Bytes → List Bytes → List Bytes
to_cmd_line3 name args = name ∷ args

lower_byte : ℕ → ℕ
lower_byte c = if leb b'A' c && leb c b'Z' then c + 32 else c

-- `strings.ToLower` on ASCII letters; other bytes stay as they are.
unfoldable pub to_lower : Bytes → Bytes
unfolding lower_byte
to_lower [] = []
to_lower (c ∷ s) = lower_byte c ∷ to_lower s

-- Lower-case text is left as it is.
pub to_lower-to_lower : (s : Bytes) → to_lower (to_lower s) ≡ to_lower s
unfolding to_lower
to_lower-to_lower [] = refl
to_lower-to_lower (c ∷ s) = ground (arith, to_lower-to_lower s)

pub length-to_lower : (s : Bytes) → length (to_lower s) ≡ length s
unfolding to_lower
length-to_lower [] = refl
length-to_lower (c ∷ s) = ap suc (length-to_lower s)

-- A byte slice, which may be `nil`.
abbrev pub Slice : Type 0
Slice = Option Bytes

-- The loop of `BytesEquals`, over two slices of one length.
unfoldable pub same_bytes : Bytes → Bytes → Bool
same_bytes [] _ = true
same_bytes (_ ∷ _) [] = true
same_bytes (a ∷ s) (b ∷ t) = let rest = same_bytes s t in if a == b then rest else false

unfoldable pub bytes_equals : Slice → Slice → Bool
unfolding same_bytes
bytes_equals none none = true
bytes_equals none (some _) = false
bytes_equals (some _) none = false
bytes_equals (some s) (some t) = if length s == length t then same_bytes s t else false

-- A value of an interface: a byte slice, or of another dynamic type.
pub data Value (A : Type 0) : Type 0 where
  slice : Slice → Value A
  other : A → Value A

-- `Equals`, with `==` on two values of other types, which may panic. Values of two types differ.
unfoldable pub equals : {A : Type 0} → (A → A → Option Bool) → Value A → Value A → Option Bool
equals same (slice s) (slice t) = some (bytes_equals s t)
equals same (other a) (other b) = same a b
equals same _ _ = some false

-- `<` and unary `-` on `int64`.
unfoldable pub less : ℤ → ℤ → Bool
less (pos a) (pos b) = ltb a b
less (pos a) (negsuc b) = false
less (negsuc a) (pos b) = true
less (negsuc a) (negsuc b) = ltb b a

unfoldable pub neg_int64 : ℤ → ℤ
neg_int64 z = of_word ((2 ^ 64 - to_word z) % 2 ^ 64)

-- The first `if` of `ConvertRange`: the new `start`, or none for the return of [-1, -1].
unfoldable pub convert_start : ℤ → ℤ → Option ℤ
unfolding less neg_int64
convert_start start size =
    if less start (neg_int64 size)
    then none
    else if less start (pos 0)
    then some (add_int64 size start)
    else if less start size
    then some start
    else none

-- The second `if`, for `end`.
unfoldable pub convert_end : ℤ → ℤ → Option ℤ
unfolding less neg_int64
convert_end stop size =
    if less stop (neg_int64 size)
    then none
    else if less stop (pos 0)
    then some (add_int64 (add_int64 size stop) (pos 1))
    else if less stop size
    then some (add_int64 stop (pos 1))
    else some size

abbrev pub out_of_range : ℤ × ℤ
out_of_range = (negsuc 0, negsuc 0)

unfoldable pub convert_range : ℤ → ℤ → ℤ → ℤ × ℤ
unfolding convert_start convert_end less
convert_range start stop size = elim (convert_start start size) [
  | none ↦ out_of_range
  | some s ↦ elim (convert_end stop size) [
    | none ↦ out_of_range
    | some e ↦ if less e s then out_of_range else (s, e)
  ]
]

-- The loop of `RemoveDuplicates`, with `uniqueMap` and `result`.
unfoldable pub remove_loop : Dict Unit → List Bytes → List Bytes → List Bytes
remove_loop unique result [] = result
remove_loop unique result (item ∷ input) =
    let skip = remove_loop unique result input in
    let keep = remove_loop (Dict.store item tt unique) (result ++ item ∷ []) input in
    elim (Dict.load item unique) [ none ↦ keep | some _ ↦ skip ]

unfoldable pub remove_duplicates : List Bytes → List Bytes
unfolding remove_loop
remove_duplicates input = remove_loop [] [] input
