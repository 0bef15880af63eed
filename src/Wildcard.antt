-- ===== src/Wildcard.antt =====
-- lib/wildcard/wildcard.go: compiling a glob pattern and matching by a table.
pub mod Utf8
pub mod Spec
pub mod Table
use go_redis.Base.{
  ℕ, zero, suc, ◌+◌, ◌-◌, ◌*◌, ◌/◌, ◌%◌, ◌^◌, ◌≤◌, ◌<◌, min, max, ◌≡◌, refl, sym, ap, ◌∙◌, subst,
  ◌≡⟨◌⟩◌, ◌∎, ◌≢◌, ◌↔◌, ◌⊎◌, inl, inr, Bool, true, false, not, ◌&&◌, ◌||◌, Option, none, some, List,
  [], ◌∷◌, ◌++◌, map, append_assoc, append-nil, arith, Bytes, codes, bytes_eq, bytes_eq_refl,
  bytes_eq→eq, bytes_eq_iff, bytes_eq_of_ne, length, get_elem?, set, replicate, take, length-append,
  length-set, get_elem?-set_self, get_elem?-set_ne, set-get_elem?, set-set, get_elem?-lt, All,
  All-append, ltb, leb, ◌==◌, if◌then◌else◌, ltb→lt, lt→ltb, leb→le, ==_iff, ==_refl, Bool-cases,
  Option-cases, ◌>>=◌, ℤ, pos, negsuc, IsInt64,
}
use Utf8.{runes}

-- The constants of the source, in their order.
pub data TypeCode : Type 0 where
  normal all any set_symbol rang_symbol neg_symbol : TypeCode

-- `map[byte]bool` as the list of its keys.
pub record Item : Type 0 where
  pub character : ℕ
  pub set : List ℕ
  pub type_code : TypeCode

unfoldable pub member : ℕ → List ℕ → Bool
member c [] = false
member c (k ∷ ks) = k == c || member c ks

unfoldable pub add_key : ℕ → List ℕ → List ℕ
unfolding member
add_key c ks = if member c ks then ks else ks ++ c ∷ []

unfoldable pub delete_key : ℕ → List ℕ → List ℕ
delete_key c [] = []
delete_key c (k ∷ ks) = let rest = delete_key c ks in if k == c then rest else k ∷ rest

-- The loop of `contains` over the keys, from 255 and 0.
least : ℕ → List ℕ → ℕ
least m [] = m
least m (k ∷ ks) = least (if ltb k m then k else m) ks

greatest : ℕ → List ℕ → ℕ
greatest m [] = m
greatest m (k ∷ ks) = greatest (if ltb m k then k else m) ks

contains_by : TypeCode → List ℕ → ℕ → Bool
unfolding member least greatest
contains_by set_symbol ks c = member c ks
contains_by rang_symbol ks c =
    if member c ks then true else leb (least 255 ks) c && leb c (greatest 0 ks)
contains_by _ ks c = not (member c ks)

-- `item.contains`
unfoldable pub contains : Item → ℕ → Bool
unfolding contains_by
contains i c = contains_by i.type_code i.set c

-- The variables of the loop of `CompilePattern`.
pub record Compiler : Type 0 where
  pub items : List Item
  pub escape : Bool
  pub in_set : Bool
  pub set : List ℕ

abbrev pub literal : ℕ → Item
literal c = record { character = c; set = []; type_code = normal }

abbrev push : Compiler → Item → Compiler
push s i = record s { items = s.items ++ i ∷ [] }

-- The item of a closed set: `-` makes it a range, `^` a negation, and the marks leave the set.
close_set : List ℕ → Item
unfolding member delete_key
close_set ks =
    let code = if member b'-' ks then rang_symbol else set_symbol in
    let ks' = if member b'-' ks then delete_key b'-' ks else ks in
    if member b'^' ks'
    then record { character = 0; set = delete_key b'^' ks'; type_code = neg_symbol }
    else record { character = 0; set = ks'; type_code = code }

-- One round of the loop.
unfoldable pub compile_rune : Compiler → ℕ → Compiler
unfolding close_set add_key
compile_rune s c =
    if s.escape
    then record s { items = s.items ++ literal c ∷ []; escape = false }
    else if c == b'*'
    then push s (record { character = 0; set = []; type_code = all })
    else if c == b'?'
    then push s (record { character = 0; set = []; type_code = any })
    else if c == b'\\'
    then record s { escape = true }
    else if c == b'['
    then (if s.in_set
        then record s { set = add_key c s.set }
        else record s { in_set = true; set = [] })
    else if c == b']'
    then (if s.in_set
        then record s { items = s.items ++ close_set s.set ∷ []; in_set = false }
        else push s (literal c))
    else if s.in_set
    then record s { set = add_key c s.set }
    else push s (literal c)

compile : Compiler → List ℕ → Compiler
compile s [] = s
compile s (v ∷ vs) = compile (compile_rune s (v % 256)) vs

-- `CompilePattern`: a loop over the runes of the text, each cut to a byte.
unfoldable pub compile_pattern : Bytes → List Item
unfolding compile runes
compile_pattern src =
    (compile (record { items = []; escape = false; in_set = false; set = [] }) (runes src)).items

-- The test of a table cell on one byte, for an item that is not `*`.
accepts_by : TypeCode → Item → ℕ → Bool
accepts_by all i c = false
accepts_by any i c = true
accepts_by normal i c = c == i.character
accepts_by _ i c = contains i c

unfoldable pub accepts : Item → ℕ → Bool
unfolding accepts_by
accepts i c = accepts_by i.type_code i c

is_all_code : TypeCode → Bool
is_all_code all = true
is_all_code _ = false

unfoldable pub is_all : Item → Bool
unfolding is_all_code
is_all i = is_all_code i.type_code

-- Row 0 behind the cell `left`.
unfoldable pub first_cells : Bool → List Item → List Bool
first_cells left [] = []
first_cells left (i ∷ items) = let cell = left && is_all i in cell ∷ first_cells cell items

-- A row behind the cell `left`, from the row above: `above` is that row's cell over `left`.
unfoldable pub next_cells : ℕ → Bool → Bool → List Bool → List Item → List Bool
next_cells c left above row [] = []
next_cells c left above [] (i ∷ items) = []
next_cells c left above (up ∷ row) (i ∷ items) =
    let cell = if is_all i then up || left else above && accepts i c in
    cell ∷ next_cells c cell up row items

-- The rows below row `row`, whose first cell is `first`; the result is the last cell of the last
-- row.
last_cell : Bool → List Bool → Bool
last_cell first [] = first
last_cell first (cell ∷ row) = last_cell cell row

rows : List Item → Bool → List Bool → Bytes → Bool
unfolding next_cells last_cell
rows items first row [] = last_cell first row
rows items first row (c ∷ s) = rows items false (next_cells c false first row items) s

-- `IsMatch`
unfoldable pub is_match : List Item → Bytes → Bool
unfolding rows first_cells
is_match [] [] = true
is_match [] (_ ∷ _) = false
is_match (i ∷ items) s = rows (i ∷ items) true (first_cells true (i ∷ items)) s

glob_tests :
    (is_match (compile_pattern (codes "h*llo")) (codes "heello") ≡ true)
    × (is_match (compile_pattern (codes "h[a-c]t")) (codes "hbt") ≡ true)
    × (is_match (compile_pattern (codes "h[^a]t")) (codes "hat") ≡ false)
    × (is_match (compile_pattern (codes "*")) [] ≡ true)
    × (is_match (compile_pattern (codes "a?\\*")) (codes "ab*") ≡ true)
unfolding is_match compile_pattern compile_rune accepts is_all contains
glob_tests = (refl, refl, refl, refl, refl)
