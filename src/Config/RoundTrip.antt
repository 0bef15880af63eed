-- ===== src/Config/RoundTrip.antt =====
-- A file of configuration that is written and read back.
use go_redis.Base.{
  suc, ◌≡◌, refl, ap, ◌∙◌, ◌≢◌, Bool, true, false, not, ◌&&◌, none, some, List, [], ◌∷◌, ◌++◌, map,
  arith, Bytes, codes, bytes_eq, length, All, ◌==◌, if◌then◌else◌, ℤ, pos, negsuc, IsInt64,
}
use go_redis.Dict
use go_redis.Dict.{Dict}
use go_redis.Utils.{to_lower}
use go_redis.Strconv.{parse_int, format_int}
use go_redis.Strconv.Digits.{IsDigit, itoa-IsDigit, itoa-ne-nil}
use go_redis.Strconv.RoundTrip.{parse_int-format_int}
use go_redis.Config.{
  ServerProperties, part, trim_left, trim_right, trim, store_line, is_comment, read_lines, split,
  string_field, int_field, bool_field, slice_field, fill, parse,
}

abbrev pub join : List Bytes → Bytes
join [] = []
join (s ∷ []) = s
join (s ∷ t ∷ ts) = s ++ (b',' ∷ join (t ∷ ts))

abbrev pub yes_no : Bool → Bytes
yes_no b = if b then codes "yes" else codes "no"

abbrev pub entry : Bytes → Bytes → Bytes
entry key value = key ++ (b' ' ∷ value)

-- A file with a line for each property.
abbrev pub file_of : ServerProperties → List Bytes
file_of p =
    entry (codes "bind") p.bind
    ∷ entry (codes "port") (format_int p.port)
    ∷ entry (codes "appendOnly") (yes_no p.append_only)
    ∷ entry (codes "appendFilename") p.append_filename
    ∷ entry (codes "maxclients") (format_int p.max_clients)
    ∷ entry (codes "requirepass") p.require_pass
    ∷ entry (codes "databases") (format_int p.databases)
    ∷ entry (codes "peers") (join p.peers)
    ∷ entry (codes "self") p.self
    ∷ []

-- A text that is not empty, and has no space at its ends.
abbrev pub IsText : Bytes → Type 0
IsText s = (s ≢ []) × (trim s ≡ s)

-- A name of a node without the comma.
abbrev pub HasNoComma : Bytes → Type 0
HasNoComma s = All (λ c. (c == b',') ≡ false) s

pub record IsWritable (p : ServerProperties) : Type 0 where
  pub bind : IsText p.bind
  pub append_filename : IsText p.append_filename
  pub require_pass : IsText p.require_pass
  pub self : IsText p.self
  pub numbers : IsInt64 p.port × IsInt64 p.max_clients × IsInt64 p.databases
  pub peers : IsText (join p.peers)
  pub names : All HasNoComma p.peers

abbrev HasNoSpace : Bytes → Type 0
HasNoSpace s = All (λ c. (c == b' ') ≡ false) s

part-entry : (key value : Bytes) → HasNoSpace key → part (entry key value) ≡ some (key, value)
unfolding part
part-entry [] value h = refl
part-entry (c ∷ key) value (e, h) = rw (part, e, part-entry key value h) refl

-- The name of a property: it has no space, and does not begin a comment.
abbrev IsKey : Bytes → Type 0
IsKey key =
    HasNoSpace key
    × ((length key == 0) ≡ false)
    × ((value : Bytes) → is_comment (entry key value) ≡ false)

length-IsText : (s : Bytes) → s ≢ [] → (length s == 0) ≡ false
length-IsText [] h = absurd (h refl)
length-IsText (c ∷ s) h = ground arith

store_line-entry :
    (key value : Bytes) (raw : Dict Bytes)
    → IsKey key
    → IsText value
    → store_line (entry key value) raw ≡ Dict.store (to_lower key) value raw
unfolding store_line
store_line-entry key value raw (h, l, _) (ne, t) =
    rw (store_line, part-entry key value h, l, length-IsText value ne, t) refl

read_lines-entry :
    (key value : Bytes) (lines : List Bytes) (raw : Dict Bytes)
    → IsKey key
    → IsText value
    → read_lines (entry key value ∷ lines) raw
      ≡ read_lines lines (Dict.store (to_lower key) value raw)
unfolding read_lines
read_lines-entry key value lines raw k t =
    rw (read_lines, k.2 value) (ap (read_lines lines) (store_line-entry key value raw k t))

trim_right-HasNoSpace : (s : Bytes) → HasNoSpace s → trim_right s ≡ s
unfolding trim_right
trim_right-HasNoSpace [] h = refl
trim_right-HasNoSpace (c ∷ []) (e, h) = rw (trim_right, e) refl
trim_right-HasNoSpace (c ∷ d ∷ s) (e, h) = rw (trim_right, trim_right-HasNoSpace (d ∷ s) h) refl

trim-HasNoSpace : (s : Bytes) → HasNoSpace s → trim s ≡ s
unfolding trim trim_left
trim-HasNoSpace [] h = refl
trim-HasNoSpace (c ∷ s) (e, h) = rw (trim, trim_right-HasNoSpace (c ∷ s) (e, h), e) refl

digits-HasNoSpace : (s : Bytes) → All IsDigit s → HasNoSpace s
digits-HasNoSpace [] h = tt
digits-HasNoSpace (c ∷ s) (d, h) = (ground (arith, d), digits-HasNoSpace s h)

format_int-IsText : (z : ℤ) → IsText (format_int z)
unfolding format_int
format_int-IsText (pos n) =
    (itoa-ne-nil n, trim-HasNoSpace _ (digits-HasNoSpace _ (itoa-IsDigit n)))
format_int-IsText (negsuc n) =
    (λ e. cc, trim-HasNoSpace _ (refl, digits-HasNoSpace _ (itoa-IsDigit (suc n))))

yes_no-IsText : (b : Bool) → IsText (yes_no b)
unfolding trim
yes_no-IsText true = (λ e. cc, refl)
yes_no-IsText false = (λ e. cc, refl)

split-last : (s : Bytes) → HasNoComma s → split s ≡ s ∷ []
unfolding split
split-last [] h = refl
split-last (c ∷ s) (e, h) = rw (split, e, split-last s h) refl

split-comma : (s t : Bytes) → HasNoComma s → split (s ++ (b',' ∷ t)) ≡ s ∷ split t
unfolding split
split-comma [] t h = refl
split-comma (c ∷ s) t (e, h) = rw (split, e, split-comma s t h) refl

split-join :
    (s : Bytes) (ss : List Bytes) → All HasNoComma (s ∷ ss) → split (join (s ∷ ss)) ≡ s ∷ ss
split-join s [] (h, hs) = split-last s h
split-join s (t ∷ ts) (h, hs) =
    split-comma s (join (t ∷ ts)) h ∙ ap (λ r. s ∷ r) (split-join t ts hs)

abbrev no_space : Bytes → Bool
no_space [] = true
no_space (c ∷ s) = not (c == b' ') && no_space s

no_space-HasNoSpace : (s : Bytes) → no_space s ≡ true → HasNoSpace s
no_space-HasNoSpace [] e = tt
no_space-HasNoSpace (c ∷ s) e = (ground (arith, e), no_space-HasNoSpace s (ground (arith, e)))

abbrev is_key : Bytes → Bool
is_key [] = false
is_key (c ∷ key) = not (c == b'#') && no_space (c ∷ key)

is_key-IsKey : (key : Bytes) → is_key key ≡ true → IsKey key
unfolding is_comment
is_key-IsKey [] e = cc
is_key-IsKey (c ∷ key) e =
    (no_space-HasNoSpace (c ∷ key) (ground (arith, e)), ground arith, λ value. ground (arith, e))

-- The map behind lines of keys and values.
stored : List (Bytes × Bytes) → Dict Bytes → Dict Bytes
stored [] raw = raw
stored ((key, value) ∷ entries) raw = stored entries (Dict.store (to_lower key) value raw)

abbrev entry_of : Bytes × Bytes → Bytes
entry_of (key, value) = entry key value

read_lines-stored :
    (entries : List (Bytes × Bytes)) (raw : Dict Bytes)
    → All (λ e. (is_key e.0 ≡ true) × IsText e.1) entries
    → read_lines (map entry_of entries) raw ≡ stored entries raw
unfolding stored read_lines
read_lines-stored [] raw h = refl
read_lines-stored ((key, value) ∷ entries) raw ((k, v), h) =
    read_lines-entry key value (map entry_of entries) raw (is_key-IsKey key k) v
    ∙ read_lines-stored entries (Dict.store (to_lower key) value raw) h

number : Bytes → ℤ
number v = elim (parse_int v) [ none ↦ pos 0 | some z ↦ z ]

abbrev entries_of : ServerProperties → List (Bytes × Bytes)
entries_of p =
    (codes "bind", p.bind)
    ∷ (codes "port", format_int p.port)
    ∷ (codes "appendOnly", yes_no p.append_only)
    ∷ (codes "appendFilename", p.append_filename)
    ∷ (codes "maxclients", format_int p.max_clients)
    ∷ (codes "requirepass", p.require_pass)
    ∷ (codes "databases", format_int p.databases)
    ∷ (codes "peers", join p.peers)
    ∷ (codes "self", p.self)
    ∷ []

-- What the fields read in a file with a line for each.
fill-entries :
    (p : ServerProperties)
    → fill (stored (entries_of p) []) ≡ record {
      bind = p.bind;
      port = number (format_int p.port);
      append_only = bytes_eq (codes "yes") (yes_no p.append_only);
      append_filename = p.append_filename;
      max_clients = number (format_int p.max_clients);
      require_pass = p.require_pass;
      databases = number (format_int p.databases);
      peers = split (join p.peers);
      self = p.self;
    }
unfolding fill stored Dict.store Dict.load bytes_eq to_lower number string_field int_field
    bool_field slice_field
fill-entries p = refl

number-format_int : (z : ℤ) → IsInt64 z → number (format_int z) ≡ z
unfolding number
number-format_int z h = rw (number, parse_int-format_int z h) refl

yes_no-read : (b : Bool) → bytes_eq (codes "yes") (yes_no b) ≡ b
unfolding bytes_eq
yes_no-read true = refl
yes_no-read false = refl

split-join_names : (ss : List Bytes) → join ss ≢ [] → All HasNoComma ss → split (join ss) ≡ ss
split-join_names [] ne h = absurd (ne refl)
split-join_names (s ∷ ss) ne h = split-join s ss h

-- A file with a line for each property is read back as these properties, if no text is empty or has
-- a space at its ends, the numbers are of int64, and no peer's name has a comma.
pub parse-written : (p : ServerProperties) → IsWritable p → parse (file_of p) ≡ p
unfolding parse
parse-written p w =
    let h : All (λ (e : Bytes × Bytes). (is_key e.0 ≡ true) × IsText e.1) (entries_of p) = (
      (refl, w.bind),
      (
        (refl, format_int-IsText p.port),
        (
          (refl, yes_no-IsText p.append_only),
          (
            (refl, w.append_filename),
            (
              (refl, format_int-IsText p.max_clients),
              (
                (refl, w.require_pass),
                ((refl, format_int-IsText p.databases), ((refl, w.peers), ((refl, w.self), tt))),
              ),
            ),
          ),
        ),
      ),
    ) in
    ap fill (read_lines-stored (entries_of p) [] h)
    ∙ (fill-entries p
        ∙ rw
            (
              number-format_int p.port w.numbers.0,
              number-format_int p.max_clients w.numbers.1,
              number-format_int p.databases w.numbers.2,
              yes_no-read p.append_only,
              split-join_names p.peers w.peers.0 w.names,
            )
            refl)
