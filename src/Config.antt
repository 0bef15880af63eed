-- ===== src/Config.antt =====
-- config/config.go: the properties of the server from the lines of a file, and the choice of the
-- database by resp/handler. The lines are those of the scanner.
pub mod RoundTrip
use go_redis.Base.{
  ℕ, zero, suc, ◌+◌, ◌-◌, ◌*◌, ◌/◌, ◌%◌, ◌^◌, ◌≤◌, ◌<◌, min, max, ◌≡◌, refl, sym, ap, ◌∙◌, subst,
  ◌≡⟨◌⟩◌, ◌∎, ◌≢◌, ◌↔◌, ◌⊎◌, inl, inr, Bool, true, false, not, ◌&&◌, ◌||◌, Option, none, some, List,
  [], ◌∷◌, ◌++◌, map, append_assoc, append-nil, arith, Bytes, codes, bytes_eq, bytes_eq_refl,
  bytes_eq→eq, bytes_eq_iff, bytes_eq_of_ne, length, get_elem?, set, replicate, take, length-append,
  length-set, get_elem?-set_self, get_elem?-set_ne, set-get_elem?, set-set, get_elem?-lt, All,
  All-append, ltb, leb, ◌==◌, if◌then◌else◌, ltb→lt, lt→ltb, leb→le, ==_iff, ==_refl, Bool-cases,
  Option-cases, ◌>>=◌, ℤ, pos, negsuc, IsInt64, add_int64, add_int64-pos, to_word, of_word,
}
use go_redis.Dict
use go_redis.Dict.{Dict}
use go_redis.Utils.{to_lower}
use go_redis.Strconv.{parse_int}

pub record ServerProperties : Type 0 where
  pub bind : Bytes
  pub port : ℤ
  pub append_only : Bool
  pub append_filename : Bytes
  pub max_clients : ℤ
  pub require_pass : Bytes
  pub databases : ℤ
  pub peers : List Bytes
  pub self : Bytes

-- The properties before a file is read.
abbrev pub default_properties : ServerProperties
default_properties = record {
  bind = codes "127.0.0.1";
  port = pos 6379;
  append_only = false;
  append_filename = [];
  max_clients = pos 0;
  require_pass = [];
  databases = pos 0;
  peers = [];
  self = [];
}

-- A line parted at its first space, if it has one.
unfoldable pub part : Bytes → Option (Bytes × Bytes)
part [] = none
part (c ∷ line) =
    let rest = part line in
    if c == b' ' then some ([], line) else elim rest [ none ↦ none | some p ↦ some (c ∷ p.0, p.1) ]

-- `strings.Trim(s, " ")`
unfoldable pub trim_left : Bytes → Bytes
trim_left [] = []
trim_left (c ∷ s) = let rest = trim_left s in if c == b' ' then rest else c ∷ s

unfoldable pub trim_right : Bytes → Bytes
trim_right [] = []
trim_right (c ∷ s) =
    let rest = trim_right s in
    elim rest [ [] ↦ if c == b' ' then [] else c ∷ [] | d ∷ t ↦ c ∷ d ∷ t ]

unfoldable pub trim : Bytes → Bytes
unfolding trim_left trim_right
trim s = trim_left (trim_right s)

-- A line that is a key and a value: the space is neither its first byte nor its last.
unfoldable pub store_line : Bytes → Dict Bytes → Dict Bytes
unfolding part trim
store_line line raw = elim (part line) [
  | none ↦ raw
  | some p ↦
      if length p.0 == 0 || length p.1 == 0 then raw else Dict.store (to_lower p.0) (trim p.1) raw
]

unfoldable pub is_comment : Bytes → Bool
is_comment [] = false
is_comment (c ∷ _) = c == b'#'

-- The loop over the lines.
unfoldable pub read_lines : List Bytes → Dict Bytes → Dict Bytes
unfolding is_comment store_line
read_lines [] raw = raw
read_lines (line ∷ lines) raw =
    let next = if is_comment line then raw else store_line line raw in read_lines lines next

-- `strings.Split(s, ",")`
unfoldable pub split : Bytes → List Bytes
split [] = [] ∷ []
split (c ∷ s) =
    let rest = split s in
    if c == b',' then [] ∷ rest else elim rest [ [] ↦ (c ∷ []) ∷ [] | t ∷ ts ↦ (c ∷ t) ∷ ts ]

-- The fields by their kinds: one that the file does not have, or a number that does not parse,
-- stays as it is.
string_field : Dict Bytes → Bytes → Bytes
string_field raw key = elim (Dict.load key raw) [ none ↦ [] | some v ↦ v ]

int_field : Dict Bytes → Bytes → ℤ
int_field raw key = elim (Dict.load key raw) [
  | none ↦ pos 0
  | some v ↦ elim (parse_int v) [ none ↦ pos 0 | some z ↦ z ]
]

bool_field : Dict Bytes → Bytes → Bool
bool_field raw key = elim (Dict.load key raw) [ none ↦ false | some v ↦ bytes_eq (codes "yes") v ]

slice_field : Dict Bytes → Bytes → List Bytes
unfolding split
slice_field raw key = elim (Dict.load key raw) [ none ↦ [] | some v ↦ split v ]

-- The loop over the fields, with the `cfg` tag of each in lower case.
unfoldable pub fill : Dict Bytes → ServerProperties
unfolding string_field int_field bool_field slice_field
fill raw = record {
  bind = string_field raw (codes "bind");
  port = int_field raw (codes "port");
  append_only = bool_field raw (codes "appendonly");
  append_filename = string_field raw (codes "appendfilename");
  max_clients = int_field raw (codes "maxclients");
  require_pass = string_field raw (codes "requirepass");
  databases = int_field raw (codes "databases");
  peers = slice_field raw (codes "peers");
  self = string_field raw (codes "self");
}

-- `parse`
unfoldable pub parse : List Bytes → ServerProperties
unfolding read_lines fill
parse lines = fill (read_lines lines [])

-- The condition of `MakeRespHandler`.
unfoldable pub uses_cluster : ServerProperties → Bool
uses_cluster p = not (length p.self == 0) && ltb 0 (length p.peers)

-- The file redis.conf.
parse_conf :
    parse (
      codes "bind 0.0.0.0"
      ∷ codes "port 8888"
      ∷ codes "databases 16"
      ∷ []
      ∷ codes "appendonly yes"
      ∷ codes "appendfilename appendonly.aof"
      ∷ []
      ∷ codes "self 127.0.0.1:8888"
      ∷ codes "peers 127.0.0.1:8889"
      ∷ [])
    ≡ record {
      bind = codes "0.0.0.0";
      port = pos 8888;
      append_only = true;
      append_filename = codes "appendonly.aof";
      max_clients = pos 0;
      require_pass = [];
      databases = pos 16;
      peers = codes "127.0.0.1:8889" ∷ [];
      self = codes "127.0.0.1:8888";
    }
unfolding parse bytes_eq Dict.store Dict.load to_lower parse_int
parse_conf = refl
