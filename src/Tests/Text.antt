-- ===== src/Tests/Text.antt =====
-- Concrete inputs for the parser, the replies, the patterns and the dictionary.
use go_redis.Base.{
  ℕ, ◌≡◌, refl, ◌≢◌, ◌↔◌, true, some, List, [], ◌∷◌, ◌++◌, arith, Bytes, codes, length, take, occ,
  All, ltb, if◌then◌else◌, pos, negsuc,
}
use go_redis.Utils.Random.{rand_index, rand_index-once}
use go_redis.Dict.{Dict}
use go_redis.Reply.{no_reply, bulk, multi_bulk, to_bytes}
use go_redis.Reply.Framing.{EndsLine, to_bytes-EndsLine}
use go_redis.Parser.{
  prepend, failed, init, eof, closed, crashed, out_of_fuel, parse_from, parse_stream,
}
use go_redis.Parser.Total.{parse_stream-ends}
use go_redis.Parser.RoundTrip
use go_redis.Parser.RoundTrip.{IsPlain, CommandIsPlain, commands_of, parse_stream-written}
use go_redis.Parser.Faults.{empty_argument_crashes}
use go_redis.Parser.Dollar.{PayloadNoDollar, parse_stream-NoDollar}
use go_redis.Parser.Replies.{received, parse_from-to_bytes}
use go_redis.Parser.Torn.{IsTorn, whole, parse_stream-IsTorn}
use go_redis.Utils.{convert_range}
use go_redis.Utils.Range.{IsRange, convert_range-IsRange}
use go_redis.Config.{ServerProperties, parse}
use go_redis.Config.RoundTrip.{IsWritable, file_of, parse-written}
use go_redis.Wildcard.{compile_pattern, is_match}
use go_redis.Wildcard.Spec.{Matches}
use go_redis.Wildcard.Table.{is_match-Matches}

abbrev set_command : List Bytes
set_command = codes "set" ∷ codes "k" ∷ codes "v" ∷ []

abbrev get_command : List Bytes
get_command = codes "get" ∷ codes "k" ∷ []

set_words-IsPlain : All IsPlain set_command
set_words-IsPlain = ((λ e. cc, omega arith), ((λ e. cc, omega arith), ((λ e. cc, omega arith), tt)))

set_command-plain : CommandIsPlain set_command
set_command-plain = (λ e. cc, omega arith, set_words-IsPlain)

get_command-plain : CommandIsPlain get_command
get_command-plain = (λ e. cc, omega arith, ((λ e. cc, omega arith), ((λ e. cc, omega arith), tt)))

parse_stream-written_example :
    parse_stream eof (RoundTrip.written (set_command ∷ get_command ∷ [])) ≡ record {
      payloads = commands_of (set_command ∷ get_command ∷ []) ++ failed eof ∷ [];
      end = closed;
    }
parse_stream-written_example =
    parse_stream-written eof (set_command ∷ get_command ∷ [])
      (set_command-plain, (get_command-plain, tt))

empty_argument_crashes_example :
    (parse_from eof (to_bytes (multi_bulk (set_command ++ [] ∷ [])) ++ codes "*0\r\n") init).end
    ≡ crashed
empty_argument_crashes_example =
    empty_argument_crashes eof set_command [] (codes "*0\r\n") (omega arith) set_words-IsPlain

parse_stream-ends_example : (parse_stream eof (codes "*1\r\n$x\r\n")).end ≢ out_of_fuel
parse_stream-ends_example = parse_stream-ends eof (codes "*1\r\n$x\r\n")

parse_stream-NoDollar_example :
    All PayloadNoDollar (parse_stream eof (codes "*1\r\n$3\r\n$12\r\n")).payloads
parse_stream-NoDollar_example = parse_stream-NoDollar eof (codes "*1\r\n$3\r\n$12\r\n")

is_match-Matches_example :
    (is_match (compile_pattern (codes "h*[a-c]?")) (codes "hello bo") ≡ true)
    ↔ Matches (compile_pattern (codes "h*[a-c]?")) (codes "hello bo")
is_match-Matches_example = is_match-Matches (compile_pattern (codes "h*[a-c]?")) (codes "hello bo")

to_bytes-EndsLine_example :
    EndsLine (to_bytes (bulk (codes "v")))
    ↔ ((bulk (codes "v") ≢ no_reply) × (bulk (codes "v") ≢ bulk []))
to_bytes-EndsLine_example = to_bytes-EndsLine (bulk (codes "v"))

abbrev table : Dict ℕ
table = (codes "a", 1) ∷ (codes "b", 2) ∷ []

parse_from-to_bytes_example :
    parse_from eof (to_bytes (bulk (codes "v")) ++ codes "+OK\r\n") init
    ≡ prepend (received (bulk (codes "v")) ∷ []) (parse_from eof (codes "+OK\r\n") init)
parse_from-to_bytes_example =
    parse_from-to_bytes eof (bulk (codes "v")) (codes "+OK\r\n") (λ e. cc, omega arith)

parse_stream-IsTorn_example :
    IsTorn
      (parse_stream eof (take 40 (RoundTrip.written (set_command ∷ get_command ∷ []))))
      (whole 40 (set_command ∷ get_command ∷ []))
parse_stream-IsTorn_example =
    parse_stream-IsTorn (set_command ∷ get_command ∷ []) 40
      (set_command-plain, (get_command-plain, tt))

convert_range-IsRange_example : IsRange 10 (convert_range (negsuc 2) (pos 99) (pos 10))
convert_range-IsRange_example = convert_range-IsRange (negsuc 2) (pos 99) 10 (omega arith)

abbrev properties : ServerProperties
properties = record {
  bind = codes "0.0.0.0";
  port = pos 8888;
  append_only = true;
  append_filename = codes "appendonly.aof";
  max_clients = negsuc 0;
  require_pass = codes "a b";
  databases = pos 16;
  peers = codes "n:1" ∷ codes "n:2" ∷ [];
  self = codes "n:3";
}

properties-IsWritable : IsWritable properties
unfolding go_redis.Config.trim
properties-IsWritable = record {
  bind = (λ e. cc, refl);
  append_filename = (λ e. cc, refl);
  require_pass = (λ e. cc, refl);
  self = (λ e. cc, refl);
  numbers = (omega arith, omega arith, omega arith);
  peers = (λ e. cc, refl);
  names = ((refl, (refl, (refl, tt))), ((refl, (refl, (refl, tt))), tt));
}

parse-written_example : parse (file_of properties) ≡ properties
parse-written_example = parse-written properties properties-IsWritable

-- Two exchanges that rand.Shuffle may make of three indexes.
abbrev shuffle : ℕ → List (ℕ × ℕ)
shuffle size = (2, 0) ∷ (1, 1) ∷ []

rand_index-once_example :
    (result : List ℕ) × (rand_index shuffle (pos 3) ≡ some result)
    × (length result ≡ 3)
    × ((a : ℕ) → occ a result ≡ (if ltb a 3 then 1 else 0))
rand_index-once_example =
    rand_index-once shuffle 3 ((omega arith, omega arith), ((omega arith, omega arith), tt))
