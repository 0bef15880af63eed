-- ===== src/Main.antt =====
-- main.go, with SetupConfig of config/config.go: the properties that the server starts with and the address it
-- listens on.
use go_redis.Base.{
  ◌≡◌, refl, ap, Bool, true, false, Option, none, some, List, [], ◌++◌, Bytes, codes, if◌then◌else◌,
  ◌>>=◌, pos,
}
use go_redis.Strconv.{itoa, format_int}
use go_redis.Config.{ServerProperties, parse}
use go_redis.Config.RoundTrip.{IsWritable, file_of, parse-written}

-- The name redis.conf: nothing, a directory, a file that cannot be opened, or the lines of a file.
pub data ConfigFile : Type 0 where
  no_file directory unreadable : ConfigFile
  lines_of : List Bytes → ConfigFile

-- `defaultProperties` of main.go: the other fields are zero.
abbrev pub main_properties : ServerProperties
main_properties = record {
  bind = codes "0.0.0.0";
  port = pos 6379;
  append_only = false;
  append_filename = [];
  max_clients = pos 0;
  require_pass = [];
  databases = pos 0;
  peers = [];
  self = [];
}

unfoldable pub file_exists : ConfigFile → Bool
file_exists no_file = false
file_exists directory = false
file_exists unreadable = true
file_exists (lines_of lines) = true

-- `none` is a panic.
unfoldable pub setup_config : ConfigFile → Option ServerProperties
unfolding parse
setup_config (lines_of lines) = some (parse lines)
setup_config f = none

-- The first branch of `main`.
unfoldable pub properties : ConfigFile → Option ServerProperties
unfolding file_exists setup_config
properties f = if file_exists f then setup_config f else some main_properties

-- The `Address` of tcp.Config.
unfoldable pub address : ServerProperties → Bytes
address p = p.bind ++ codes ":" ++ format_int p.port

-- With a file that was written for some properties the server listens on their address, and without a
-- file on port 6379 of every interface.
pub address-written :
    (p : ServerProperties)
    → IsWritable p
    → ((properties (lines_of (file_of p)) >>= (λ q. some (address q)))
        ≡ some (p.bind ++ codes ":" ++ format_int p.port))
      × ((properties no_file >>= (λ q. some (address q))) ≡ some (codes "0.0.0.0:6379"))
unfolding properties file_exists setup_config address format_int itoa
address-written p w = (ap (λ q. some (address q)) (parse-written p w), refl)
