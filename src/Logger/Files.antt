-- ===== src/Logger/Files.antt =====
-- lib/logger/files.go and the files of lib/logger/logger.go: a logger that writes to a file for each date.
use go_redis.Base.{
  Bool, true, false, not, Option, none, some, List, [], ◌∷◌, ◌++◌, Bytes, codes, bytes_eq,
  if◌then◌else◌, ◌>>=◌,
}

-- The result of os.Stat, as far as the source asks for it.
pub data Stat : Type 0 where
  found not_exist no_permission other_error : Stat

-- What the system answers: os.Stat, os.MkdirAll, os.OpenFile.
pub record Os : Type 0 where
  pub stat : Bytes → Stat
  pub mkdir_all : Bytes → Bool
  pub open_file : Bytes → Bool

-- os.IsNotExist and os.IsPermission of its error.
abbrev pub is_not_exist : Stat → Bool
is_not_exist not_exist = true
is_not_exist found = false
is_not_exist no_permission = false
is_not_exist other_error = false

abbrev pub is_permission : Stat → Bool
is_permission no_permission = true
is_permission found = false
is_permission not_exist = false
is_permission other_error = false

unfoldable pub check_not_exist : Os → Bytes → Bool
check_not_exist os src = is_not_exist (os.stat src)

unfoldable pub check_permission : Os → Bytes → Bool
check_permission os src = is_permission (os.stat src)

unfoldable pub mk_dir : Os → Bytes → Bool
mk_dir os src = os.mkdir_all src

-- `false` is an error.
unfoldable pub is_not_exist_mk_dir : Os → Bytes → Bool
unfolding check_not_exist mk_dir
is_not_exist_mk_dir os src = if check_not_exist os src then mk_dir os src else true

-- The path that is opened, which is the name of the file.
abbrev pub file_path : Bytes → Bytes → Bytes
file_path dir file_name = dir ++ codes "/" ++ file_name

pub data OpenError : Type 0 where
  permission_denied make_dir open_fails : OpenError

pub data Opened : Type 0 where
  opened : (name : Bytes) → Opened
  failed : (e : OpenError) → Opened

unfoldable pub must_open : Os → Bytes → Bytes → Opened
unfolding check_permission is_not_exist_mk_dir
must_open os file_name dir =
    if check_permission os dir
    then failed permission_denied
    else if not (is_not_exist_mk_dir os dir)
    then failed make_dir
    else if os.open_file (file_path dir file_name)
    then opened (file_path dir file_name)
    else failed open_fails

pub record Settings : Type 0 where
  pub path : Bytes
  pub name : Bytes
  pub ext : Bytes

-- The file for a date, which is the time in the format of the settings.
unfoldable pub log_filename : Settings → Bytes → Bytes
log_filename settings date = settings.name ++ codes "-" ++ date ++ codes "." ++ settings.ext

-- `log_file` is the name of the open file; `opens` has the files opened so far, and `lines` the messages
-- with the file each went to.
pub record FileLogger : Type 0 where
  pub log_file : Bytes
  pub opens : List Bytes
  pub lines : List (Bytes × Bytes)

-- `NewFileLogger`, and `Setup`, which panics on an error.
unfoldable pub new_file_logger : Os → Settings → Bytes → Option FileLogger
unfolding must_open log_filename
new_file_logger os settings date = elim (must_open os (log_filename settings date) settings.path) [
  | opened file ↦ some (record { log_file = file; opens = file ∷ []; lines = [] })
  | failed e ↦ none
]

module _ (join : Bytes → Bytes → Bytes) (os : Os) (settings : Settings) where
  -- The choice of the file for a message. `none` is the panic; `join` is path.Join.
  unfoldable pub rotate : FileLogger → Bytes → Option FileLogger
  unfolding must_open log_filename
  rotate l date =
      if bytes_eq (join settings.path (log_filename settings date)) l.log_file
      then some l
      else elim (must_open os (log_filename settings date) settings.path) [
        | opened file ↦ some (record l { log_file = file; opens = l.opens ++ file ∷ [] })
        | failed e ↦ none
      ]

  -- The goroutine, for one message and the date it is written at.
  unfoldable pub log_line : FileLogger → Bytes × Bytes → Option FileLogger
  unfolding rotate
  log_line l (date, msg) = do
    k ← rotate l date
    some (record k { lines = k.lines ++ (k.log_file, msg) ∷ [] })

  unfoldable pub log_lines : FileLogger → List (Bytes × Bytes) → Option FileLogger
  unfolding log_line
  log_lines l [] = some l
  log_lines l (line ∷ lines) = do k ← log_line l line; log_lines k lines
