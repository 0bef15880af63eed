-- ===== src/Logger/Lines.antt =====
-- lib/logger/logger.go: what the goroutine of a file logger does with a list of messages.
use go_redis.Base.{
  ◌≡◌, refl, sym, ap, ◌∙◌, ◌≢◌, inl, inr, Bool, true, false, Option, some, List, [], ◌∷◌, ◌++◌,
  append_assoc, append-nil, Bytes, bytes_eq, bytes_eq→eq, bytes_eq_of_ne, if◌then◌else◌, Bool-cases,
  ◌>>=◌,
}
use go_redis.Logger.Files.{
  Os, found, opened, must_open, check_permission, check_not_exist, is_not_exist_mk_dir, file_path,
  Settings, log_filename, FileLogger, new_file_logger, rotate, log_line, log_lines,
}

-- A directory that exists and in which files can be opened.
abbrev pub IsReady : Os → Bytes → Type 0
IsReady os dir = (os.stat dir ≡ found) × ((p : Bytes) → os.open_file p ≡ true)

-- The file that a message of a date is for.
abbrev pub file_for : Settings → Bytes → Bytes
file_for settings date = file_path settings.path (log_filename settings date)

abbrev pub in_files : Settings → List (Bytes × Bytes) → List (Bytes × Bytes)
in_files settings [] = []
in_files settings ((date, msg) ∷ lines) = (file_for settings date, msg) ∷ in_files settings lines

-- The files that differ from the one before.
abbrev pub new_files : Bytes → Settings → List (Bytes × Bytes) → List Bytes
new_files current settings [] = []
new_files current settings ((date, msg) ∷ lines) =
    let file = file_for settings date in
    let others = new_files file settings lines in
    if bytes_eq file current then others else file ∷ others

abbrev pub all_files : Settings → List (Bytes × Bytes) → List Bytes
all_files settings [] = []
all_files settings ((date, msg) ∷ lines) = file_for settings date ∷ all_files settings lines

abbrev pub last_file : Bytes → Settings → List (Bytes × Bytes) → Bytes
last_file current settings [] = current
last_file current settings ((date, msg) ∷ lines) = last_file (file_for settings date) settings lines

abbrev pub state : Bytes → List Bytes → List (Bytes × Bytes) → FileLogger
state file opens lines = record { log_file = file; opens = opens; lines = lines }

if-true : (x y : List Bytes) {b : Bool} → b ≡ true → x ≡ (if b then x else y)
if-true x y e = rw e refl

if-false : (x y : List Bytes) {b : Bool} → b ≡ false → y ≡ (if b then x else y)
if-false x y e = rw e refl

state-append :
    (file f : Bytes) (line : Bytes × Bytes) (opens others : List Bytes)
    (lines more : List (Bytes × Bytes))
    → some (state file ((opens ++ f ∷ []) ++ others) ((lines ++ line ∷ []) ++ more))
      ≡ some (state file (opens ++ f ∷ others) (lines ++ line ∷ more))
state-append file f line opens others lines more =
    ap (λ o. some (state file o ((lines ++ line ∷ []) ++ more)))
      (append_assoc opens (f ∷ []) others)
    ∙ ap (λ r. some (state file (opens ++ f ∷ others) r)) (append_assoc lines (line ∷ []) more)

must_open-opened :
    (os : Os) (name dir : Bytes)
    → IsReady os dir
    → must_open os name dir ≡ opened (file_path dir name)
unfolding must_open check_permission is_not_exist_mk_dir check_not_exist
must_open-opened os name dir (at, opens) = rw (at, opens (file_path dir name)) refl

pub new_file_logger-opened :
    (os : Os) (settings : Settings) (date : Bytes)
    → IsReady os settings.path
    → new_file_logger os settings date
      ≡ some (record {
        log_file = file_for settings date;
        opens = file_for settings date ∷ [];
        lines = [];
      })
unfolding new_file_logger
new_file_logger-opened os settings date ready =
    rw (new_file_logger, must_open-opened os (log_filename settings date) settings.path ready) refl

module _ (join : Bytes → Bytes → Bytes) (os : Os) (settings : Settings)
    (ready : IsReady os settings.path) where
  -- A message for which the test of the names says `same`.
  log_line-test :
      (l : FileLogger) (date msg : Bytes) (same : Bool)
      → bytes_eq (join settings.path (log_filename settings date)) l.log_file ≡ same
      → log_line join os settings l (date, msg)
        ≡ some (
            if same then record l { lines = l.lines ++ (l.log_file, msg) ∷ [] } else record {
              log_file = file_for settings date;
              opens = l.opens ++ file_for settings date ∷ [];
              lines = l.lines ++ (file_for settings date, msg) ∷ [];
            })
  unfolding log_line rotate
  log_line-test l date msg true e = rw e refl
  log_line-test l date msg false e =
      rw (e, must_open-opened os (log_filename settings date) settings.path ready) refl

  abbrev pub Clean : Type 0
  Clean = (n : Bytes) → join settings.path n ≡ file_path settings.path n

  abbrev pub After : FileLogger → List (Bytes × Bytes) → Type 0
  After l lines =
      log_lines join os settings l lines
      ≡ some (
          state (last_file l.log_file settings lines)
            (l.opens ++ new_files l.log_file settings lines) (l.lines ++ in_files settings lines))

  -- A message for the file that is open.
  log_lines-same :
      Clean
      → (l : FileLogger) (date msg : Bytes) (lines : List (Bytes × Bytes))
      → bytes_eq (file_for settings date) l.log_file ≡ true
      → After (record l { lines = l.lines ++ (l.log_file, msg) ∷ [] }) lines
      → After l ((date, msg) ∷ lines)
  unfolding log_lines
  log_lines-same clean l date msg lines e after =
      let file = file_for settings date in
      let is : l.log_file ≡ file = sym (bytes_eq→eq file l.log_file e) in
      let named : bytes_eq (join settings.path (log_filename settings date)) l.log_file ≡ true =
        ap (λ n. bytes_eq n l.log_file) (clean _) ∙ e in
      ap (λ (o : Option FileLogger). o >>= (λ k. log_lines join os settings k lines))
        (log_line-test l date msg true named)
      ∙ (after
          ∙ (ap
                (λ f. some (
                  state (last_file f settings lines) (l.opens ++ new_files f settings lines)
                    ((l.lines ++ (f, msg) ∷ []) ++ in_files settings lines)))
                is
              ∙ (ap
                    (λ r. some (
                      state (last_file file settings lines)
                        (l.opens ++ new_files file settings lines) r))
                    (append_assoc l.lines ((file, msg) ∷ []) (in_files settings lines))
                  ∙ ap
                      (λ n. some (
                        state (last_file file settings lines) (l.opens ++ n)
                          (l.lines ++ (file, msg) ∷ in_files settings lines)))
                      (if-true (new_files file settings lines) _ e))))

  log_lines-other :
      Clean
      → (l : FileLogger) (date msg : Bytes) (lines : List (Bytes × Bytes))
      → bytes_eq (file_for settings date) l.log_file ≡ false
      → After
          (state
            (file_for settings date)
            (l.opens ++ file_for settings date ∷ [])
            (l.lines ++ (file_for settings date, msg) ∷ []))
          lines
      → After l ((date, msg) ∷ lines)
  unfolding log_lines
  log_lines-other clean l date msg lines e after =
      let file = file_for settings date in
      let named : bytes_eq (join settings.path (log_filename settings date)) l.log_file ≡ false =
        ap (λ n. bytes_eq n l.log_file) (clean _) ∙ e in
      ap (λ (o : Option FileLogger). o >>= (λ k. log_lines join os settings k lines))
        (log_line-test l date msg false named)
      ∙ (after
          ∙ (state-append _ file (file, msg) l.opens _ l.lines _
              ∙ ap
                  (λ n. some (
                    state (last_file file settings lines) (l.opens ++ n)
                      (l.lines ++ (file, msg) ∷ in_files settings lines)))
                  (if-false _ (file ∷ new_files file settings lines) e)))

  -- With `path` clean, a file is opened only when the date asks for another one.
  pub log_lines-clean : Clean → (lines : List (Bytes × Bytes)) (l : FileLogger) → After l lines
  unfolding log_lines
  log_lines-clean clean [] l = ap some (
      ap (λ o. state l.log_file o l.lines) (sym (append-nil l.opens))
      ∙ ap (λ r. state l.log_file (l.opens ++ []) r) (sym (append-nil l.lines)))
  log_lines-clean clean ((date, msg) ∷ lines) l =
      elim (Bool-cases (bytes_eq (file_for settings date) l.log_file)) [
        | inl e ↦ log_lines-same clean l date msg lines e (log_lines-clean clean lines _)
        | inr e ↦ log_lines-other clean l date msg lines e (log_lines-clean clean lines _)
      ]

  pub log_lines-unclean :
      ((n m : Bytes) → join settings.path n ≢ file_path settings.path m)
      → (l : FileLogger) (m : Bytes) (lines : List (Bytes × Bytes))
      → l.log_file ≡ file_path settings.path m
      → log_lines join os settings l lines
        ≡ some (record {
          log_file = last_file l.log_file settings lines;
          opens = l.opens ++ all_files settings lines;
          lines = l.lines ++ in_files settings lines;
        })
  unfolding log_lines
  log_lines-unclean unclean l m [] at = ap some (
      ap (λ o. state l.log_file o l.lines) (sym (append-nil l.opens))
      ∙ ap (λ r. state l.log_file (l.opens ++ []) r) (sym (append-nil l.lines)))
  log_lines-unclean unclean l m ((date, msg) ∷ lines) at =
      let file = file_for settings date in
      let next : FileLogger = record {
        log_file = file;
        opens = l.opens ++ file ∷ [];
        lines = l.lines ++ (file, msg) ∷ [];
      } in
      let differs : bytes_eq (join settings.path (log_filename settings date)) l.log_file ≡ false =
        bytes_eq_of_ne _ _ (λ e. unclean _ m (e ∙ at)) in
      ap (λ (o : Option FileLogger). o >>= (λ k. log_lines join os settings k lines))
        (log_line-test l date msg false differs)
      ∙ (log_lines-unclean unclean next (log_filename settings date) lines refl
          ∙ state-append _ file (file, msg) l.opens _ l.lines _)
