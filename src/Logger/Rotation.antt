-- ===== src/Logger/Rotation.antt =====
-- lib/logger/logger.go: the file each message goes to.
use go_redis.Base.{◌≡◌, refl, ap, ◌∙◌, ◌≢◌, Option, some, List, ◌∷◌, Bytes, ◌>>=◌}
use go_redis.Logger.Files.{
  Os, file_path, Settings, log_filename, FileLogger, new_file_logger, log_lines,
}
use go_redis.Logger.Lines.{
  IsReady, file_for, in_files, new_files, all_files, last_file, new_file_logger-opened,
  log_lines-clean, log_lines-unclean,
}

pub log_lines-new_files :
    (join : Bytes → Bytes → Bytes) (os : Os) (settings : Settings) (date : Bytes)
    (lines : List (Bytes × Bytes))
    → IsReady os settings.path
    → ((n : Bytes) → join settings.path n ≡ file_path settings.path n)
    → (new_file_logger os settings date >>= (λ l. log_lines join os settings l lines))
      ≡ some (record {
        log_file = last_file (file_for settings date) settings lines;
        opens = file_for settings date ∷ new_files (file_for settings date) settings lines;
        lines = in_files settings lines;
      })
log_lines-new_files join os settings date lines ready clean =
    ap (λ (o : Option FileLogger). o >>= (λ l. log_lines join os settings l lines))
      (new_file_logger-opened os settings date ready)
    ∙ log_lines-clean join os settings ready clean lines _

-- If the directory is there and its files can be opened, but path.Join changes its paths, then a
-- file is opened again for every message, and each message still goes to the file named for its date.
pub log_lines-all_files :
    (join : Bytes → Bytes → Bytes) (os : Os) (settings : Settings) (date : Bytes)
    (lines : List (Bytes × Bytes))
    → IsReady os settings.path
    → ((n m : Bytes) → join settings.path n ≢ file_path settings.path m)
    → (new_file_logger os settings date >>= (λ l. log_lines join os settings l lines))
      ≡ some (record {
        log_file = last_file (file_for settings date) settings lines;
        opens = file_for settings date ∷ all_files settings lines;
        lines = in_files settings lines;
      })
log_lines-all_files join os settings date lines ready unclean =
    ap (λ (o : Option FileLogger). o >>= (λ l. log_lines join os settings l lines))
      (new_file_logger-opened os settings date ready)
    ∙ log_lines-unclean join os settings ready unclean _ (log_filename settings date) lines refl
