-- ===== src/Tests/Logging.antt =====
-- Concrete inputs for the logger.
use go_redis.Base.{◌≡◌, refl, true, some, [], ◌∷◌, ◌++◌, arith, codes, bytes_eq, ◌>>=◌}
use go_redis.Logger.{
  info, error, LogEntry, filled, sent, idle, Logger, new_logger, get_new, fill_entry, send_entry,
  receive_entry, write_entry, put_entry, get_fresh, fill, send, receive, write, put, Reach, start,
  step,
}
use go_redis.Logger.Owner.{pending}
use go_redis.Logger.Order.{Flushes, Reach-written}
use go_redis.Logger.Files.{Os, found, Settings, new_file_logger, log_lines, file_path, log_filename}
use go_redis.Logger.Lines.{file_for}
use go_redis.Logger.Rotation.{log_lines-new_files}

abbrev first_entry : LogEntry
first_entry = record { msg = codes "[INFO] one"; level = info }

abbrev second_entry : LogEntry
second_entry = record { msg = codes "[ERROR] two"; level = error }

-- Two calls have the two entries, and the second has sent; the first will.
abbrev busy : Logger
busy = record {
  heap = first_entry ∷ second_entry ∷ [];
  entry_pool = [];
  entry_chan = 1 ∷ [];
  worker = idle;
  callers = filled 0 first_entry ∷ sent ∷ [];
  written = [];
  accepted = codes "[ERROR] two" ∷ [];
}

busy_run : Reach (new_logger (first_entry ∷ second_entry ∷ [])) busy
unfolding get_new fill_entry send_entry
busy_run =
    step
      (step
        (step (step (step start (get_fresh 0 first_entry refl)) (get_fresh 1 second_entry refl))
          (fill 1 1 second_entry refl))
        (fill 0 0 first_entry refl))
      (send 1 1 second_entry refl (omega arith))

-- The entry is written, put back, and given to nobody yet.
abbrev reused : Logger
reused = record {
  heap = first_entry ∷ second_entry ∷ [];
  entry_pool = 1 ∷ [];
  entry_chan = 0 ∷ [];
  worker = idle;
  callers = sent ∷ sent ∷ [];
  written = codes "[ERROR] two" ∷ [];
  accepted = codes "[ERROR] two" ∷ codes "[INFO] one" ∷ [];
}

reused_run : Reach (new_logger (first_entry ∷ second_entry ∷ [])) reused
unfolding send_entry receive_entry write_entry put_entry
reused_run =
    step
      (step (step (step busy_run (receive 1 [] refl refl)) (write 1 second_entry refl refl))
        (put 1 refl))
      (send 0 0 first_entry refl (omega arith))

Reach-written_example :
    (reused.accepted ≡ reused.written ++ pending reused)
    × ((t : Logger) × Flushes reused t × (t.entry_chan ≡ []) × (t.written ≡ reused.accepted))
Reach-written_example = Reach-written (first_entry ∷ second_entry ∷ []) reused_run

abbrev settings : Settings
settings = record { path = codes "logs"; name = codes "godis"; ext = codes "log" }

abbrev os : Os
os = record { stat = λ p. found; mkdir_all = λ p. true; open_file = λ p. true }

log_lines-new_files_example :
    let day = codes "2025-01-01" in
    let next_day = codes "2025-01-02" in
    (new_file_logger os settings day >>= (λ l.
      log_lines file_path os settings l
        ((day, codes "a") ∷ (day, codes "b") ∷ (next_day, codes "c") ∷ [])))
    ≡ some (record {
      log_file = file_for settings next_day;
      opens = file_for settings day ∷ file_for settings next_day ∷ [];
      lines =
          (file_for settings day, codes "a")
          ∷ (file_for settings day, codes "b")
          ∷ (file_for settings next_day, codes "c")
          ∷ [];
    })
unfolding bytes_eq log_filename
log_lines-new_files_example =
    log_lines-new_files file_path os settings (codes "2025-01-01")
      ((codes "2025-01-01", codes "a")
        ∷ (codes "2025-01-01", codes "b")
        ∷ (codes "2025-01-02", codes "c")
        ∷ [])
      (refl, λ p. refl) (λ n. refl)
