-- ===== src/Tests/Logs.antt =====
-- Logs on a console without the logging module.
use function_patcher_module.Base.{ℕ, Bool, true, false, if◌then◌else◌, ◌≡◌, ◌!=◌, refl}
use function_patcher_module.Logging.{Log, LogService, initial_flags, init_logging, deinit_logging}
use function_patcher_module.Logging.Balance.{
  same_log, IsLogService, IsFlagged, deinit_logging-init_logging,
}

abbrev answers : Log → ℕ
answers Log.module_log = 0
answers Log.cafe_log = 1
answers Log.udp_log = 1

abbrev succeeds : Log → Bool
succeeds Log.module_log = false
succeeds _ = true

abbrev set : Log → Bool → (Log → Bool) → Log → Bool
set l b w k = if same_log l k then b else w k

abbrev logs : LogService (Log → Bool)
logs = record { init = λ l w. (answers l, set l (succeeds l) w); deinit = λ l w. set l false w }

abbrev is_open : (Log → Bool) → Log → Bool
is_open w l = w l

opens :
    (l k : Log) (w : Log → Bool)
    → set l (succeeds l) w k ≡ (if same_log l k then answers l != 0 else w k)
opens Log.module_log k w = refl
opens Log.cafe_log k w = refl
opens Log.udp_log k w = refl

logs-IsLogService : IsLogService logs is_open
logs-IsLogService = record { opened = λ l k w h. opens l k w; closed = λ l k w h. refl }

abbrev shut : Log → Bool
shut l = false

deinit_logging-init_logging_example :
    IsFlagged is_open
      (init_logging logs initial_flags shut).0
      (init_logging logs initial_flags shut).1
    × ((deinit_logging logs
          (init_logging logs initial_flags shut).0
          (init_logging logs initial_flags shut).1).0
        ≡ initial_flags)
    × ((l : Log)
        → is_open
            (deinit_logging logs
              (init_logging logs initial_flags shut).0
              (init_logging logs initial_flags shut).1).1
            l
          ≡ false)
deinit_logging-init_logging_example =
    deinit_logging-init_logging logs is_open logs-IsLogService shut (λ l. refl)
