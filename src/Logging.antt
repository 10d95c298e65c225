-- ===== src/Logging.antt =====
-- source/utils/logger.c, as a build with DEBUG has it: which logs are opened and closed.
pub mod Balance
use function_patcher_module.Base.{ℕ, ◌==◌, ◌!=◌, if◌then◌else◌}

-- The three logs of the library whb.
pub data Log : Type 0 where
  module_log cafe_log udp_log : Log

-- WHBLogModuleInit, WHBLogCafeInit and WHBLogUdpInit with their results, 0 for a failure, and
-- WHBLogModuleDeinit, WHBLogCafeDeinit and WHBLogUdpDeinit, on the console's state `W`.
pub record LogService (W : Type 0) : Type 0 where
  pub init : Log → W → ℕ × W
  pub deinit : Log → W → W

-- `moduleLogInit`, `cafeLogInit` and `udpLogInit`.
pub record LogFlags : Type 0 where
  pub module_log_init : ℕ
  pub cafe_log_init : ℕ
  pub udp_log_init : ℕ

-- The flags before the first call.
abbrev pub initial_flags : LogFlags
initial_flags = record { module_log_init = 0; cafe_log_init = 0; udp_log_init = 0 }

abbrev pub flag_of : LogFlags → Log → ℕ
flag_of f Log.module_log = f.module_log_init
flag_of f Log.cafe_log = f.cafe_log_init
flag_of f Log.udp_log = f.udp_log_init

abbrev pub clear_flag : LogFlags → Log → LogFlags
clear_flag f Log.module_log = record f { module_log_init = 0 }
clear_flag f Log.cafe_log = record f { cafe_log_init = 0 }
clear_flag f Log.udp_log = record f { udp_log_init = 0 }

module _ {W : Type 0} (logs : LogService W) where
  unfoldable pub init_logging : LogFlags → W → LogFlags × W
  init_logging f w =
      let (opened, w') = logs.init Log.module_log w in
      let f' = record f { module_log_init = opened } in
      let (cafe, w'') = logs.init Log.cafe_log w' in
      let (udp, w''') = logs.init Log.udp_log w'' in
      if opened == 0
      then (record f' { cafe_log_init = cafe; udp_log_init = udp }, w''')
      else (f', w')

  -- One of the three tests of `deinitLogging`.
  unfoldable pub deinit_if : Log → LogFlags × W → LogFlags × W
  deinit_if l (f, w) = if flag_of f l != 0 then (clear_flag f l, logs.deinit l w) else (f, w)

  unfoldable pub deinit_logging : LogFlags → W → LogFlags × W
  unfolding deinit_if
  deinit_logging f w =
      deinit_if Log.udp_log (deinit_if Log.cafe_log (deinit_if Log.module_log (f, w)))

  -- `WUMS_APPLICATION_REQUESTS_EXIT` of source/main.cpp.
  abbrev application_requests_exit : LogFlags → W → LogFlags × W
  application_requests_exit = deinit_logging
