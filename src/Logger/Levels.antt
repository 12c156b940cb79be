-- ===== src/Logger/Levels.antt =====
-- The twelve public functions of backend/TCP/include/Logger.hpp that log, one for each level, with the
-- line and the file and without.
use full_stack_shinfeld.Common.{ℕ, ◌≡◌, refl, List}
use full_stack_shinfeld.Logger.{LogLevel, Formatting, Logger, log_src, log_plain}

module _ {A : Type 0} (F : Formatting A) where
  unfoldable pub log_trace_src : ℕ → Logger → ℕ → List ℕ → List ℕ → List A → Logger
  log_trace_src now logger line source_file msg args =
      log_src F now logger line source_file LogLevel.trace msg args

  unfoldable pub log_debug_src : ℕ → Logger → ℕ → List ℕ → List ℕ → List A → Logger
  log_debug_src now logger line source_file msg args =
      log_src F now logger line source_file LogLevel.debug msg args

  unfoldable pub log_info_src : ℕ → Logger → ℕ → List ℕ → List ℕ → List A → Logger
  log_info_src now logger line source_file msg args =
      log_src F now logger line source_file LogLevel.info msg args

  unfoldable pub log_warning_src : ℕ → Logger → ℕ → List ℕ → List ℕ → List A → Logger
  log_warning_src now logger line source_file msg args =
      log_src F now logger line source_file LogLevel.warning msg args

  unfoldable pub log_error_src : ℕ → Logger → ℕ → List ℕ → List ℕ → List A → Logger
  log_error_src now logger line source_file msg args =
      log_src F now logger line source_file LogLevel.error msg args

  unfoldable pub log_critical_src : ℕ → Logger → ℕ → List ℕ → List ℕ → List A → Logger
  log_critical_src now logger line source_file msg args =
      log_src F now logger line source_file LogLevel.critical msg args

  unfoldable pub log_trace : ℕ → Logger → List ℕ → List A → Logger
  log_trace now logger msg args = log_plain F now logger LogLevel.trace msg args

  unfoldable pub log_debug : ℕ → Logger → List ℕ → List A → Logger
  log_debug now logger msg args = log_plain F now logger LogLevel.debug msg args

  unfoldable pub log_info : ℕ → Logger → List ℕ → List A → Logger
  log_info now logger msg args = log_plain F now logger LogLevel.info msg args

  unfoldable pub log_warning : ℕ → Logger → List ℕ → List A → Logger
  log_warning now logger msg args = log_plain F now logger LogLevel.warning msg args

  unfoldable pub log_error : ℕ → Logger → List ℕ → List A → Logger
  log_error now logger msg args = log_plain F now logger LogLevel.error msg args

  unfoldable pub log_critical : ℕ → Logger → List ℕ → List A → Logger
  log_critical now logger msg args = log_plain F now logger LogLevel.critical msg args

  -- The function of a level.
  unfoldable pub log_by_src : LogLevel → ℕ → Logger → ℕ → List ℕ → List ℕ → List A → Logger
  log_by_src LogLevel.trace = log_trace_src
  log_by_src LogLevel.debug = log_debug_src
  log_by_src LogLevel.info = log_info_src
  log_by_src LogLevel.warning = log_warning_src
  log_by_src LogLevel.error = log_error_src
  log_by_src LogLevel.critical = log_critical_src

  unfoldable pub log_by : LogLevel → ℕ → Logger → List ℕ → List A → Logger
  log_by LogLevel.trace = log_trace
  log_by LogLevel.debug = log_debug
  log_by LogLevel.info = log_info
  log_by LogLevel.warning = log_warning
  log_by LogLevel.error = log_error
  log_by LogLevel.critical = log_critical

  pub log_by_src_lem :
      (level : LogLevel) (now : ℕ) (logger : Logger) (line : ℕ) (file msg : List ℕ) (args : List A)
      → log_by_src level now logger line file msg args
        ≡ log_src F now logger line file level msg args
  unfolding log_by_src log_trace_src log_debug_src log_info_src log_warning_src log_error_src
      log_critical_src
  log_by_src_lem LogLevel.trace now logger line file msg args = refl
  log_by_src_lem LogLevel.debug now logger line file msg args = refl
  log_by_src_lem LogLevel.info now logger line file msg args = refl
  log_by_src_lem LogLevel.warning now logger line file msg args = refl
  log_by_src_lem LogLevel.error now logger line file msg args = refl
  log_by_src_lem LogLevel.critical now logger line file msg args = refl

  pub log_by_lem :
      (level : LogLevel) (now : ℕ) (logger : Logger) (msg : List ℕ) (args : List A)
      → log_by level now logger msg args ≡ log_plain F now logger level msg args
  unfolding log_by log_trace log_debug log_info log_warning log_error log_critical
  log_by_lem LogLevel.trace now logger msg args = refl
  log_by_lem LogLevel.debug now logger msg args = refl
  log_by_lem LogLevel.info now logger msg args = refl
  log_by_lem LogLevel.warning now logger msg args = refl
  log_by_lem LogLevel.error now logger msg args = refl
  log_by_lem LogLevel.critical now logger msg args = refl
