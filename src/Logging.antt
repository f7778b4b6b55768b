-- ===== src/Logging.antt =====
-- `New` of internal/infra/logging/logging.go: the handler and the level that it sets up.
use preoomkiller_controller.Common.{◌≡◌, refl, String, if◌then◌else◌}
use text.Mathlib.Text.{◌==◌ as str_eq}

-- `slog.Level`; info is its zero value.
pub data Level : Type 0 where
  debug info warn error : Level

pub data Handler : Type 0 where
  json_handler text_handler : Handler

pub record Logger : Type 0 where
  pub handler : Handler
  pub level : Level

-- The first `switch`. Its case "info" sets nothing, and so leaves the zero value.
abbrev pub level_of : String → Level
level_of text =
    if str_eq text "debug"
    then debug
    else if str_eq text "warn"
    then warn
    else if str_eq text "error"
    then error
    else info

-- The second `switch`.
abbrev pub handler_of : String → Handler
handler_of format =
    if str_eq format "json"
    then json_handler
    else if str_eq format "text"
    then text_handler
    else json_handler

abbrev pub new_logger : String → String → Logger
new_logger format level = record { handler = handler_of format; level = level_of level }

-- Runs of the code: the defaults of the settings, and a level that is not known.
default_logger : new_logger "json" "info" ≡ record { handler = json_handler; level = info }
default_logger = refl

unknown_level : new_logger "text" "trace" ≡ record { handler = text_handler; level = info }
unknown_level = refl
