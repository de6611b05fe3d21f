-- ===== src/Logger.antt =====
-- src/common/logger.{h,cpp}: the global logger, of which the model keeps whether it is set. A macro
-- LOG_* is a call of `get`, and then a call of spdlog that returns.
use Prim.Native.String.{◌++◌ as str_append}
use distributed_integration.Base.{
  String, Bool, true, false, not, Option, none, some, Outcome, ok, throw, runtime_error, throw_if,
}

pub record Logger : Type 0 where
  pub is_set : Bool  -- `g_logger` is not null

-- `logging::init`; what fails in the file system or in spdlog is the text of the exception.
unfoldable pub init : Option String → Outcome Logger
init none = ok (record { is_set = true })
init (some why) = throw (runtime_error (str_append "Failed to initialize logger: " why))

-- `logging::get`
unfoldable pub get : Logger → Outcome (Unit {0})
get g =
    throw_if (not g.is_set) (runtime_error "Logger not initialized. Call logging::init() first.")

-- `logging::shutdown`
unfoldable pub shutdown : Logger → Logger
shutdown g = record g { is_set = false }
