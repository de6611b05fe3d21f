-- ===== src/Methods.antt =====
-- src/client/integration_methods: the strategy interface, the trapezoidal rule and Simpson's rule.
mod Interface
pub mod Trapezoidal
pub mod Simpson
unfoldable pub use Interface.*
