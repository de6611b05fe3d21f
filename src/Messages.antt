-- ===== src/Messages.antt =====
-- src/common/messages.h and src/common/systeminfo.h: the structures that client and server
-- exchange, and the validity test of a task.
mod Defs
pub mod Validity
unfoldable pub use Defs.*
