-- ===== src/Remote.antt =====
-- app/remote: what is run on a server, and how.
pub mod Adapter
pub mod Client
pub mod Command
pub mod Connection
pub mod Direct
pub mod Drain
mod Tests
