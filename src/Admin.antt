-- ===== src/Admin.antt =====
-- app/admin/routes.py: the forms that change the vault, and who may send them.
pub mod Definitions
pub mod Settings
pub mod Access
pub mod Routes
mod Tests
