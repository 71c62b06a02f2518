-- ===== src/Models.antt =====
-- The tables that several components read, as records (apps/tenants/models.py, apps/users/models.py,
-- apps/extensions/models.py, apps/dids/models.py). A foreign key is the number of the row.
mod Identity
mod Dids
unfoldable pub use Identity.*
unfoldable pub use Dids.*
