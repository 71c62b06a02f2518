-- ===== src/Contacts.antt =====
-- apps/contacts/services.py: which saved contact a raw phone number belongs to.
mod Lookup
pub mod Matches
mod Tests
unfoldable pub use Lookup.*
