-- ===== src/Users/Create.antt =====
-- apps/users/serializers.py, `UserUpsertSerializer` and `UserInviteSerializer` where they create a user.
mod Defs
mod Refs
mod Save
pub mod Caller
pub mod Kept
mod Found
mod Ready
mod Tests
unfoldable pub use Defs.*
unfoldable pub use Refs.*
unfoldable pub use Save.*
