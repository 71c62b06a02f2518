-- ===== src/Users/Assign.antt =====
-- apps/users/views.py: the extension, the DIDs and the boxes of a user.
mod Tables
mod Views
pub mod Sound
pub mod Given
pub mod Rows
pub mod Served
mod Tests
unfoldable pub use Tables.*
unfoldable pub use Views.*
