-- ===== src/Users.antt =====
-- apps/users: accounts, their validation and the ways to log in.
pub mod QrLogin
pub mod Validators
pub mod Features
pub mod Assign
pub mod Create
pub mod Login
