-- ===== src/Users.antt =====
-- UserManager: the caches of users and of their assets in front of the database. The methods are
-- steps on the manager and the database server together.
pub mod Types
pub mod Statements
pub mod Account
pub mod Assets
pub mod Loading
pub mod Loaded
pub mod Titles
pub mod Numbers
pub mod Selection
pub mod Collect
mod Tests
