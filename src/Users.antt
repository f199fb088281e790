-- ===== src/Users.antt =====
-- app/services/user_service.py and app/schemas/user.py: accounts, and the two shapes of a name that
-- live side by side while `full_name` is split into `first_name` and `last_name`.
pub mod Names
pub mod RoundTrip
pub mod Accounts
pub mod Registration
pub mod Modes
pub mod Pages
pub mod Changes
