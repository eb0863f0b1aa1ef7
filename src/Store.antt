-- ===== src/Store.antt =====
-- internal/store: the SQL store. A table is a list of rows and a statement is a function of the
-- tables. A failing statement is an error value, and the transaction that it stands in changes
-- nothing; errors of the connection itself are not modelled.
pub mod Social
pub mod Visibility
pub mod Stories
pub mod Logins
pub mod Interact
pub mod Feed
pub mod Accounts
pub mod Replays
pub mod Reports
pub mod Purges
