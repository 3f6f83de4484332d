-- ===== src/Gateway.antt =====
-- The services that change invoices and payments together: the requests of merchants, the wallet's
-- transfers, reorganisations and the expirer, as steps on the database.
pub mod Rows
pub mod Cancel
pub mod Create
pub mod Uncharged
pub mod Unlooped
pub mod Unsubscribe
pub mod Billing
pub mod Sweep
pub mod Detect
pub mod Reach
