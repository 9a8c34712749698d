-- ===== src/AccessRecords.antt =====
-- custom_components/ttlock_ble/access_records.py: the private names of credentials, kept by lock and method.
-- The HMAC of credential_references.py is `token`, which is none where it raises; `secrets.token_hex` gives
-- texts by the number of those drawn. Times are seconds of the monotonic clock.
pub mod State
pub mod Reconcile
pub mod Names
pub mod Editing
pub mod Forgetting
pub mod Naming
pub mod Showing
pub mod Retention
pub mod Keeping
pub mod Freshness
pub mod Loading
