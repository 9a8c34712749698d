-- ===== src/Examples.antt =====
-- Concrete sessions and journals at which the properties are applied.
mod Session
mod Sessions
mod Journals
mod Entities
mod Records
mod Entries
mod Forms
mod Requests
