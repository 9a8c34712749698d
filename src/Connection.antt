-- ===== src/Connection.antt =====
-- custom_components/ttlock_ble/connection.py: the BLE session with one lock.
pub mod State
pub mod Candidate
pub mod Cleanup
pub mod Ownership
pub mod Teardown
pub mod Certain
pub mod Torn
pub mod Acquire
pub mod Connecting
pub mod Acquiring
pub mod Rounds
pub mod Frame
pub mod Signals
pub mod Wire
pub mod Command
pub mod Requests
pub mod Inventory
