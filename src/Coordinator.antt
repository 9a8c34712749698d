-- ===== src/Coordinator.antt =====
-- custom_components/ttlock_ble/coordinator.py: the state of every lock as the integration publishes it, the
-- order of the observations behind it, and the tasks that the coordinator starts. Tasks are known by their
-- lock; what Home Assistant's own coordinator does is counted in `refreshes` and `notified`.
pub mod State
pub mod Steps
pub mod Register
pub mod Order
pub mod Newest
pub mod Known
pub mod Tasks
