-- ===== src/Monitoring.antt =====
-- src/invoice_hub/monitoring/state.py: the progress of a synchronization, the changes of the watched
-- folder, and the lock of the monitor; and polling_observer.py.
pub mod Progress
pub mod Changes
pub mod Detected
pub mod Unchanged
pub mod Lock
pub mod Race
pub mod Exclusive
pub mod Polling
pub mod Reported
mod Tests
