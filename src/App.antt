-- ===== src/App.antt =====
-- crates/app/src: the state behind the window, the callbacks and the watcher of the file.
pub mod TriggerForm
pub mod FormRoundTrip
pub mod State
pub mod MacroList
pub mod Constraints
pub mod Steps
pub mod Triggers
pub mod Callback
pub mod Watcher
pub mod Find
pub mod Engine
pub mod Held
pub mod Sync
pub mod Reload
pub mod Start
pub mod Approval
pub mod Panic
