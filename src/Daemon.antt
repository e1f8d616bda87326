-- ===== src/Daemon.antt =====
-- crates/daemon: the scheduler of folders and the daemon's main loop.
pub mod Scheduler
pub mod MainLoop
pub mod Ipc
pub mod Config
pub mod SpacePoller
pub mod Handler
pub mod SignIn
