-- ===== src/Gui.antt =====
-- crates/gui: the application of the window and the tray, and its connection to the daemon.
pub mod Model
pub mod Events
pub mod App
pub mod Shell
