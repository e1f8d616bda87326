-- ===== src/Lib.antt =====
-- ownCloud sync client: a model of the sync engine, its journal, the daemon, the window, and the socket
-- API of the file managers' plug-ins.
--
-- The daemon (crates/daemon) decides when a folder is synced; a sync is one call of `run_sync` of the
-- engine (crates/sync-engine), which compares the local tree, the server and the journal
-- (crates/sync-db), carries out one instruction for each path, and leaves rows in the journal and
-- statuses in a `SyncState`. The socket API (crates/socket-api) shows those statuses. The window
-- (crates/gui) is a process of its own: it sends commands to the daemon and follows its events.
--
-- Common: the shared helpers: equality tests, results, lists, maps, texts and machine integers.
-- SyncDb: crates/sync-db/src/db.rs and models.rs. A table is a map by its primary key. A call takes
--   SQLite's answer to its statement; a failing statement changes nothing. A row in place of an
--   inserted one is set column by column.
-- SyncEngine.Types, State, Urls: types.rs, error.rs, report.rs, state.rs and `join_remote_path` of
--   lib.rs, all of crates/sync-engine/src.
-- SyncEngine.Reconcile: reconcile.rs.
-- SyncEngine.Host: the code outside the repository that the engine calls (reqwest, tokio::fs, url,
--   camino, the clocks, SQLite's answers), as a record of operations on a state of the outside.
--   Host.Memory is a concrete one, for the examples.
-- SyncEngine.Propagate: propagate/ops.rs, download.rs and upload.rs. A function of the engine that may
--   fail is a function from the outside to a result and the outside after it, with the HTTP events.
-- SyncEngine.Engine: engine.rs. Context holds the state of a sync; Plan is phase 2 of `run_sync`, Dirs
--   phase 3a, Files phase 3b, and Run puts the phases together.
-- SyncEngine.Discovery: discovery/remote.rs and local.rs. Propfind reads one answer of the server, event
--   by event; Remote is the search over the collections, on fuel; Local is the walk over a folder, whose
--   answers are a tree.
-- Daemon.Ipc: crates/daemon/src/gui_ipc/protocol.rs, the messages and (Frames) their bytes on the socket.
-- Daemon.Config, SpacePoller, Handler: config.rs, space_poller.rs, and `handle_command` of
--   gui_ipc/handler.rs, with `AddAccount` in Handler.Login. What the rest of the daemon does to the configuration between
--   two looks at it is a function that is left open.
-- Daemon.SignIn: oidc_callback.rs, from the browser's request to the new account; the time limit can pass at
--   each of its waits.
-- OcisClient.Tokens: crates/ocis-client/src/auth/token_manager.rs and the token sets of oidc.rs. A step of a
--   caller is what it does between two waits, and a run is any order of such steps.
-- OcisClient.WebFinger: crates/ocis-client/src/webfinger.rs, over a parameter for URLs and JSON.
-- Gui.Model, Events, App, Shell: crates/gui/src/model.rs and the state of app.rs; `handle_daemon_event`
--   and `update` of app.rs; `IcedApp` of main.rs, with the attempts to connect that are under way. A task
--   for the windowing library is a value.
-- Daemon.Scheduler: crates/daemon/src/scheduler.rs.
-- Daemon.MainLoop: the loop of crates/daemon/src/main.rs, with the commands of gui_ipc/handler.rs
--   that reach the scheduler, as a function from inputs; a run is a list of inputs in any order.
-- SocketApi.Protocol, StatusResolver, Server: protocol.rs, status_resolver.rs, and server.rs with
--   commands/ of crates/socket-api/src.
--
-- Loops over a list are recursion on that list. Two loops are on fuel: `show_number` counts down from the
-- number itself, which has at most as many digits; and `discover_remote` takes a round for each collection,
-- where the fuel that is enough is bounded by the number of collections that the server names.
--
-- Numbers are natural numbers; sizes wrap where the code casts between u64 and i64 (`as_i64`,
-- `as_u64`). A path is its text. A map is an association list; where the code reads a map in no fixed
-- order, the order is a parameter or the result does not depend on it.
--
-- Not modelled: the interleaving of the four concurrent transfers of a sync (each task runs to its end
-- before the next one, in an order that is a parameter), a task that panics, the call of discovery by
-- `run_sync` (an interface there), log messages, the connection pool and the migrations of SQLite, the
-- sockets, the start of the daemon, the HTTP clients of crates/ocis-client, the views and the tray of
-- the GUI, and the virtual file systems of the platforms.
pub mod Common
pub mod SyncDb
pub mod SyncEngine
pub mod OcisClient
pub mod Daemon
pub mod SocketApi
pub mod Gui
