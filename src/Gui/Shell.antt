-- ===== src/Gui/Shell.antt =====
-- crates/gui/src/main.rs, `IcedApp`: the connection to the daemon around `update`, and the attempts to
-- connect that are under way.
pub mod Laws
pub mod Runs
mod Tests
use owncloud_sync_client.Common.{
  ◌≢◌, ℕ, zero, suc, ◌+◌, Bool, true, false, Option, none, some, List, [], ◌∷◌, if◌then◌else◌,
}
use owncloud_sync_client.Gui.Model.{
  View, Language, DaemonConnection, App, default_app, Message, Task, sync_tray,
}
use owncloud_sync_client.Gui.App.{Platform, update}

-- `IcedApp::init`: the app with the tray, if there is one, and the first attempt.
abbrev pub init : Bool → Language → App × Task
init tray language = (
  record default_app {
    tray = if tray then some false else none;
    language = language;
    daemon_connecting = true;
  },
  Task.spawn_and_connect 0,
)

-- The guard of both paths to a new attempt.
abbrev pub attempt : ℕ → Bool → App → App × Task
attempt backoff true app = (app, Task.nothing)
attempt backoff false app =
    (record app { daemon_connecting = true }, Task.spawn_and_connect backoff)

abbrev on_connected : Option DaemonConnection → App → App × Task
on_connected (some connection) app = (
  sync_tray (record app { daemon = connection; daemon_running = true }),
  Task.take_events (Message.navigate_to View.sync_status),
)
on_connected none app = (sync_tray (record app { daemon_running = false }), Task.nothing)

abbrev on_disconnected : App → App × Task
on_disconnected app =
    let stopped = sync_tray (record app { daemon_running = false }) in
    attempt 2000 stopped.daemon_connecting stopped

module _ (P : Platform) where
  -- `IcedApp::update`
  unfoldable pub shell_update : Message → App → App × Task
  unfolding update sync_tray
  shell_update (Message.daemon_connected connection) app =
      on_connected connection (record app { daemon_connecting = false })
  shell_update Message.daemon_disconnected app = on_disconnected app
  shell_update Message.start_daemon app = attempt 0 app.daemon_connecting app
  shell_update m app = update P m app

  -- The number of attempts, with the one that a task starts.
  abbrev pub add_attempt : Task → ℕ → ℕ
  add_attempt (Task.spawn_and_connect backoff) n = suc n
  add_attempt task n = n

  -- The app, and how many attempts to connect are under way.
  pub record System : Type 0 where
    pub app : App
    pub in_flight : ℕ

  abbrev pub after : App × Task → ℕ → System
  after (app, task) in_flight = record { app = app; in_flight = add_attempt task in_flight }

  abbrev pub booted : Bool → Language → System
  booted tray language = after (init tray language) 0

  -- What happens to the window: a message that is not the end of an attempt, or the end of one of the
  -- attempts that are under way.
  pub data Step : System → System → Type 0 where
    resolved :
        (app : App) (in_flight : ℕ) (connection : Option DaemonConnection)
        → Step
            (record { app = app; in_flight = suc in_flight })
            (after (shell_update (Message.daemon_connected connection) app) in_flight)
    received :
        (app : App) (in_flight : ℕ) (m : Message)
        → ((connection : Option DaemonConnection) → m ≢ Message.daemon_connected connection)
        → Step (record { app = app; in_flight = in_flight }) (after (shell_update m app) in_flight)

  pub data Reachable : System → Type 0 where
    start : (tray : Bool) (language : Language) → Reachable (booted tray language)
    step : {a b : System} → Reachable a → Step a b → Reachable b
