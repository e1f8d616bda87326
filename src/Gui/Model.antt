-- ===== src/Gui/Model.antt =====
-- crates/gui/src/model.rs, and the state and the messages of crates/gui/src/app.rs.
use owncloud_sync_client.Common.{
  ℕ, zero, suc, String, Bool, true, false, Option, none, List, [], ◌∷◌, ◌++◌,
}
use owncloud_sync_client.Common.Dict.{map_some}
use owncloud_sync_client.SyncEngine.Types.{Uuid}
use owncloud_sync_client.Daemon.Ipc.{DaemonCommand, DaemonEvent}

pub data FolderStatus : Type 0 where
  idle syncing error paused : FolderStatus

pub record FolderView : Type 0 where
  pub id : Uuid
  pub space_id : String
  pub display_name : String
  pub local_path : String
  pub status : FolderStatus
  pub progress : Option (ℕ × ℕ)
  pub errors : List String

pub record AccountView : Type 0 where
  pub id : Uuid
  pub url : String
  pub display_name : String
  pub folders : List FolderView

pub record SpaceInfo : Type 0 where
  pub id : String
  pub name : String
  pub drive_type : String

-- The fields of a variant are its arguments, in the order of the code. A set of texts is a list.
pub data View : Type 0 where
  sync_status : View
  account_settings : Uuid → View
  add_account : String → Option String → View
  add_account_waiting : Uuid → String → View
  pick_spaces : Uuid → List SpaceInfo → List String → Option String → View
  pick_root_folder : Uuid → List SpaceInfo → Option String → Option String → View
  general_settings : View
  folder_errors : Uuid → Uuid → View
  about : View

pub data Language : Type 0 where
  en de fr zh : Language

-- `DaemonConnection`: how many commands the channel still takes, none when it is closed, and those
-- that it took.
pub record DaemonConnection : Type 0 where
  pub room : ℕ
  pub sent : List DaemonCommand

abbrev pub disconnected : DaemonConnection
disconnected = record { room = 0; sent = [] }

abbrev take_room : DaemonCommand → ℕ → List DaemonCommand → Bool × DaemonConnection
take_room cmd zero sent = (false, record { room = zero; sent = sent })
take_room cmd (suc room) sent = (true, record { room = room; sent = sent ++ cmd ∷ [] })

-- `DaemonConnection::send`: whether the command was taken.
unfoldable pub try_send : DaemonCommand → DaemonConnection → Bool × DaemonConnection
try_send cmd conn = take_room cmd conn.room conn.sent

-- `tray` is the state that the tray's menu shows, where there is a tray.
pub record App : Type 0 where
  pub daemon : DaemonConnection
  pub accounts : List AccountView
  pub active_view : View
  pub tray : Option Bool
  pub window_visible : Bool
  pub window_id : Option ℕ
  pub daemon_running : Bool
  pub daemon_connecting : Bool
  pub language : Language

-- `App::default`
abbrev pub default_app : App
default_app = record {
  daemon = disconnected;
  accounts = [];
  active_view = View.sync_status;
  tray = none;
  window_visible = true;
  window_id = none;
  daemon_running = false;
  daemon_connecting = false;
  language = Language.en;
}

pub data Message : Type 0 where
  daemon_event : DaemonEvent → Message
  daemon_disconnected : Message
  navigate_to : View → Message
  toggle_window : Message
  window_opened window_close_requested : ℕ → Message
  add_account_url_changed : String → Message
  add_account_submit : Message
  toggle_space_selection : Uuid → String → Bool → Message
  pick_spaces_next : Uuid → Message
  pick_root_folder_browse : Message
  pick_root_folder_picked : Option String → Message
  pick_root_folder_submit add_space_clicked : Uuid → Message
  accept_discovered_space : Uuid → String → String → Message
  dismiss_discovered_space : Uuid → String → Message
  pause_folder resume_folder force_sync_folder remove_account : Uuid → Message
  open_folder : String → Message
  quit show_about start_daemon : Message
  open_url : String → Message
  daemon_connected : Option DaemonConnection → Message
  language_changed : Language → Message

-- `iced::Task`, or the program that a handler starts.
pub data Task : Type 0 where
  nothing : Task
  set_visible : ℕ → Bool → Task
  exit pick_folder : Task
  save_config : Language → Task
  open_path : String → Task
  -- `spawn_and_connect` after so many milliseconds, and `event_rx` set, with a message at its end
  spawn_and_connect : ℕ → Task
  take_events : Message → Task

-- `sync_tray`
unfoldable pub sync_tray : App → App
sync_tray app = record app { tray = map_some (λ _. app.daemon_running) app.tray }

-- `app.daemon.send(cmd)`, for its effect.
unfoldable pub send : DaemonCommand → App → App
unfolding try_send
send cmd app = record app { daemon = (try_send cmd app.daemon).1 }
