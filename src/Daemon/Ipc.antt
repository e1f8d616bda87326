-- ===== src/Daemon/Ipc.antt =====
-- crates/daemon/src/gui_ipc/protocol.rs: the messages between the daemon and the GUI.
pub mod Frames
use owncloud_sync_client.Common.{ℕ, String, Option, List}
use owncloud_sync_client.SyncEngine.Types.{Uuid, SyncReport}

pub record FolderSnapshot : Type 0 where
  pub folder_id : Uuid
  pub space_id : String
  pub display_name : String
  pub local_path : String
  pub status : String

pub record AccountSnapshot : Type 0 where
  pub account_id : Uuid
  pub url : String
  pub display_name : String
  pub folders : List FolderSnapshot

pub record SpaceSelection : Type 0 where
  pub space_id : String
  pub display_name : String

pub record SpaceInfo : Type 0 where
  pub id : String
  pub name : String
  pub drive_type : String

-- The fields of a variant are its arguments, in the order of the code.
pub data DaemonCommand : Type 0 where
  subscribe : DaemonCommand
  trigger_sync pause_folder resume_folder : Uuid → DaemonCommand
  add_account : String → DaemonCommand
  remove_account list_spaces : Uuid → DaemonCommand
  set_account_folders : Uuid → String → List SpaceSelection → DaemonCommand
  add_account_space : Uuid → String → String → DaemonCommand
  dismiss_space : Uuid → String → DaemonCommand
  quit : DaemonCommand

pub data DaemonEvent : Type 0 where
  ready : DaemonEvent
  sync_started : Uuid → DaemonEvent
  sync_progress : Uuid → ℕ → ℕ → DaemonEvent
  sync_finished : Uuid → List String → Option SyncReport → DaemonEvent
  file_status_changed : String → String → DaemonEvent
  account_state_changed : Uuid → String → DaemonEvent
  account_add_started : Uuid → DaemonEvent
  account_add_failed : Uuid → String → DaemonEvent
  account_add_completed : Uuid → String → String → String → DaemonEvent
  account_folder_added : Uuid → Uuid → String → String → String → DaemonEvent
  account_space_failed : Uuid → String → DaemonEvent
  spaces_listed : Uuid → List SpaceInfo → DaemonEvent
  space_discovered : Uuid → String → String → String → DaemonEvent
  space_removed : Uuid → Uuid → String → String → DaemonEvent
  account_snapshot : List AccountSnapshot → DaemonEvent
