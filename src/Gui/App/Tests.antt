-- ===== src/Gui/App/Tests.antt =====
-- crates/gui/src/app.rs: short runs of the window.
use owncloud_sync_client.Common.{◌≡◌, refl, String, none, some, List, [], ◌∷◌, number_eq}
use owncloud_sync_client.Daemon.Ipc.{DaemonEvent}
use owncloud_sync_client.Daemon.Ipc as Ipc
use owncloud_sync_client.Gui.Model.{FolderStatus, FolderView, App, Message, default_app}
use owncloud_sync_client.Gui.Events.{update_first, update_folder, handle_daemon_event}
use owncloud_sync_client.Gui.Events.Folders.{find_folder}
use owncloud_sync_client.Gui.App.{Platform, update}
use owncloud_sync_client.Gui.App.Laws.{updates, progress, sync-shown}

abbrev pub plain : Platform
plain = record {
  translate = λ language key. key;
  trim = λ s. s;
  parent = λ path. none;
  home_root = none;
}

abbrev folder : FolderStatus → List String → FolderView
folder status errors = record {
  id = 7;
  space_id = "s";
  display_name = "Personal";
  local_path = "/h/Personal";
  status = status;
  progress = none;
  errors = errors;
}

abbrev app : App
app = record default_app {
  daemon = record { room = 2; sent = [] };
  accounts =
      record {
        id = 1;
        url = "c.example";
        display_name = "A";
        folders = folder FolderStatus.idle [] ∷ [];
      }
      ∷ [];
}

sync-shown_example :
    find_folder 7
      (handle_daemon_event (DaemonEvent.sync_finished 7 ("disk full" ∷ []) none) (
        updates plain
          (Message.daemon_event (DaemonEvent.sync_started 7) ∷ progress plain 7 ((1, 2) ∷ []))
          app)).accounts
    ≡ some (folder FolderStatus.error ("disk full" ∷ []))
unfolding number_eq
sync-shown_example = sync-shown plain 7 7 ("disk full" ∷ []) none ((1, 2) ∷ []) app

abbrev fresh : App
fresh = record default_app {
  daemon = record { room = 2; sent = [] };
  accounts = record { id = 1; url = "c.example"; display_name = "A"; folders = [] } ∷ [];
}

abbrev offered : List Ipc.SpaceInfo
offered =
    record { id = "p"; name = "Personal"; drive_type = "personal" }
    ∷ record { id = "q"; name = "Project"; drive_type = "project" }
    ∷ []

-- A command that the channel does not take leaves no trace, and the folder is shown as paused.
paused_offline_test :
    (update plain
      (Message.pause_folder 7)
      (record app { daemon = record { room = 0; sent = [] } })).0.accounts
    ≡ record {
      id = 1;
      url = "c.example";
      display_name = "A";
      folders = folder FolderStatus.paused [] ∷ [];
    }
      ∷ []
unfolding update update_folder update_first number_eq
paused_offline_test = refl
