-- ===== src/Gui/Events.antt =====
-- crates/gui/src/app.rs, `handle_daemon_event`: what an event of the daemon changes in the window.
pub mod Folders
use owncloud_sync_client.Common.{
  ℕ, String, ◌<>◌, Bool, true, false, not, Option, none, some, List, [], ◌∷◌, ◌++◌, map, keep, find,
  contains, ◌==◌, ◌!=◌, string_eq, number_eq, if◌then◌else◌, is_empty,
}
use owncloud_sync_client.SyncEngine.Types.{Uuid}
use owncloud_sync_client.Daemon.Ipc.{DaemonCommand, DaemonEvent, FolderSnapshot, AccountSnapshot}
use owncloud_sync_client.Daemon.Ipc as Ipc
use owncloud_sync_client.Gui.Model.{
  FolderStatus, FolderView, AccountView, SpaceInfo, View, App, send,
}

abbrev pub prepend : {A : Type 0} → A → Option (List A) → Option (List A)
prepend x none = none
prepend x (some xs) = some (x ∷ xs)

-- The first element that passes, changed.
unfoldable pub update_first : {A : Type 0} → (A → Bool) → (A → A) → List A → Option (List A)
update_first p f [] = none
update_first p f (x ∷ xs) =
    let rest = prepend x (update_first p f xs) in if p x then some (f x ∷ xs) else rest

abbrev pub or_same : {A : Type 0} → A → Option A → A
or_same a none = a
or_same a (some b) = b

abbrev in_account :
    (FolderView → FolderView)
    → Uuid
    → AccountView
    → List AccountView
    → Option (List FolderView)
    → List AccountView
    → List AccountView
in_account f id a rest none changed = a ∷ changed
in_account f id a rest (some folders) changed = record a { folders = folders } ∷ rest

-- `find_folder_mut` with a change of the folder in place.
unfoldable pub update_folder :
    Uuid → (FolderView → FolderView) → List AccountView → List AccountView
unfolding update_first
update_folder id f [] = []
update_folder id f (a ∷ more) =
    in_account f id a more (update_first (λ (x : FolderView). x.id == id) f a.folders)
      (update_folder id f more)

-- `iter_mut().find(|a| a.id == account_id)` with a change of the account in place.
unfoldable pub update_account :
    Uuid → (AccountView → AccountView) → List AccountView → List AccountView
unfolding update_first
update_account id f accounts =
    or_same accounts (update_first (λ (a : AccountView). a.id == id) f accounts)

abbrev pub find_account : Uuid → List AccountView → Option AccountView
find_account id accounts = find (λ (a : AccountView). a.id == id) accounts

abbrev pub folders_of : Option AccountView → List FolderView
folders_of none = []
folders_of (some a) = a.folders

abbrev pub on_finished : List String → FolderView → FolderView
on_finished errors f =
    if is_empty errors
    then record f { progress = none; status = FolderStatus.idle; errors = [] }
    else record f { progress = none; status = FolderStatus.error; errors = errors }

unfoldable pub status_of : String → FolderStatus
status_of s =
    if s == "syncing"
    then FolderStatus.syncing
    else if s == "paused"
    then FolderStatus.paused
    else FolderStatus.idle

unfoldable pub view_folder : FolderSnapshot → FolderView
unfolding status_of
view_folder f = record {
  id = f.folder_id;
  space_id = f.space_id;
  display_name = f.display_name;
  local_path = f.local_path;
  status = status_of f.status;
  progress = none;
  errors = [];
}

unfoldable pub view_account : AccountSnapshot → AccountView
unfolding view_folder
view_account a = record {
  id = a.account_id;
  url = a.url;
  display_name = a.display_name;
  folders = map view_folder a.folders;
}

abbrev pub space_info : Ipc.SpaceInfo → SpaceInfo
space_info s = record { id = s.id; name = s.name; drive_type = s.drive_type }

-- The view for the spaces of an account: the personal one is chosen when the account has no folders
-- yet, and those that have one are left out afterwards.
unfoldable pub pick_view : Uuid → List SpaceInfo → List FolderView → View
pick_view id spaces folders =
    if is_empty folders
    then View.pick_spaces id spaces
        (map (λ (s : SpaceInfo). s.id)
          (keep (λ (s : SpaceInfo). s.drive_type == "personal") spaces))
        none
    else View.pick_spaces id
        (keep
          (λ (s : SpaceInfo). not (contains (map (λ (f : FolderView). f.space_id) folders) s.id))
          spaces)
        [] none

abbrev on_add_started : Uuid → View → View
on_add_started id (View.add_account_waiting stored url) = View.add_account_waiting id url
on_add_started id view = view

abbrev on_add_failed : String → View → View
on_add_failed reason (View.add_account_waiting stored url) = View.add_account url (some reason)
on_add_failed reason view = view

abbrev on_space_failed : Uuid → String → View → View
on_space_failed id reason (View.pick_spaces aid spaces selected error) =
    View.pick_spaces aid spaces selected (if aid == id then some reason else error)
on_space_failed id reason (View.pick_root_folder aid spaces path error) =
    View.pick_root_folder aid spaces path (if aid == id then some reason else error)
on_space_failed id reason view = view

abbrev pub on_folder_added : Uuid → View → View
on_folder_added id (View.pick_root_folder aid spaces path error) =
    if aid == id then View.sync_status else View.pick_root_folder aid spaces path error
on_folder_added id view = view

unfoldable pub handle_daemon_event : DaemonEvent → App → App
unfolding update_folder update_account view_account pick_view
handle_daemon_event DaemonEvent.ready app = app
handle_daemon_event (DaemonEvent.sync_started id) app = record app {
  accounts =
      update_folder id (λ f. record f { status = FolderStatus.syncing; errors = [] }) app.accounts;
}
handle_daemon_event (DaemonEvent.sync_progress id done total) app = record app {
  accounts = update_folder id (λ f. record f { progress = some (done, total) }) app.accounts;
}
handle_daemon_event (DaemonEvent.sync_finished id errors report) app = record app {
  accounts = update_folder id (on_finished errors) app.accounts;
}
handle_daemon_event (DaemonEvent.file_status_changed path status) app = app
handle_daemon_event (DaemonEvent.account_state_changed id state) app = app
handle_daemon_event (DaemonEvent.account_add_started id) app = record app {
  active_view = on_add_started id app.active_view;
}
handle_daemon_event (DaemonEvent.account_add_failed id reason) app = record app {
  active_view = on_add_failed reason app.active_view;
}
handle_daemon_event (DaemonEvent.account_add_completed id user_id display_name url) app =
    send (DaemonCommand.list_spaces id) (record app {
      accounts =
          app.accounts
          ++ record { id = id; url = url; display_name = display_name; folders = [] } ∷ [];
    })
handle_daemon_event (DaemonEvent.spaces_listed id spaces) app = record app {
  active_view = pick_view id (map space_info spaces) (folders_of (find_account id app.accounts));
}
handle_daemon_event (DaemonEvent.account_space_failed id reason) app = record app {
  active_view = on_space_failed id reason app.active_view;
}
handle_daemon_event (DaemonEvent.account_folder_added id folder_id space_id local_path display_name)
      app =
    record app {
      accounts =
          update_account id
            (λ a. record a {
              folders =
                  a.folders
                  ++ record {
                    id = folder_id;
                    space_id = space_id;
                    display_name = display_name;
                    local_path = local_path;
                    status = FolderStatus.idle;
                    progress = none;
                    errors = [];
                  }
                    ∷ [];
            })
            app.accounts;
      active_view = on_folder_added id app.active_view;
    }
handle_daemon_event (DaemonEvent.space_discovered id space_id space_name suggested_path) app = app
handle_daemon_event (DaemonEvent.space_removed id folder_id space_name local_path) app =
    record app {
      accounts =
          update_account id
            (λ a. record a { folders = keep (λ (f : FolderView). f.id != folder_id) a.folders })
            app.accounts;
    }
handle_daemon_event (DaemonEvent.account_snapshot accounts) app = record app {
  accounts = map view_account accounts;
}
