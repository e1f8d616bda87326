-- ===== src/Gui/App.antt =====
-- crates/gui/src/app.rs, `update`: what a message does to the application.
pub mod Laws
pub mod Health
pub mod Kept
mod Tests
use owncloud_sync_client.Common.{
  ℕ, String, ◌<>◌, Bool, true, false, not, ◌&&◌, Option, none, some, List, [], ◌∷◌, ◌++◌, map, keep,
  contains, ◌==◌, ◌!=◌, leb, ◌-◌, ◌+◌, string_eq, number_eq, if◌then◌else◌,
}
use Prim.Native.Char.{Char, code}
use owncloud_sync_client.Common.Texts.{is_empty, trim_end_matches}
use owncloud_sync_client.SyncEngine.Types.{Uuid}
use owncloud_sync_client.Daemon.Ipc.{DaemonCommand, SpaceSelection}
use owncloud_sync_client.Gui.Model.{
  FolderStatus, FolderView, AccountView, SpaceInfo, View, Language, App, Message, Task, try_send,
  send, sync_tray,
}
use owncloud_sync_client.Gui.Events.{update_folder, find_account, folders_of, handle_daemon_event}

-- `t!`, `str::trim`, `Path::parent` and `dirs::home_dir` with `ownCloud` joined to it.
pub record Platform : Type 0 where
  pub translate : Language → String → String
  pub trim : String → String
  pub parent : String → Option String
  pub home_root : Option String

lower : ℕ → ℕ
lower c = if leb b'A' c && leb c b'Z' then c + 32 else c

-- The text without an ASCII prefix in whatever case; the prefix is in lower case.
unfoldable pub strip_ignoring_case : String → String → Option String
unfolding lower
strip_ignoring_case String.[] s = some s
strip_ignoring_case (String.◌∷◌ d p) String.[] = none
strip_ignoring_case (String.◌∷◌ d p) (String.◌∷◌ c s) =
    let rest = strip_ignoring_case p s in if lower (code c) == code d then rest else none

abbrev or_else : Option String → String → String
or_else none s = s
or_else (some t) s = t

unfoldable pub strip_url_schema : String → String
unfolding strip_ignoring_case
strip_url_schema s =
    or_else (strip_ignoring_case "https://" s) (or_else (strip_ignoring_case "http://" s) s)

abbrev pub set_folder_status : Uuid → FolderStatus → App → App
set_folder_status id status app = record app {
  accounts = update_folder id (λ f. record f { status = status }) app.accounts;
}

abbrev insert_text : String → List String → List String
insert_text s set = if contains set s then set else set ++ s ∷ []

abbrev pub set_window_visibility : Option ℕ → Bool → Task
set_window_visibility none visible = Task.nothing
set_window_visibility (some id) visible = Task.set_visible id visible

abbrev pub close_window : ℕ → Option Bool → App → App × Task
close_window id none app = (app, Task.exit)
close_window id (some shown) app =
    (record app { window_visible = false }, Task.set_visible id false)

abbrev on_url_changed : String → View → View
on_url_changed url (View.add_account old error) = View.add_account url error
on_url_changed url view = view

abbrev on_toggle : String → Bool → View → View
on_toggle id on (View.pick_spaces account spaces selected error) =
    View.pick_spaces account spaces
      (if on then insert_text id selected else keep (λ s. s != id) selected) error
on_toggle id on view = view

abbrev on_picked : Option String → View → View
on_picked (some path) (View.pick_root_folder account spaces old error) =
    View.pick_root_folder account spaces (some path) none
on_picked picked view = view

unfoldable pub selected_spaces : List SpaceInfo → List String → List SpaceInfo
selected_spaces spaces selected = keep (λ (s : SpaceInfo). contains selected s.id) spaces

-- A command for each chosen space.
unfoldable pub send_spaces : Uuid → String → List SpaceInfo → App → App
send_spaces id root [] app = app
send_spaces id root (s ∷ spaces) app = send_spaces id root spaces (
    send (DaemonCommand.add_account_space id s.id (trim_end_matches b'/' root <> ("/" <> s.name)))
      app)

abbrev selection : SpaceInfo → SpaceSelection
selection s = record { space_id = s.id; display_name = s.name }

abbrev pub submit_root : Uuid → View → App → App
submit_root id (View.pick_root_folder account spaces (some root) error) app =
    send (DaemonCommand.set_account_folders id root (map selection spaces)) app
submit_root id view app = app

module _ (P : Platform) where
  unfoldable pub derive_root : List String → String
  derive_root [] = or_else P.home_root "/tmp/ownCloud"
  derive_root (path ∷ paths) = or_else (P.parent path) (or_else P.home_root "/tmp/ownCloud")

  -- `AddAccountSubmit`, for the text with its scheme removed.
  abbrev pub submit_url : String → Option String → App → App
  submit_url url error app =
      if is_empty url
      then record app {
        active_view = View.add_account url (some (P.translate app.language "error_enter_url"));
      }
      else let sent = try_send (DaemonCommand.add_account url) app.daemon in
        record app {
          daemon = sent.1;
          active_view =
              if sent.0
              then View.add_account_waiting 0 url
              else View.add_account url (some (P.translate app.language "error_not_connected"));
        }

  abbrev pub on_submit : View → App → App
  on_submit (View.add_account url error) app = submit_url (strip_url_schema (P.trim url)) error app
  on_submit view app = app

  -- `PickSpacesNext`, with the folders of the account.
  abbrev pub on_next : Uuid → List FolderView → View → App → App
  on_next id [] (View.pick_spaces account spaces selected error) app = record app {
    active_view = View.pick_root_folder id (selected_spaces spaces selected) none none;
  }
  on_next id (f ∷ folders) (View.pick_spaces account spaces selected error) app =
      record (send_spaces id (derive_root (map (λ (f : FolderView). f.local_path) (f ∷ folders)))
        (selected_spaces spaces selected) app) { active_view = View.account_settings id }
  on_next id folders view app = app

  unfoldable pub update : Message → App → App × Task
  unfolding handle_daemon_event update_folder strip_url_schema selected_spaces send_spaces
      derive_root try_send send sync_tray
  update (Message.daemon_event event) app = (handle_daemon_event event app, Task.nothing)
  update Message.daemon_disconnected app = (app, Task.nothing)
  update (Message.navigate_to view) app = (record app { active_view = view }, Task.nothing)
  update Message.toggle_window app = (
    record app { window_visible = not app.window_visible },
    set_window_visibility app.window_id (not app.window_visible),
  )
  update (Message.window_opened id) app = (record app { window_id = some id }, Task.nothing)
  update (Message.window_close_requested id) app = close_window id app.tray app
  update (Message.add_account_url_changed url) app =
      (record app { active_view = on_url_changed url app.active_view }, Task.nothing)
  update Message.add_account_submit app = (on_submit app.active_view app, Task.nothing)
  update (Message.toggle_space_selection account space on) app =
      (record app { active_view = on_toggle space on app.active_view }, Task.nothing)
  update (Message.pick_spaces_next id) app =
      (on_next id (folders_of (find_account id app.accounts)) app.active_view app, Task.nothing)
  update Message.pick_root_folder_browse app = (app, Task.pick_folder)
  update (Message.pick_root_folder_picked picked) app =
      (record app { active_view = on_picked picked app.active_view }, Task.nothing)
  update (Message.pick_root_folder_submit id) app =
      (submit_root id app.active_view app, Task.nothing)
  update (Message.add_space_clicked id) app =
      (send (DaemonCommand.list_spaces id) app, Task.nothing)
  update (Message.accept_discovered_space id space path) app =
      (send (DaemonCommand.add_account_space id space path) app, Task.nothing)
  update (Message.dismiss_discovered_space id space) app =
      (send (DaemonCommand.dismiss_space id space) app, Task.nothing)
  update (Message.pause_folder id) app = (
    set_folder_status id FolderStatus.paused (send (DaemonCommand.pause_folder id) app),
    Task.nothing,
  )
  update (Message.resume_folder id) app = (
    set_folder_status id FolderStatus.idle (send (DaemonCommand.resume_folder id) app),
    Task.nothing,
  )
  update (Message.force_sync_folder id) app =
      (send (DaemonCommand.trigger_sync id) app, Task.nothing)
  update (Message.remove_account id) app = (
    record (send (DaemonCommand.remove_account id) app) {
      accounts = keep (λ (a : AccountView). a.id != id) app.accounts;
      active_view = View.sync_status;
    },
    Task.nothing,
  )
  update (Message.open_folder path) app = (app, Task.open_path path)
  update Message.quit app = (send DaemonCommand.quit app, Task.exit)
  update Message.show_about app = (
    record app { window_visible = true; active_view = View.about },
    set_window_visibility app.window_id true,
  )
  update Message.start_daemon app = (app, Task.nothing)
  update (Message.open_url url) app = (app, Task.open_path url)
  update (Message.daemon_connected connection) app = (app, Task.nothing)
  update (Message.language_changed language) app =
      (sync_tray (record app { language = language }), Task.save_config language)
