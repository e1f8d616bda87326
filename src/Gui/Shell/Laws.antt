-- ===== src/Gui/Shell/Laws.antt =====
-- crates/gui/src/main.rs and app.rs: the attempts to connect, and what the tray shows, over all runs.
use owncloud_sync_client.Common.{
  not, ◌≡◌, ◌⊎◌, refl, sym, subst, ℕ, Bool, true, Option, none, some, if◌then◌else◌, inl, inr, List,
}
use owncloud_sync_client.Common.Dict.{map_some}
use owncloud_sync_client.Daemon.Ipc.{DaemonEvent}
use owncloud_sync_client.Gui.Model.{AccountView, DaemonConnection, App, Message, send, sync_tray}
use owncloud_sync_client.Gui.Events.{handle_daemon_event, find_account, folders_of}
use owncloud_sync_client.Gui.App.{
  set_window_visibility, Platform, update, close_window, on_submit, on_next, submit_root,
}
use owncloud_sync_client.Gui.App.Kept.{
  kept, close_window-kept, on_submit-kept, on_next-kept, submit_root-kept,
}
use owncloud_sync_client.Gui.Shell.{shell_update, add_attempt, System}

abbrev pub Kept : Type 0
Kept = List AccountView × (Bool × (Bool × Option Bool))

-- One attempt is under way while the app waits for a connection, and none otherwise; the tray shows
-- whether the daemon runs.
abbrev pub LinkHolds : ℕ → Kept → Type 0
LinkHolds n (accounts, (connecting, (running, tray))) =
    (n ≡ (if connecting then 1 else 0)) × (tray ≡ map_some (λ _. running) tray)

abbrev pub IsLinked : (P : Platform) → System P → Type 0
IsLinked P s = LinkHolds s.in_flight (kept s.app)

event-link :
    (event : DaemonEvent) (app : App) → (kept (handle_daemon_event event app)).1 ≡ (kept app).1
unfolding handle_daemon_event send
event-link DaemonEvent.ready app = refl
event-link (DaemonEvent.sync_started id) app = refl
event-link (DaemonEvent.sync_progress id done total) app = refl
event-link (DaemonEvent.sync_finished id errors report) app = refl
event-link (DaemonEvent.file_status_changed path status) app = refl
event-link (DaemonEvent.account_state_changed id state) app = refl
event-link (DaemonEvent.account_add_started id) app = refl
event-link (DaemonEvent.account_add_failed id reason) app = refl
event-link (DaemonEvent.account_add_completed id user_id display_name url) app = refl
event-link (DaemonEvent.spaces_listed id spaces) app = refl
event-link (DaemonEvent.account_space_failed id reason) app = refl
event-link (DaemonEvent.account_folder_added id folder_id space_id local_path display_name) app =
    refl
event-link (DaemonEvent.space_discovered id space_id space_name suggested_path) app = refl
event-link (DaemonEvent.space_removed id folder_id space_name local_path) app = refl
event-link (DaemonEvent.account_snapshot accounts) app = refl

pub shown :
    (running : Bool) (tray : Option Bool)
    → map_some (λ _. running) tray ≡ map_some (λ _. running) (map_some (λ _. running) tray)
shown running none = refl
shown running (some b) = refl

module _ (P : Platform) where
  by_kept :
      (n : ℕ) (old new : App)
      → kept new ≡ kept old
      → LinkHolds n (kept old)
      → LinkHolds n (kept new)
  by_kept n old new e h = subst (LinkHolds n) (sym e) h

  by_link :
      (n : ℕ) (old new : App)
      → (kept new).1 ≡ (kept old).1
      → LinkHolds n (kept old)
      → LinkHolds n (kept new)
  by_link n old new e h =
      subst (λ (k : Bool × (Bool × Option Bool)). LinkHolds n (new.accounts, k)) (sym e) h

  closed-attempts :
      (n : ℕ) (id : ℕ) (tray : Option Bool) (app : App)
      → add_attempt P (close_window id tray app).1 n ≡ n
  closed-attempts n id none app = refl
  closed-attempts n id (some b) app = refl

  shown-attempts :
      (n : ℕ) (window : Option ℕ) (visible : Bool)
      → add_attempt P (set_window_visibility window visible) n ≡ n
  shown-attempts n none visible = refl
  shown-attempts n (some id) visible = refl

  pub update-attempts : (m : Message) (n : ℕ) (app : App) → add_attempt P (update P m app).1 n ≡ n
  unfolding update
  update-attempts (Message.daemon_event event) n app = refl
  update-attempts Message.daemon_disconnected n app = refl
  update-attempts (Message.navigate_to view) n app = refl
  update-attempts Message.toggle_window n app =
      shown-attempts n app.window_id (not app.window_visible)
  update-attempts (Message.window_opened id) n app = refl
  update-attempts (Message.window_close_requested id) n app = closed-attempts n id app.tray app
  update-attempts (Message.add_account_url_changed url) n app = refl
  update-attempts Message.add_account_submit n app = refl
  update-attempts (Message.toggle_space_selection account space on) n app = refl
  update-attempts (Message.pick_spaces_next id) n app = refl
  update-attempts Message.pick_root_folder_browse n app = refl
  update-attempts (Message.pick_root_folder_picked picked) n app = refl
  update-attempts (Message.pick_root_folder_submit id) n app = refl
  update-attempts (Message.add_space_clicked id) n app = refl
  update-attempts (Message.accept_discovered_space id space path) n app = refl
  update-attempts (Message.dismiss_discovered_space id space) n app = refl
  update-attempts (Message.pause_folder id) n app = refl
  update-attempts (Message.resume_folder id) n app = refl
  update-attempts (Message.force_sync_folder id) n app = refl
  update-attempts (Message.remove_account id) n app = refl
  update-attempts (Message.open_folder path) n app = refl
  update-attempts Message.quit n app = refl
  update-attempts Message.show_about n app = shown-attempts n app.window_id true
  update-attempts Message.start_daemon n app = refl
  update-attempts (Message.open_url url) n app = refl
  update-attempts (Message.daemon_connected connection) n app = refl
  update-attempts (Message.language_changed language) n app = refl

  pub update-link :
      (m : Message) (n : ℕ) (app : App)
      → LinkHolds n (kept app)
      → LinkHolds n (kept (update P m app).0)
  unfolding update send sync_tray
  update-link (Message.daemon_event event) n app h =
      by_link n app (handle_daemon_event event app) (event-link event app) h
  update-link Message.daemon_disconnected n app h = h
  update-link (Message.navigate_to view) n app h = h
  update-link Message.toggle_window n app h = h
  update-link (Message.window_opened id) n app h = h
  update-link (Message.window_close_requested id) n app h =
      by_kept n app (close_window id app.tray app).0 (close_window-kept id app.tray app) h
  update-link (Message.add_account_url_changed url) n app h = h
  update-link Message.add_account_submit n app h =
      by_kept n app (on_submit P app.active_view app) (on_submit-kept P app.active_view app) h
  update-link (Message.toggle_space_selection account space on) n app h = h
  update-link (Message.pick_spaces_next id) n app h =
      by_kept n app (on_next P id (folders_of (find_account id app.accounts)) app.active_view app)
        (on_next-kept P id (folders_of (find_account id app.accounts)) app.active_view app) h
  update-link Message.pick_root_folder_browse n app h = h
  update-link (Message.pick_root_folder_picked picked) n app h = h
  update-link (Message.pick_root_folder_submit id) n app h =
      by_kept n app (submit_root id app.active_view app) (submit_root-kept id app.active_view app) h
  update-link (Message.add_space_clicked id) n app h = h
  update-link (Message.accept_discovered_space id space path) n app h = h
  update-link (Message.dismiss_discovered_space id space) n app h = h
  update-link (Message.pause_folder id) n app h = h
  update-link (Message.resume_folder id) n app h = h
  update-link (Message.force_sync_folder id) n app h = h
  update-link (Message.remove_account id) n app h = h
  update-link (Message.open_folder path) n app h = h
  update-link Message.quit n app h = h
  update-link Message.show_about n app h = h
  update-link Message.start_daemon n app h = h
  update-link (Message.open_url url) n app h = h
  update-link (Message.daemon_connected connection) n app h = h
  update-link (Message.language_changed language) n app h = (h.0, shown app.daemon_running app.tray)

  -- The messages that `IcedApp::update` takes for itself.
  abbrev pub IsOwn : Message → Type 0
  IsOwn m =
      ((connection : Option DaemonConnection) × (m ≡ Message.daemon_connected connection))
      ⊎ ((m ≡ Message.daemon_disconnected) ⊎ (m ≡ Message.start_daemon))

  pub shell_update-cases :
      (m : Message) (app : App) → (shell_update P m app ≡ update P m app) ⊎ IsOwn m
  unfolding shell_update
  shell_update-cases (Message.daemon_event event) app = inl refl
  shell_update-cases Message.daemon_disconnected app = inr (inr (inl refl))
  shell_update-cases (Message.navigate_to view) app = inl refl
  shell_update-cases Message.toggle_window app = inl refl
  shell_update-cases (Message.window_opened id) app = inl refl
  shell_update-cases (Message.window_close_requested id) app = inl refl
  shell_update-cases (Message.add_account_url_changed url) app = inl refl
  shell_update-cases Message.add_account_submit app = inl refl
  shell_update-cases (Message.toggle_space_selection account space on) app = inl refl
  shell_update-cases (Message.pick_spaces_next id) app = inl refl
  shell_update-cases Message.pick_root_folder_browse app = inl refl
  shell_update-cases (Message.pick_root_folder_picked picked) app = inl refl
  shell_update-cases (Message.pick_root_folder_submit id) app = inl refl
  shell_update-cases (Message.add_space_clicked id) app = inl refl
  shell_update-cases (Message.accept_discovered_space id space path) app = inl refl
  shell_update-cases (Message.dismiss_discovered_space id space) app = inl refl
  shell_update-cases (Message.pause_folder id) app = inl refl
  shell_update-cases (Message.resume_folder id) app = inl refl
  shell_update-cases (Message.force_sync_folder id) app = inl refl
  shell_update-cases (Message.remove_account id) app = inl refl
  shell_update-cases (Message.open_folder path) app = inl refl
  shell_update-cases Message.quit app = inl refl
  shell_update-cases Message.show_about app = inl refl
  shell_update-cases Message.start_daemon app = inr (inr (inr refl))
  shell_update-cases (Message.open_url url) app = inl refl
  shell_update-cases (Message.daemon_connected connection) app = inr (inl (connection, refl))
  shell_update-cases (Message.language_changed language) app = inl refl
