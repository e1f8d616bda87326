-- ===== src/Gui/App/Health.antt =====
-- crates/gui/src/app.rs: the folders in the window, over all messages.
use owncloud_sync_client.Common.{
  subst, sym, ap, ◌≡◌, ◌≢◌, Bool, Option, none, some, List, [], ◌∷◌, map, keep, All, All-append,
  Bool-cases, inl, inr, String, ◌!=◌, number_eq, string_eq, ◌==◌,
}
use owncloud_sync_client.SyncEngine.Types.{Uuid}
use owncloud_sync_client.Daemon.Ipc.{DaemonEvent, AccountSnapshot, FolderSnapshot}
use owncloud_sync_client.Gui.Model.{
  FolderStatus, FolderView, AccountView, App, Message, send, sync_tray,
}
use owncloud_sync_client.Gui.Events.{
  folders_of, find_account, update_first, update_account, view_folder, view_account, status_of,
  on_finished, or_same, prepend, handle_daemon_event,
}
use owncloud_sync_client.Gui.Events.Folders.{update_folder-EveryFolder}
use owncloud_sync_client.Gui.App.{Platform, close_window, on_submit, on_next, submit_root, update}
use owncloud_sync_client.Gui.App.Kept.{
  kept, close_window-kept, on_submit-kept, on_next-kept, submit_root-kept,
}

-- A folder that is shown with an error has a text to show.
abbrev pub HasReason : FolderView → Type 0
HasReason f = f.status ≡ FolderStatus.error → f.errors ≢ []

abbrev pub IsExplained : App → Type 0
IsExplained app = All (λ (a : AccountView). All HasReason a.folders) app.accounts

abbrev FoldersExplained : AccountView → Type 0
FoldersExplained a = All HasReason a.folders

keep-All :
    {A : Type 0} (P : A → Type 0) (test : A → Bool) (xs : List A) → All P xs → All P (keep test xs)
keep-All P test [] h = h
keep-All P test (x ∷ xs) h = elim (Bool-cases (test x)) [
  | inl e ↦ rw e (h.0, keep-All P test xs h.1)
  | inr e ↦ rw e (keep-All P test xs h.1)
]

abbrev AllOption : {A : Type 0} → (A → Type 0) → Option (List A) → Type 0
AllOption P none = Unit
AllOption P (some xs) = All P xs

prepend-AllOption :
    {A : Type 0} (P : A → Type 0) (x : A) (o : Option (List A))
    → P x
    → AllOption P o
    → AllOption P (prepend x o)
prepend-AllOption P x none h k = tt
prepend-AllOption P x (some xs) h k = (h, k)

update_first-AllOption :
    {A : Type 0} (P : A → Type 0) (test : A → Bool) (f : A → A) (keeps : (a : A) → P a → P (f a))
    (xs : List A)
    → All P xs
    → AllOption P (update_first test f xs)
unfolding update_first
update_first-AllOption P test f keeps [] h = tt
update_first-AllOption P test f keeps (x ∷ xs) h = elim (Bool-cases (test x)) [
  | inl e ↦ rw e (keeps x h.0, h.1)
  | inr e ↦ rw e (
      prepend-AllOption P x (update_first test f xs) h.0
        (update_first-AllOption P test f keeps xs h.1))
]

or_same-All :
    {A : Type 0} (P : A → Type 0) (xs : List A) (o : Option (List A))
    → All P xs
    → AllOption P o
    → All P (or_same xs o)
or_same-All P xs none h k = h
or_same-All P xs (some ys) h k = k

update_account-All :
    (P : AccountView → Type 0) (id : Uuid) (f : AccountView → AccountView)
    (keeps : (a : AccountView) → P a → P (f a)) (accounts : List AccountView)
    → All P accounts
    → All P (update_account id f accounts)
unfolding update_account
update_account-All P id f keeps accounts h =
    or_same-All P accounts (update_first (λ (a : AccountView). a.id == id) f accounts) h
      (update_first-AllOption P (λ (a : AccountView). a.id == id) f keeps accounts h)

on_finished-HasReason : (errors : List String) (f : FolderView) → HasReason (on_finished errors f)
on_finished-HasReason [] f e = absurd (cc e)
on_finished-HasReason (x ∷ errors) f e = λ empty. cc empty

status_of-no_error : (s : String) → status_of s ≢ FolderStatus.error
unfolding status_of
status_of-no_error s = elim (Bool-cases (s == "syncing")) [
  | inl e ↦ rw e (λ p. cc p)
  | inr e ↦ rw e (elim (Bool-cases (s == "paused")) [
    | inl e2 ↦ rw e2 (λ p. cc p)
    | inr e2 ↦ rw e2 (λ p. cc p)
  ])
]

view_folders-HasReason : (fs : List FolderSnapshot) → All HasReason (map view_folder fs)
unfolding view_folder
view_folders-HasReason [] = tt
view_folders-HasReason (f ∷ fs) =
    ((λ e. absurd (status_of-no_error f.status e)), view_folders-HasReason fs)

view_accounts-Explained :
    (accounts : List AccountSnapshot) → All FoldersExplained (map view_account accounts)
unfolding view_account
view_accounts-Explained [] = tt
view_accounts-Explained (a ∷ accounts) =
    (view_folders-HasReason a.folders, view_accounts-Explained accounts)

event-IsExplained :
    (event : DaemonEvent) (app : App)
    → IsExplained app
    → IsExplained (handle_daemon_event event app)
unfolding handle_daemon_event send
event-IsExplained DaemonEvent.ready app h = h
event-IsExplained (DaemonEvent.sync_started id) app h =
    update_folder-EveryFolder HasReason id _ (λ f _ e. absurd (cc e)) app.accounts h
event-IsExplained (DaemonEvent.sync_progress id done total) app h =
    update_folder-EveryFolder HasReason id _ (λ f r. r) app.accounts h
event-IsExplained (DaemonEvent.sync_finished id errors report) app h =
    update_folder-EveryFolder HasReason id (on_finished errors)
      (λ f _. on_finished-HasReason errors f) app.accounts h
event-IsExplained (DaemonEvent.file_status_changed path status) app h = h
event-IsExplained (DaemonEvent.account_state_changed id state) app h = h
event-IsExplained (DaemonEvent.account_add_started id) app h = h
event-IsExplained (DaemonEvent.account_add_failed id reason) app h = h
event-IsExplained (DaemonEvent.account_add_completed id user_id display_name url) app h =
    All-append FoldersExplained app.accounts _ h (tt, tt)
event-IsExplained (DaemonEvent.spaces_listed id spaces) app h = h
event-IsExplained (DaemonEvent.account_space_failed id reason) app h = h
event-IsExplained (DaemonEvent.account_folder_added id folder_id space_id local_path display_name)
      app h =
    update_account-All FoldersExplained id _
      (λ a k. All-append HasReason a.folders _ k ((λ e. absurd (cc e)), tt)) app.accounts h
event-IsExplained (DaemonEvent.space_discovered id space_id space_name suggested_path) app h = h
event-IsExplained (DaemonEvent.space_removed id folder_id space_name local_path) app h =
    update_account-All FoldersExplained id _
      (λ a k. keep-All HasReason (λ (f : FolderView). f.id != folder_id) a.folders k) app.accounts h
event-IsExplained (DaemonEvent.account_snapshot accounts) app h = view_accounts-Explained accounts

same_accounts : (app new : App) → kept new ≡ kept app → IsExplained app → IsExplained new
same_accounts app new e h =
    subst (λ (accounts : List AccountView). All FoldersExplained accounts)
      (sym (ap (λ (k : List AccountView × (Bool × (Bool × Option Bool))). k.0) e)) h

module _ (P : Platform) where
  -- If every folder that is shown with an error has an error text, that holds after any message too: the
  -- events of the daemon, a snapshot, and what the user does.
  pub update-IsExplained :
      (m : Message) (app : App) → IsExplained app → IsExplained (update P m app).0
  unfolding update send sync_tray
  update-IsExplained (Message.daemon_event event) app h = event-IsExplained event app h
  update-IsExplained Message.daemon_disconnected app h = h
  update-IsExplained (Message.navigate_to view) app h = h
  update-IsExplained Message.toggle_window app h = h
  update-IsExplained (Message.window_opened id) app h = h
  update-IsExplained (Message.window_close_requested id) app h =
      same_accounts app (close_window id app.tray app).0 (close_window-kept id app.tray app) h
  update-IsExplained (Message.add_account_url_changed url) app h = h
  update-IsExplained Message.add_account_submit app h =
      same_accounts app (on_submit P app.active_view app) (on_submit-kept P app.active_view app) h
  update-IsExplained (Message.toggle_space_selection account space on) app h = h
  update-IsExplained (Message.pick_spaces_next id) app h =
      same_accounts app
        (on_next P id (folders_of (find_account id app.accounts)) app.active_view app)
        (on_next-kept P id (folders_of (find_account id app.accounts)) app.active_view app) h
  update-IsExplained Message.pick_root_folder_browse app h = h
  update-IsExplained (Message.pick_root_folder_picked picked) app h = h
  update-IsExplained (Message.pick_root_folder_submit id) app h =
      same_accounts app (submit_root id app.active_view app)
        (submit_root-kept id app.active_view app) h
  update-IsExplained (Message.add_space_clicked id) app h = h
  update-IsExplained (Message.accept_discovered_space id space path) app h = h
  update-IsExplained (Message.dismiss_discovered_space id space) app h = h
  update-IsExplained (Message.pause_folder id) app h =
      update_folder-EveryFolder HasReason id _ (λ f _ e. absurd (cc e)) app.accounts h
  update-IsExplained (Message.resume_folder id) app h =
      update_folder-EveryFolder HasReason id _ (λ f _ e. absurd (cc e)) app.accounts h
  update-IsExplained (Message.force_sync_folder id) app h = h
  update-IsExplained (Message.remove_account id) app h =
      keep-All FoldersExplained (λ (a : AccountView). a.id != id) app.accounts h
  update-IsExplained (Message.open_folder path) app h = h
  update-IsExplained Message.quit app h = h
  update-IsExplained Message.show_about app h = h
  update-IsExplained Message.start_daemon app h = h
  update-IsExplained (Message.open_url url) app h = h
  update-IsExplained (Message.daemon_connected connection) app h = h
  update-IsExplained (Message.language_changed language) app h = h
