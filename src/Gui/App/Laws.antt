-- ===== src/Gui/App/Laws.antt =====
-- crates/gui/src/app.rs: what sequences of messages lead to.
use owncloud_sync_client.Common.{
  ◌≡◌, refl, ap, ◌∙◌, ℕ, suc, String, false, Option, none, some, List, [], ◌∷◌, ◌++◌, map, keep,
  ◌==◌, ◌!=◌, number_eq, string_eq, if◌then◌else◌, arith,
}
use mathlib.Core.Path.{fun_ext}
use owncloud_sync_client.Common.Dict.{map_some}
use owncloud_sync_client.Common.Texts.{is_empty}
use owncloud_sync_client.SyncEngine.Types.{Uuid, SyncReport}
use owncloud_sync_client.Daemon.Ipc.{DaemonCommand, DaemonEvent}
use owncloud_sync_client.Daemon.Ipc as Ipc
use owncloud_sync_client.Gui.Model.{
  FolderStatus, FolderView, AccountView, SpaceInfo, View, App, Message, try_send, send,
}
use owncloud_sync_client.Gui.Events.{update_folder, on_finished, find_account, handle_daemon_event}
use owncloud_sync_client.Gui.Events.Folders.{
  find_folder, changed, find_folder-update_folder, update_folder-update_folder,
}
use owncloud_sync_client.Gui.App.{Platform, update, strip_url_schema}

module _ (P : Platform) where
  -- The app after a list of messages.
  unfoldable pub updates : List Message → App → App
  updates [] app = app
  updates (m ∷ ms) app = updates ms (update P m app).0

  -- Messages of the progress of one folder, one for each pair of numbers.
  abbrev pub progress : Uuid → List (ℕ × ℕ) → List Message
  progress id [] = []
  progress id ((done, total) ∷ more) =
      Message.daemon_event (DaemonEvent.sync_progress id done total) ∷ progress id more

  on_finished-id : (errors : List String) (f : FolderView) → (on_finished errors f).id ≡ f.id
  on_finished-id [] f = refl
  on_finished-id (e ∷ errors) f = refl

  on_finished-absorbs :
      (errors errors' : List String) (status : FolderStatus) (progress : Option (ℕ × ℕ))
      (f : FolderView)
      → on_finished errors (record f { status = status; progress = progress; errors = errors' })
        ≡ on_finished errors f
  on_finished-absorbs [] errors' status progress f = refl
  on_finished-absorbs (e ∷ errors) errors' status progress f = refl

  finished-progress :
      (id : Uuid) (errors : List String) (report : Option SyncReport) (steps : List (ℕ × ℕ))
      (app : App)
      → handle_daemon_event
          (DaemonEvent.sync_finished id errors report)
          (updates (progress id steps) app)
        ≡ handle_daemon_event (DaemonEvent.sync_finished id errors report) app
  unfolding updates update handle_daemon_event
  finished-progress id errors report [] app = refl
  finished-progress id errors report ((done, total) ∷ more) app =
      finished-progress id errors report more (record app {
        accounts = update_folder id (λ f. record f { progress = some (done, total) }) app.accounts;
      })
      ∙ ap (λ accounts. record app { accounts = accounts })
          (update_folder-update_folder id (on_finished errors)
              (λ f. record f { progress = some (done, total) }) (λ f. refl) app.accounts
            ∙ ap (λ (g : FolderView → FolderView). update_folder id g app.accounts)
                (fun_ext
                  (λ f. on_finished-absorbs errors f.errors f.status (some (done, total)) f)))

  -- The folder as its last sync left it: idle, or in error with the errors, and without a progress.
  abbrev pub shown : List String → FolderView → FolderView
  shown [] f = record f { progress = none; status = FolderStatus.idle; errors = [] }
  shown (e ∷ errors) f = record f {
    progress = none;
    status = FolderStatus.error;
    errors = e ∷ errors;
  }

  on_finished-shown :
      (errors : List String) (f : FolderView) → on_finished errors f ≡ shown errors f
  on_finished-shown [] f = refl
  on_finished-shown (e ∷ errors) f = refl

  -- When the daemon has reported the start of a sync, any progress and its end, the window shows the
  -- folder as it was, but idle and without errors if none was reported, or else in error with the
  -- reported ones, and without a progress. No other folder is changed.
  pub sync-shown :
      (j id : Uuid) (errors : List String) (report : Option SyncReport) (steps : List (ℕ × ℕ))
      (app : App)
      → find_folder j
          (handle_daemon_event (DaemonEvent.sync_finished id errors report) (
            updates
              (Message.daemon_event (DaemonEvent.sync_started id) ∷ progress id steps)
              app)).accounts
        ≡ (if j == id
            then map_some (shown errors) (find_folder j app.accounts)
            else find_folder j app.accounts)
  unfolding updates update handle_daemon_event changed
  sync-shown j id errors report steps app =
      let started = handle_daemon_event (DaemonEvent.sync_started id) app in
      ap (λ (a : App). find_folder j a.accounts) (finished-progress id errors report steps started)
      ∙ ap (find_folder j) (
          update_folder-update_folder id (on_finished errors)
            (λ f. record f { status = FolderStatus.syncing; errors = [] }) (λ f. refl) app.accounts
          ∙ ap (λ (g : FolderView → FolderView). update_folder id g app.accounts)
              (fun_ext (λ f. on_finished-absorbs errors [] FolderStatus.syncing f.progress f)))
      ∙ find_folder-update_folder id (on_finished errors) j (on_finished-id errors) app.accounts
      ∙ ap
          (λ (g : FolderView → FolderView).
            if j == id then map_some g (find_folder j app.accounts) else find_folder j app.accounts)
          (fun_ext (on_finished-shown errors))

  -- The messages of the wizard that chooses the spaces of a new account.
  abbrev pub wizard : Uuid → List Ipc.SpaceInfo → String → List Message
  wizard id spaces root =
      Message.daemon_event (DaemonEvent.spaces_listed id spaces)
      ∷ Message.pick_spaces_next id
      ∷ Message.pick_root_folder_picked (some root)
      ∷ Message.pick_root_folder_submit id
      ∷ []

  abbrev personal : List SpaceInfo → List String
  personal spaces =
      map (λ (s : SpaceInfo). s.id) (keep (λ (s : SpaceInfo). s.drive_type == "personal") spaces)

  -- A URL that is sent to the daemon, and that the daemon refuses, is back in the form with the reason.
  pub add_account-refused :
      (url : String) (error : Option String) (id : Uuid) (reason : String) (n : ℕ) (app : App)
      → app.active_view ≡ View.add_account url error
      → is_empty (strip_url_schema (P.trim url)) ≡ false
      → app.daemon.room ≡ suc n
      → let after =
          updates
            (Message.add_account_submit
              ∷ Message.daemon_event (DaemonEvent.account_add_failed id reason)
              ∷ [])
            app in
        (after.active_view ≡ View.add_account (strip_url_schema (P.trim url)) (some reason))
        × (after.daemon.sent
            ≡ app.daemon.sent ++ DaemonCommand.add_account (strip_url_schema (P.trim url)) ∷ [])
  unfolding updates update handle_daemon_event try_send
  add_account-refused url error id reason n app view filled room =
      rw (view, filled, room) (refl, refl)

  find_account-keep :
      (j id : Uuid) (accounts : List AccountView)
      → find_account j (keep (λ (a : AccountView). a.id != id) accounts)
        ≡ (if j == id then none else find_account j accounts)
  find_account-keep j id [] = ground arith
  find_account-keep j id (a ∷ accounts) = ground (arith, find_account-keep j id accounts)

  -- A removed account is gone from the window whether the command could be sent or not, and every other
  -- account is as before.
  pub remove_account-find_account :
      (j id : Uuid) (app : App)
      → find_account j (update P (Message.remove_account id) app).0.accounts
        ≡ (if j == id then none else find_account j app.accounts)
  unfolding update send
  remove_account-find_account j id app = find_account-keep j id app.accounts
