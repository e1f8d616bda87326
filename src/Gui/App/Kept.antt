-- ===== src/Gui/App/Kept.antt =====
-- crates/gui/src/app.rs: the helpers of `update` that follow the active view, and what they leave alone.
use owncloud_sync_client.Common.{
  ℕ, ◌≡◌, refl, Bool, Option, none, some, List, [], ◌∷◌, Bool-cases, inl, inr, String,
}
use owncloud_sync_client.Common.Texts
use owncloud_sync_client.SyncEngine.Types.{Uuid}
use owncloud_sync_client.Gui.Model.{SpaceInfo, FolderView, AccountView, View, App, send}
use owncloud_sync_client.Gui.App.{
  close_window, submit_root, submit_url, on_submit, on_next, Platform, send_spaces,
}

abbrev pub kept : App → List AccountView × (Bool × (Bool × Option Bool))
kept app = (app.accounts, (app.daemon_connecting, (app.daemon_running, app.tray)))

send_spaces-kept :
    (id : Uuid) (root : String) (spaces : List SpaceInfo) (app : App)
    → kept (send_spaces id root spaces app) ≡ kept app
unfolding send_spaces send
send_spaces-kept id root [] app = refl
send_spaces-kept id root (s ∷ spaces) app = send_spaces-kept id root spaces (send _ app)

pub close_window-kept :
    (id : ℕ) (tray : Option Bool) (app : App) → kept (close_window id tray app).0 ≡ kept app
close_window-kept id none app = refl
close_window-kept id (some shown) app = refl

pub submit_root-kept :
    (id : Uuid) (view : View) (app : App) → kept (submit_root id view app) ≡ kept app
unfolding send
submit_root-kept id (View.pick_root_folder account spaces (some root) error) app = refl
submit_root-kept id (View.pick_root_folder account spaces none error) app = refl
submit_root-kept id View.sync_status app = refl
submit_root-kept id (View.account_settings account) app = refl
submit_root-kept id (View.add_account url error) app = refl
submit_root-kept id (View.add_account_waiting account url) app = refl
submit_root-kept id (View.pick_spaces account spaces selected error) app = refl
submit_root-kept id View.general_settings app = refl
submit_root-kept id (View.folder_errors account folder) app = refl
submit_root-kept id View.about app = refl

module _ (P : Platform) where
  submit_url-kept :
      (url : String) (error : Option String) (app : App)
      → kept (submit_url P url error app) ≡ kept app
  submit_url-kept url error app = elim (Bool-cases (Texts.is_empty url)) [
    | inl e ↦ rw e refl
    | inr e ↦ rw e refl
  ]

  pub on_submit-kept : (view : View) (app : App) → kept (on_submit P view app) ≡ kept app
  on_submit-kept (View.add_account url error) app = submit_url-kept _ error app
  on_submit-kept View.sync_status app = refl
  on_submit-kept (View.account_settings account) app = refl
  on_submit-kept (View.add_account_waiting account url) app = refl
  on_submit-kept (View.pick_spaces account spaces selected error) app = refl
  on_submit-kept (View.pick_root_folder account spaces path error) app = refl
  on_submit-kept View.general_settings app = refl
  on_submit-kept (View.folder_errors account folder) app = refl
  on_submit-kept View.about app = refl

  pub on_next-kept :
      (id : Uuid) (folders : List FolderView) (view : View) (app : App)
      → kept (on_next P id folders view app) ≡ kept app
  on_next-kept id [] (View.pick_spaces account spaces selected error) app = refl
  on_next-kept id (f ∷ folders) (View.pick_spaces account spaces selected error) app =
      send_spaces-kept id _ _ app
  on_next-kept id [] View.sync_status app = refl
  on_next-kept id [] (View.account_settings account) app = refl
  on_next-kept id [] (View.add_account url error) app = refl
  on_next-kept id [] (View.add_account_waiting account url) app = refl
  on_next-kept id [] (View.pick_root_folder account spaces path error) app = refl
  on_next-kept id [] View.general_settings app = refl
  on_next-kept id [] (View.folder_errors account folder) app = refl
  on_next-kept id [] View.about app = refl
  on_next-kept id (f ∷ folders) View.sync_status app = refl
  on_next-kept id (f ∷ folders) (View.account_settings account) app = refl
  on_next-kept id (f ∷ folders) (View.add_account url error) app = refl
  on_next-kept id (f ∷ folders) (View.add_account_waiting account url) app = refl
  on_next-kept id (f ∷ folders) (View.pick_root_folder account spaces path error) app = refl
  on_next-kept id (f ∷ folders) View.general_settings app = refl
  on_next-kept id (f ∷ folders) (View.folder_errors account folder) app = refl
  on_next-kept id (f ∷ folders) View.about app = refl
