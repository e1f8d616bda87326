-- ===== src/Daemon/Handler.antt =====
-- crates/daemon/src/gui_ipc/handler.rs, `handle_command`: the commands of the GUI. `AddAccount`
-- is a parameter here, and stands in Login.
pub mod Login
pub mod Registered
pub mod Counted
pub mod Accounts
mod Tests
use owncloud_sync_client.Common.{
  ℕ, suc, String, ◌<>◌, Bool, true, false, not, Option, none, some, List, [], ◌∷◌, ◌++◌, map, keep,
  contains, Result, ok, err, ◌==◌, ◌!=◌, string_eq, number_eq, if◌then◌else◌,
}
use owncloud_sync_client.SyncEngine.Types.{Uuid}
use owncloud_sync_client.Daemon.Ipc.{DaemonCommand, DaemonEvent, SpaceSelection, SpaceInfo}
use owncloud_sync_client.Daemon.Config.{
  ServerType, FolderConfig, AccountConfig, AppConfig, find_account, has_account, change_account,
  classic_space_id,
}
use owncloud_sync_client.Daemon.Scheduler.{
  SyncScheduler, add_folder, request_sync, force_request_sync, pause, resume,
}

-- The operations outside: `Uuid::new_v4` for the n-th id, `create_dir_all`, what `FolderManager::add_folder`
-- and the file of the configuration may fail with, paths, and the answer of the Graph API to the URL of
-- a server (an error is its text).
pub record Outside : Type 0 where
  pub new_v4 : ℕ → Uuid
  pub create_dir_all : String → Option String
  pub open_folder : FolderConfig → AccountConfig → Option String
  pub save : AppConfig → Option String
  pub join : String → String → String
  pub file_name : String → Option String
  pub list_spaces : String → Result (List SpaceInfo) String

-- `HandleContext`: `engines` are the folders of the folder manager, `credentials` the accounts with a
-- token manager, `forwarded` the folders whose watcher was handed to the main loop, `file` what the
-- file of the configuration holds, and `drawn` the number of ids made so far.
pub record Context : Type 0 where
  pub scheduler : SyncScheduler
  pub engines : List Uuid
  pub config : AppConfig
  pub file : Option AppConfig
  pub broadcast : List DaemonEvent
  pub live_folder_ids : List Uuid
  pub credentials : List Uuid
  pub forwarded : List Uuid
  pub drawn : ℕ

pub data ShouldQuit : Type 0 where
  yes no : ShouldQuit

abbrev pub emit : DaemonEvent → Context → Context
emit event ctx = record ctx { broadcast = ctx.broadcast ++ event ∷ [] }

abbrev pub space_failed : Uuid → String → Context → Context
space_failed account reason ctx = emit (DaemonEvent.account_space_failed account reason) ctx

abbrev pub push_folder : FolderConfig → AccountConfig → AccountConfig
push_folder f a = record a { folder = a.folder ++ f ∷ [] }

abbrev pub new_folder : Uuid → String → String → String → FolderConfig
new_folder id local_path space_id display_name = record {
  id = id;
  local_path = local_path;
  space_id = space_id;
  display_name = display_name;
  selective_sync_excluded = [];
  vfs_mode = "off";
  paused = false;
}

module _ (O : Outside) where
  abbrev saved : Option String → AppConfig → Context → Context
  saved none cfg ctx = record ctx { file = some cfg }
  saved (some e) cfg ctx = ctx

  -- `cfg.save(config_path)` where a failure is logged.
  unfoldable pub save_config : Context → Context
  save_config ctx = saved (O.save ctx.config) ctx.config ctx

  -- The folder has an engine: it is written down, scheduled and announced.
  unfoldable pub registered : FolderConfig → Uuid → Context → Context
  unfolding save_config add_folder request_sync
  registered f account ctx =
      let written = save_config (record ctx {
        engines = ctx.engines ++ f.id ∷ [];
        config = change_account account (push_folder f) ctx.config;
      }) in
      emit (DaemonEvent.account_folder_added account f.id f.space_id f.local_path f.display_name)
        (record written {
          scheduler = request_sync f.id (add_folder f.id written.scheduler);
          live_folder_ids = written.live_folder_ids ++ f.id ∷ [];
          forwarded = written.forwarded ++ f.id ∷ [];
        })

  abbrev pub opened : Option String → FolderConfig → Uuid → Context → Context
  opened none f account ctx = registered f account ctx
  opened (some e) f account ctx = space_failed account ("failed to register folder: " <> e) ctx

  abbrev pub with_account : Option AccountConfig → FolderConfig → Uuid → Context → Context
  with_account none f account ctx = ctx
  with_account (some a) f account ctx = opened (O.open_folder f a) f account ctx

  -- From the made directory on: a new id, and the engine.
  unfoldable pub register : Uuid → String → String → String → Context → Context
  unfolding registered
  register account local_path space_id display_name ctx =
      with_account (find_account account ctx.config)
        (new_folder (O.new_v4 ctx.drawn) local_path space_id display_name) account
        (record ctx { drawn = suc ctx.drawn })

  abbrev pub on_directory : Option String → Uuid → String → String → String → Context → Context
  on_directory none account local_path space_id display_name ctx =
      register account local_path space_id display_name ctx
  on_directory (some e) account local_path space_id display_name ctx =
      space_failed account ("failed to create folder '" <> (local_path <> ("': " <> e))) ctx

  -- One round of the loop of `SetAccountFolders`, and what `AddAccountSpace` does.
  unfoldable pub add_space : Uuid → String → String → String → Context → Context
  unfolding register
  add_space account local_path space_id display_name ctx =
      on_directory (O.create_dir_all local_path) account local_path space_id display_name ctx

  unfoldable pub add_spaces : Uuid → String → List SpaceSelection → Context → Context
  unfolding add_space
  add_spaces account root [] ctx = ctx
  add_spaces account root (s ∷ selections) ctx =
      add_spaces account root selections
        (add_space account (O.join root s.display_name) s.space_id s.display_name ctx)

  -- The two checks before a folder is made.
  unfoldable pub checked : Uuid → (Context → Context) → Context → Context
  checked account go ctx =
      if has_account account ctx.config
      then (if contains ctx.credentials account
          then go ctx
          else space_failed account "no credentials found for account" ctx)
      else space_failed account "account not found" ctx

  abbrev or_id : String → Option String → String
  or_id id none = id
  or_id id (some name) = name

  abbrev listed : Uuid → Result (List SpaceInfo) String → Context → Context
  listed account (ok spaces) ctx = emit (DaemonEvent.spaces_listed account spaces) ctx
  listed account (err reason) ctx = space_failed account reason ctx

  abbrev pub classic_space : AccountConfig → SpaceInfo
  classic_space a = record { id = classic_space_id; name = a.display_name; drive_type = "personal" }

  abbrev list_for : Uuid → AccountConfig → ServerType → Context → Context
  list_for account a ServerType.classic ctx =
      emit (DaemonEvent.spaces_listed account (classic_space a ∷ [])) ctx
  list_for account a ServerType.ocis ctx =
      if contains ctx.credentials account
      then listed account (O.list_spaces a.url) ctx
      else space_failed account "no credentials found for account" ctx

  abbrev list_account : Uuid → Option AccountConfig → Context → Context
  list_account account none ctx = space_failed account "account not found" ctx
  list_account account (some a) ctx = list_for account a a.server_type ctx

  abbrev pub dismiss : String → AccountConfig → AccountConfig
  dismiss space a =
      if contains a.dismissed_spaces space
      then a
      else record a { dismissed_spaces = a.dismissed_spaces ++ space ∷ [] }

  -- `cfg.save(config_path)?`
  abbrev removed : Uuid → Option String → Context → Result ShouldQuit String × Context
  removed account none ctx = (
    ok ShouldQuit.no,
    emit (DaemonEvent.account_state_changed account "removed")
        (record ctx { file = some ctx.config }),
  )
  removed account (some e) ctx = (err e, ctx)

  unfoldable pub remove_account : Uuid → Context → Result ShouldQuit String × Context
  remove_account account ctx =
      let cfg = record ctx.config {
        account = keep (λ (a : AccountConfig). a.id != account) ctx.config.account;
      } in
      removed account (O.save cfg) (record ctx { config = cfg })

  unfoldable pub dismiss_space : Uuid → String → Context → Context
  unfolding save_config
  dismiss_space account space ctx =
      if has_account account ctx.config
      then save_config (record ctx { config = change_account account (dismiss space) ctx.config })
      else ctx

  -- `AddAccount` is left to `add_account`.
  unfoldable pub handle_command :
      (String → Context → Result ShouldQuit String × Context)
      → DaemonCommand
      → Context
      → Result ShouldQuit String × Context
  unfolding add_space add_spaces checked remove_account dismiss_space force_request_sync pause
      resume
  handle_command add_account DaemonCommand.subscribe ctx = (ok ShouldQuit.no, ctx)
  handle_command add_account (DaemonCommand.trigger_sync id) ctx = (
    ok ShouldQuit.no,
    emit (DaemonEvent.sync_started id)
        (record ctx { scheduler = force_request_sync id ctx.scheduler }),
  )
  handle_command add_account (DaemonCommand.pause_folder id) ctx = (
    ok ShouldQuit.no,
    emit (DaemonEvent.account_state_changed id "paused")
        (record ctx { scheduler = pause id ctx.scheduler }),
  )
  handle_command add_account (DaemonCommand.resume_folder id) ctx = (
    ok ShouldQuit.no,
    emit (DaemonEvent.account_state_changed id "active")
        (record ctx { scheduler = resume id ctx.scheduler }),
  )
  handle_command add_account (DaemonCommand.add_account url) ctx = add_account url ctx
  handle_command add_account (DaemonCommand.remove_account account) ctx = remove_account account ctx
  handle_command add_account (DaemonCommand.list_spaces account) ctx =
      (ok ShouldQuit.no, list_account account (find_account account ctx.config) ctx)
  handle_command add_account (DaemonCommand.set_account_folders account root spaces) ctx =
      (ok ShouldQuit.no, checked account (add_spaces account root spaces) ctx)
  handle_command add_account (DaemonCommand.add_account_space account space local_path) ctx = (
    ok ShouldQuit.no,
    checked account (add_space account local_path space (or_id space (O.file_name local_path))) ctx,
  )
  handle_command add_account (DaemonCommand.dismiss_space account space) ctx =
      (ok ShouldQuit.no, dismiss_space account space ctx)
  handle_command add_account DaemonCommand.quit ctx = (ok ShouldQuit.yes, ctx)
