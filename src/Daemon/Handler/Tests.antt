-- ===== src/Daemon/Handler/Tests.antt =====
-- crates/daemon/src/gui_ipc/handler.rs: commands for one account.
use owncloud_sync_client.Common.{
  ok, ◌≡◌, ◌⊎◌, ◌+◌, refl, none, [], ◌∷◌, string_eq, number_eq, ◌<>◌, err,
}
use owncloud_sync_client.Common.Dict
use owncloud_sync_client.Daemon.Ipc.{DaemonCommand}
use owncloud_sync_client.Daemon.Config.{AccountConfig, ServerType, default_general}
use owncloud_sync_client.Daemon.Scheduler.{ready_to_run, add_folder, request_sync}
use owncloud_sync_client.Daemon.Handler.{
  ShouldQuit, Outside, Context, new_folder, add_space, remove_account, handle_command, register,
  registered, save_config, checked,
}
use owncloud_sync_client.Daemon.Handler.Registered.{add_space-atomic, Added, Failed}

abbrev outside : Outside
outside = record {
  new_v4 = λ n. 100 + n;
  create_dir_all = λ path. none;
  open_folder = λ f a. none;
  save = λ cfg. none;
  join = λ a b. a <> ("/" <> b);
  file_name = λ path. none;
  list_spaces = λ url. err "offline";
}

abbrev account : AccountConfig
account = record {
  id = 1;
  url = "https://c.example";
  user_id = "u";
  username = "u";
  display_name = "U";
  server_type = ServerType.ocis;
  folder = [];
  dismissed_spaces = [];
}

abbrev ctx : Context
ctx = record {
  scheduler = [];
  engines = [];
  config = record { general = default_general; account = account ∷ [] };
  file = none;
  broadcast = [];
  live_folder_ids = [];
  credentials = 1 ∷ [];
  forwarded = [];
  drawn = 0;
}

add_space-atomic_example :
    Added (new_folder 100 "/h/P" "p" "P") account 1 ctx (add_space outside 1 "/h/P" "p" "P" ctx)
    ⊎ Failed 1 ctx (add_space outside 1 "/h/P" "p" "P" ctx)
unfolding number_eq Dict.get
add_space-atomic_example = add_space-atomic outside 1 "/h/P" "p" "P" account ctx refl refl

-- The folder of a removed account is synced on.
removed_test :
    ready_to_run
      (remove_account outside 1
        (handle_command outside
          (λ url c. (ok ShouldQuit.no, c))
          (DaemonCommand.add_account_space 1 "p" "/h/P")
          ctx).1).1.scheduler
    ≡ 100 ∷ []
unfolding handle_command checked add_space register registered save_config remove_account
    ready_to_run add_folder request_sync Dict.get Dict.insert Dict.modify number_eq
removed_test = refl
