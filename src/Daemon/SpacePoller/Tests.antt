-- ===== src/Daemon/SpacePoller/Tests.antt =====
-- crates/daemon/src/space_poller.rs: a space that appears, and one that goes.
use owncloud_sync_client.Common.{
  err, ◌≡◌, ◌≤◌, ◌+◌, refl, true, false, none, some, List, [], ◌∷◌, string_eq, number_eq,
}
use owncloud_sync_client.Daemon.Config.{AccountConfig, ServerType, default_general, find_account}
use owncloud_sync_client.Daemon.SpacePoller.{
  Space, Poller, Paths, poll_once, announce, announce_one, forget, remove_folders, suggested_root,
}
use owncloud_sync_client.Daemon.SpacePoller.Announced.{
  Poll, polls, announcements, polls-announcements,
}
use owncloud_sync_client.Daemon.SpacePoller.Removed.{has_folder, poll_once-has_folder}
use owncloud_sync_client.Daemon.Handler.{Outside, Context, dismiss_space}
use owncloud_sync_client.Daemon.SpacePoller.Dismissed.{poll_once-dismissed}

abbrev paths : Paths
paths = record { parent = λ path. none; home_dir = some "/h" }

abbrev account : AccountConfig
account = record {
  id = 1;
  url = "https://c.example";
  user_id = "u";
  username = "u";
  display_name = "U";
  server_type = ServerType.ocis;
  folder =
      record {
        id = 7;
        local_path = "/h/Old";
        space_id = "old";
        display_name = "Old";
        selective_sync_excluded = [];
        vfs_mode = "off";
        paused = false;
      }
      ∷ [];
  dismissed_spaces = [];
}

abbrev poller : Poller
poller = record {
  account_id = 1;
  emitted_discoveries = [];
  config = record { general = default_general; account = account ∷ [] };
  broadcast = [];
}

abbrev answer : List Space
answer = record { id = "new"; name = "New"; drive_type = "project" } ∷ []

abbrev poll : Poll paths "new"
poll = record { before = λ cfg. cfg; list_spaces = λ url. some answer; between = λ cfg. cfg }

poll_once-has_folder_example :
    has_folder 7 (find_account 1 (poll_once paths (λ url. some answer) (λ cfg. cfg) poller).config)
    ≡ false
unfolding string_eq number_eq
poll_once-has_folder_example =
    poll_once-has_folder paths 1 7 answer account (λ url. some answer) (λ cfg. cfg) poller refl refl

polls-announcements_example :
    (announcements "new" (polls paths "new" (poll ∷ poll ∷ []) poller) ≤ 0 + 1)
    × (false ≡ true → announcements "new" (polls paths "new" (poll ∷ poll ∷ []) poller) ≤ 0)
unfolding poll_once announce announce_one forget remove_folders suggested_root string_eq number_eq
polls-announcements_example =
    polls-announcements paths "new" (poll ∷ poll ∷ []) poller ((refl, refl), ((refl, refl), tt))

abbrev outside : Outside
outside = record {
  new_v4 = λ n. n;
  create_dir_all = λ path. none;
  open_folder = λ f a. none;
  save = λ cfg. none;
  join = λ a b. b;
  file_name = λ path. none;
  list_spaces = λ url. err "offline";
}

abbrev ctx : Context
ctx = record {
  scheduler = [];
  engines = [];
  config = poller.config;
  file = none;
  broadcast = [];
  live_folder_ids = [];
  credentials = [];
  forwarded = [];
  drawn = 0;
}

poll_once-dismissed_example :
    announcements "new" (
      poll_once paths
        (λ url. some answer)
        (λ cfg. cfg)
        (record poller { config = (dismiss_space outside 1 "new" ctx).config }))
    ≡ 0
unfolding number_eq
poll_once-dismissed_example =
    poll_once-dismissed paths "new" outside account ctx (λ url. some answer) (λ cfg. cfg) poller
      refl
