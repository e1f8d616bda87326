-- ===== src/SocketApi/StatusResolver/Tests.antt =====
-- A folder with three files, and a folder inside another one.
use owncloud_sync_client.Common.{
  ◌≡◌, refl, none, some, [], ◌∷◌, string_eq, number_eq, if◌then◌else◌,
}
use owncloud_sync_client.Common.Texts
use owncloud_sync_client.SyncEngine.State.{FolderStatus, FileStatus, SyncState}
use owncloud_sync_client.Common.Dict
use owncloud_sync_client.SocketApi.StatusResolver.{
  Paths, StatusResolver, find_folder_for_path, state_for_path, longest, resolve_folder,
}
use owncloud_sync_client.SocketApi.StatusResolver.Laws.{IsWorst, resolve_folder-IsWorst}
use owncloud_sync_client.SocketApi.StatusResolver.Roots.{IsNearest, find_folder_for_path-IsNearest}

-- Paths as texts that end with a slash, of which the longer one is twice as long here.
abbrev paths : Paths
paths = record {
  starts_with = Texts.starts_with;
  len = λ path. if Texts.starts_with path "/home/sub/" then 10 else 6;
}

abbrev folder : SyncState
folder = record {
  folder_id = 2;
  status = FolderStatus.idle;
  file_statuses =
      ("/home/sub/a", FileStatus.ok)
      ∷ ("/home/sub/b", FileStatus.error "HTTP 500")
      ∷ ("/home/sub/c", FileStatus.syncing)
      ∷ [];
  last_sync = none;
  errors = [];
}

abbrev resolver : StatusResolver
resolver = record {
  sync_states = (2, folder) ∷ [];
  folder_roots = ("/home/", 1) ∷ ("/home/sub/", 2) ∷ [];
}

inner : find_folder_for_path paths resolver "/home/sub/" ≡ some 2
unfolding find_folder_for_path longest Texts.starts_with number_eq
inner = refl

known : state_for_path paths resolver "/home/sub/" ≡ some folder
unfolding state_for_path find_folder_for_path longest Texts.starts_with Dict.get number_eq
known = refl

find_folder_for_path-IsNearest_example : IsNearest paths resolver "/home/sub/" 2
find_folder_for_path-IsNearest_example =
    find_folder_for_path-IsNearest paths resolver "/home/sub/" 2 inner

resolve_folder-IsWorst_example :
    IsWorst paths "/home/sub/" (resolve_folder paths resolver "/home/sub/") folder.file_statuses
resolve_folder-IsWorst_example = resolve_folder-IsWorst paths resolver "/home/sub/" folder known
