-- ===== src/SyncEngine/State.antt =====
-- crates/sync-engine/src/state.rs: the state of one folder, as the UI layer reads it.
use owncloud_sync_client.Common.{String, Option, none, some, List, [], ◌∷◌, ◌++◌, string_eq}
use owncloud_sync_client.Common.Dict
use owncloud_sync_client.Common.Dict.{Dict}
use owncloud_sync_client.SyncEngine.Types.{FilePath, Uuid, SystemTime, SyncError}

pub data FolderStatus : Type 0 where
  idle syncing error : FolderStatus

pub data FileStatus : Type 0 where
  ok syncing : FileStatus
  error : String → FileStatus
  excluded : FileStatus

pub record SyncState : Type 0 where
  pub folder_id : Uuid
  pub status : FolderStatus
  pub file_statuses : Dict FilePath FileStatus
  pub last_sync : Option SystemTime
  pub errors : List SyncError

-- `SyncState::new`
unfoldable pub new : Uuid → SyncState
new folder_id = record {
  folder_id = folder_id;
  status = FolderStatus.idle;
  file_statuses = [];
  last_sync = none;
  errors = [];
}

unfoldable pub set_file_status : FilePath → FileStatus → SyncState → SyncState
set_file_status path status s = record s { file_statuses = Dict.insert path status s.file_statuses }

unfoldable pub clear_file_status : FilePath → SyncState → SyncState
clear_file_status path s = record s { file_statuses = Dict.remove path s.file_statuses }

unfoldable pub record_error : SyncError → SyncState → SyncState
record_error e s = record s { status = FolderStatus.error; errors = s.errors ++ e ∷ [] }

-- `now` is what the clock shows.
unfoldable pub mark_complete : SystemTime → SyncState → SyncState
mark_complete now s = record s { status = FolderStatus.idle; last_sync = some now }
