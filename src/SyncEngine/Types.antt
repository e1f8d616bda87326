-- ===== src/SyncEngine/Types.antt =====
-- crates/sync-engine/src/types.rs, error.rs and report.rs: the data that the phases exchange.
use owncloud_sync_client.Common.{ℕ, String, ◌<>◌, Bool, List}
use owncloud_sync_client.Common.Texts.{show_number}

-- `Utf8PathBuf`
abbrev pub FilePath : Type 0
FilePath = String

-- `Uuid`, of which the code uses only equality.
abbrev pub Uuid : Type 0
Uuid = ℕ

-- `SystemTime`, in seconds since the epoch.
abbrev pub SystemTime : Type 0
SystemTime = ℕ

pub record LocalEntry : Type 0 where
  pub path : FilePath
  pub mtime : SystemTime
  pub size : ℕ
  pub inode : ℕ
  pub is_virtual : Bool
  pub is_dir : Bool

pub record RemoteEntry : Type 0 where
  pub path : FilePath
  pub etag : String
  pub mtime : SystemTime
  pub size : ℕ
  pub file_id : String
  pub permissions : ℕ
  pub is_dir : Bool

pub data SyncInstruction : Type 0 where
  upload download delete_local delete_remote : SyncInstruction
  rename_local rename_remote : FilePath → SyncInstruction
  conflict update_metadata ignore : SyncInstruction

pub data ConflictStrategy : Type 0 where
  keep_both keep_remote keep_local : ConflictStrategy

-- `std::io::Error`: whether its kind is `NotFound`, and its message.
pub record IoError : Type 0 where
  pub not_found : Bool
  pub message : String

pub data SyncError : Type 0 where
  http : ℕ → String → SyncError
  io : IoError → SyncError
  db : String → SyncError
  vfs : String → SyncError
  parse : String → SyncError
  conflicted : FilePath → SyncError
  cancelled : SyncError
  auth : String → SyncError

-- `SyncError::to_string`
unfoldable pub error_text : SyncError → String
error_text (http status message) = "HTTP " <> (show_number status <> (": " <> message))
error_text (io e) = "I/O error: " <> e.message
error_text (db e) = "Database error: " <> e
error_text (vfs e) = "VFS error: " <> e
error_text (parse e) = "Parse error: " <> e
error_text (conflicted path) = "Conflict at path: " <> path
error_text cancelled = "Sync cancelled"
error_text (auth e) = "Auth error: " <> e

pub record HttpEvent : Type 0 where
  pub method : String
  pub url : String
  pub status : ℕ
  pub duration_ms : ℕ
  pub bytes : ℕ

pub record SyncReport : Type 0 where
  pub folder_id : Uuid
  pub remote_entries : ℕ
  pub local_entries : ℕ
  pub downloads : ℕ
  pub uploads : ℕ
  pub conflicts : ℕ
  pub deletes_local : ℕ
  pub deletes_remote : ℕ
  pub ignored : ℕ
  pub errors : List String
  pub http_events : List HttpEvent
  pub duration_ms : ℕ
