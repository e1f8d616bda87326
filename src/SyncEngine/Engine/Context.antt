-- ===== src/SyncEngine/Engine/Context.antt =====
-- What the phases of `run_sync` share: the configuration, the state that they change, and the
-- discovery phase behind its interface.
use owncloud_sync_client.Common.{ℕ, String, Bool, Option, none, some, List, [], Result}
use owncloud_sync_client.Common.Int.{ℤ, pos}
use owncloud_sync_client.SyncDb.Models.{JournalEntry}
use owncloud_sync_client.SyncDb.Db.{SyncJournalDb, upsert_entry, delete_entry}
use owncloud_sync_client.SyncEngine.Types.{
  FilePath, Uuid, LocalEntry, RemoteEntry, SyncInstruction, ConflictStrategy, SyncError, HttpEvent,
}
use owncloud_sync_client.SyncEngine.State.{
  SyncState, FileStatus, set_file_status, clear_file_status,
}
use owncloud_sync_client.SyncEngine.Host.{Host, Net, Exec}

-- One entry of `instructions`.
pub record Planned : Type 0 where
  pub path : FilePath
  pub instruction : SyncInstruction
  pub rem : Option RemoteEntry
  pub is_dir : Bool

-- The row that a completed instruction writes.
abbrev pub synced_entry : FilePath → String → ℤ → Option String → JournalEntry
synced_entry path etag size file_id = record {
  path = path;
  etag = some etag;
  mtime = none;
  size = some size;
  inode = none;
  file_id = file_id;
  checksum = none;
  is_virtual = pos 0;
}

-- `rem_entry.as_ref().map(|r| r.file_id.clone())`
abbrev pub remote_id : Option RemoteEntry → Option String
remote_id none = none
remote_id (some r) = some r.file_id

module _ (H : Host) where
  -- `db` and `token_manager` are in the state below and in `Discovery`. The number of permits for
  -- transfers only bounds how many tasks run at once.
  pub record EngineConfig : Type 0 where
    pub folder_id : Uuid
    pub local_root : FilePath
    pub space_root : H.Url
    pub conflict_strategy : ConflictStrategy
    pub tus_threshold : ℕ

  -- A file instruction with its URL: what a spawned task owns.
  pub record Job : Type 0 where
    pub item : Planned
    pub remote_url : H.Url

  -- Phase 1, and the orders that the code leaves open: that of a `HashSet`, and that in which the
  -- spawned tasks run.
  pub record Discovery : Type 0 where
    pub get_valid_token : H.World → Result String String × H.World
    pub discover_local : FilePath → H.World → Result (List LocalEntry) SyncError × H.World
    pub discover_remote : H.Url → String → Exec H (List RemoteEntry)
    pub hash_order : List FilePath → List FilePath
    pub task_order : List Job → List Job

  pub record EngineState : Type 0 where
    pub state : SyncState
    pub db : SyncJournalDb
    pub world : H.World

  -- `s.set_file_status(path, status)` under the write lock
  abbrev pub mark : FilePath → FileStatus → EngineState → EngineState
  mark path status st = record st { state = set_file_status path status st.state }

  abbrev pub unmark : FilePath → EngineState → EngineState
  unmark path st = record st { state = clear_file_status path st.state }

  -- `let _ = db.upsert_entry(..)`: what SQLite answers is dropped.
  unfoldable pub save_entry : JournalEntry → EngineState → EngineState
  save_entry entry st =
      let (fault, w) = H.statement st.world in
      record st { db = (upsert_entry fault st.db entry).1; world = w }

  unfoldable pub drop_entry : FilePath → EngineState → EngineState
  drop_entry path st =
      let (fault, w) = H.statement st.world in
      record st { db = (delete_entry fault st.db path).1; world = w }

  abbrev resume :
      {A : Type 0}
      → EngineState
      → Result A SyncError × Net H
      → Result A SyncError × List HttpEvent × EngineState
  resume st (r, n) = (r, n.events, record st { world = n.world })

  -- A call of a propagation function, with a list of events of its own.
  unfoldable pub call :
      {A : Type 0} → Exec H A → EngineState → Result A SyncError × List HttpEvent × EngineState
  call m st = resume st (m (record { world = st.world; events = [] }))
