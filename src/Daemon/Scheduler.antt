-- ===== src/Daemon/Scheduler.antt =====
-- crates/daemon/src/scheduler.rs: which folders are paused, running, or waiting for a sync.
pub mod Laws
mod Tests
use owncloud_sync_client.Common.{
  String, Bool, true, false, not, ◌&&◌, Option, none, some, List, [], ◌∷◌, keep, number_eq,
  if◌then◌else◌,
}
use owncloud_sync_client.Common.Dict
use owncloud_sync_client.Common.Dict.{Dict}
use owncloud_sync_client.SyncEngine.Types.{Uuid, SystemTime}

pub record FolderScheduleState : Type 0 where
  pub paused : Bool
  pub running : Bool
  pub pending : Bool
  pub last_sync : Option SystemTime

-- `FolderScheduleState::default()`
abbrev pub fresh : FolderScheduleState
fresh = record { paused = false; running = false; pending = false; last_sync = none }

abbrev pub SyncScheduler : Type 0
SyncScheduler = Dict Uuid FolderScheduleState

-- `SyncScheduler::new`
unfoldable pub new_scheduler : List Uuid → SyncScheduler → SyncScheduler
new_scheduler [] folders = folders
new_scheduler (id ∷ ids) folders = new_scheduler ids (Dict.insert id fresh folders)

unfoldable pub add_folder : Uuid → SyncScheduler → SyncScheduler
add_folder id folders = elim (Dict.get id folders) [
  | none ↦ Dict.insert id fresh folders
  | some s ↦ folders
]

abbrev pub requested : FolderScheduleState → FolderScheduleState
requested s = if not s.running && not s.paused then record s { pending = true } else s

unfoldable pub request_sync : Uuid → SyncScheduler → SyncScheduler
request_sync id = Dict.modify id requested

abbrev pub forced : FolderScheduleState → FolderScheduleState
forced s = if not s.paused then record s { pending = true } else s

unfoldable pub force_request_sync : Uuid → SyncScheduler → SyncScheduler
force_request_sync id = Dict.modify id forced

abbrev pub started : FolderScheduleState → FolderScheduleState
started s = record s { running = true; pending = false }

unfoldable pub start_sync : Uuid → SyncScheduler → SyncScheduler
start_sync id = Dict.modify id started

abbrev pub finished : SystemTime → FolderScheduleState → FolderScheduleState
finished now s = record s { running = false; last_sync = some now }

-- `now` is what the clock shows.
unfoldable pub finish_sync : SystemTime → Uuid → SyncScheduler → SyncScheduler
finish_sync now id = Dict.modify id (finished now)

unfoldable pub pause : Uuid → SyncScheduler → SyncScheduler
pause id = Dict.modify id (λ s. record s { paused = true })

unfoldable pub resume : Uuid → SyncScheduler → SyncScheduler
resume id = Dict.modify id (λ s. record s { paused = false })

abbrev pub is_ready : FolderScheduleState → Bool
is_ready s = s.pending && (not s.running && not s.paused)

unfoldable pub ready_to_run : SyncScheduler → List Uuid
ready_to_run folders =
    Dict.keys (keep (λ (entry : Uuid × FolderScheduleState). is_ready entry.1) folders)

unfoldable pub state : Uuid → SyncScheduler → Option FolderScheduleState
state id folders = Dict.get id folders

abbrev status_text : FolderScheduleState → String
status_text s = if s.paused then "paused" else if s.running then "syncing" else "idle"

unfoldable pub folder_status : Uuid → SyncScheduler → Option String
folder_status id folders = Dict.map_some status_text (Dict.get id folders)
