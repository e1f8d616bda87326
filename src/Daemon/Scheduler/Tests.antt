-- ===== src/Daemon/Scheduler/Tests.antt =====
-- The theorems of the scheduler at one folder.
use owncloud_sync_client.Common.{◌≡◌, refl, true, false, none, some, [], ◌∷◌, number_eq}
use owncloud_sync_client.Common.Dict
use owncloud_sync_client.Daemon.Scheduler.{
  FolderScheduleState, SyncScheduler, force_request_sync, finish_sync,
}
use owncloud_sync_client.Daemon.Scheduler.Laws.{ready, force_request_sync-kept}

abbrev busy : FolderScheduleState
busy = record { paused = false; running = true; pending = false; last_sync = none }

abbrev folders : SyncScheduler
folders = (1, busy) ∷ []

busy_found : Dict.get 1 folders ≡ some busy
unfolding Dict.get number_eq
busy_found = refl

force_request_sync-kept_example :
    ready (Dict.get 1 (finish_sync 9 1 (force_request_sync 1 folders))) ≡ 1
force_request_sync-kept_example = force_request_sync-kept 1 folders busy 9 busy_found refl
