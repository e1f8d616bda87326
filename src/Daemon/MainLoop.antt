-- ===== src/Daemon/MainLoop.antt =====
-- crates/daemon/src/main.rs: the main loop, and the commands of crates/daemon/src/gui_ipc/handler.rs
-- that reach the scheduler. The branches of the `select!` are inputs, in the order in which they come;
-- the end of a spawned sync is an input too.
pub mod Exclusive
pub mod Laws
pub mod Starts
pub mod Exact
pub mod InProgress
mod Tests
use owncloud_sync_client.Common.{
  ℕ, ◌+◌, some, String, Bool, true, false, List, [], ◌∷◌, ◌++◌, Result, ok, err, keep, contains,
  leb, number_eq, map, ◌==◌, if◌then◌else◌,
}
use owncloud_sync_client.Common.Dict
use owncloud_sync_client.Common.Dict.{Dict}
use owncloud_sync_client.SyncEngine.Types.{Uuid, SystemTime, SyncError, SyncReport, error_text}
use owncloud_sync_client.Daemon.Ipc.{DaemonEvent}
use owncloud_sync_client.Daemon.Scheduler.{
  SyncScheduler, new_scheduler, add_folder, request_sync, force_request_sync, start_sync,
  finish_sync, pause, resume, ready_to_run,
}

-- `engines` are the folders for which `folder_manager.get_engine` gives an engine, `tasks` the folders
-- of the spawned syncs that have not ended, and `broadcast` the events sent so far.
pub record Daemon : Type 0 where
  pub scheduler : SyncScheduler
  pub debounce_map : Dict Uuid ℕ
  pub engines : List Uuid
  pub tasks : List Uuid
  pub broadcast : List DaemonEvent

pub data Input : Type 0 where
  trigger_sync pause_folder resume_folder folder_added : Uuid → Input
  -- `poll_rx`, and the watcher's event at a time in milliseconds
  poll : Uuid → Input
  watch : Uuid → ℕ → Input
  -- `scheduler_tick` at a time
  tick : ℕ → Input
  -- the end of a spawned sync: its result, its duration and the clock
  task_end : Uuid → Result SyncReport SyncError → ℕ → SystemTime → Input

abbrev pub with_scheduler : (SyncScheduler → SyncScheduler) → Daemon → Daemon
with_scheduler f d = record d { scheduler = f d.scheduler }

abbrev send : DaemonEvent → Daemon → Daemon
send event d = record d { broadcast = d.broadcast ++ event ∷ [] }

-- `for &folder_id in &ids { sched.start_sync(folder_id); }`
unfoldable pub start_all : List Uuid → SyncScheduler → SyncScheduler
start_all [] folders = folders
start_all (id ∷ ids) folders = start_all ids (start_sync id folders)

-- The folders whose deadline has passed.
unfoldable pub due : ℕ → Dict Uuid ℕ → List Uuid
due now deadlines = Dict.keys (keep (λ (entry : Uuid × ℕ). leb entry.1 now) deadlines)

unfoldable pub drain : List Uuid → Daemon → Daemon
drain [] d = d
drain (id ∷ ids) d = drain ids (record d {
  debounce_map = Dict.remove id d.debounce_map;
  scheduler = request_sync id d.scheduler;
})

-- A task is spawned for every started folder, and goes on only if the folder has an engine.
unfoldable pub spawn_ready : List Uuid → Daemon → Daemon
spawn_ready ids d = record d {
  scheduler = start_all ids d.scheduler;
  tasks = d.tasks ++ keep (λ id. contains d.engines id) ids;
  broadcast = d.broadcast ++ map DaemonEvent.sync_started ids;
}

unfoldable pub on_tick : ℕ → Daemon → Daemon
unfolding spawn_ready drain
on_tick now d = drain (due now d.debounce_map) (spawn_ready (ready_to_run d.scheduler) d)

-- The report that stands for a sync that returned an error.
unfoldable pub partial : Uuid → String → ℕ → SyncReport
partial folder_id err_str duration_ms = record {
  folder_id = folder_id;
  remote_entries = 0;
  local_entries = 0;
  downloads = 0;
  uploads = 0;
  conflicts = 0;
  deletes_local = 0;
  deletes_remote = 0;
  ignored = 0;
  errors = err_str ∷ [];
  http_events = [];
  duration_ms = duration_ms;
}

unfoldable pub outcome : Uuid → Result SyncReport SyncError → ℕ → List String × SyncReport
outcome folder_id (ok r) duration_ms = ([], r)
outcome folder_id (err e) duration_ms =
    (error_text e ∷ [], partial folder_id (error_text e) duration_ms)

unfoldable pub remove_first : Uuid → List Uuid → List Uuid
remove_first id [] = []
remove_first id (x ∷ xs) = if x == id then xs else x ∷ remove_first id xs

unfoldable pub on_task_end : Uuid → Result SyncReport SyncError → ℕ → SystemTime → Daemon → Daemon
unfolding outcome
on_task_end id r duration_ms now d =
    let (errors, report) = outcome id r duration_ms in
    if contains d.tasks id
    then record d {
      scheduler = finish_sync now id d.scheduler;
      tasks = remove_first id d.tasks;
      broadcast = d.broadcast ++ DaemonEvent.sync_finished id errors (some report) ∷ [];
    }
    else d

-- A task that does not run does not end: that input changes nothing.
unfoldable pub step : Input → Daemon → Daemon
step (Input.trigger_sync id) d =
    send (DaemonEvent.sync_started id) (with_scheduler (force_request_sync id) d)
step (Input.pause_folder id) d =
    send (DaemonEvent.account_state_changed id "paused") (with_scheduler (pause id) d)
step (Input.resume_folder id) d =
    send (DaemonEvent.account_state_changed id "active") (with_scheduler (resume id) d)
step (Input.folder_added id) d = record d {
  engines = id ∷ d.engines;
  scheduler = request_sync id (add_folder id d.scheduler);
}
step (Input.poll id) d = with_scheduler (request_sync id) d
step (Input.watch id now) d = record d { debounce_map = Dict.insert id (now + 500) d.debounce_map }
step (Input.tick now) d = on_tick now d
step (Input.task_end id r duration_ms now) d = on_task_end id r duration_ms now d

-- The daemon when its loop starts.
unfoldable pub boot : List Uuid → List Uuid → Daemon
boot ids engines = record {
  scheduler = new_scheduler ids [];
  debounce_map = [];
  engines = engines;
  tasks = [];
  broadcast = [];
}

unfoldable pub run : List Input → Daemon → Daemon
run [] d = d
run (input ∷ inputs) d = run inputs (step input d)
