-- ===== src/Daemon/MainLoop/Tests.antt =====
-- Runs of the main loop with two folders.
use owncloud_sync_client.Common.{
  ◌≤◌, ◌≡◌, refl, true, false, none, List, [], ◌∷◌, err, number_eq, arith,
}
use owncloud_sync_client.Common.Dict
use owncloud_sync_client.SyncEngine.Types.{cancelled}
use owncloud_sync_client.Daemon.Scheduler.Laws.{occurrences, running}
use owncloud_sync_client.Daemon.MainLoop.{
  Daemon, Input, step, spawn_ready, start_all, drain, due, on_task_end, remove_first, on_tick, boot,
  run,
}
use owncloud_sync_client.Daemon.Scheduler.{
  new_scheduler, ready_to_run, start_sync, finish_sync, force_request_sync,
}
use owncloud_sync_client.Daemon.MainLoop.Laws.{run-exclusive}
use owncloud_sync_client.Daemon.MainLoop.InProgress.{run-in_progress}
use owncloud_sync_client.Daemon.MainLoop.Starts.{on_tick-starts}

-- Folder 1 is triggered again while it runs, and starts again when its first sync has ended.
abbrev inputs : List Input
inputs =
    Input.trigger_sync 1
    ∷ Input.tick 0
    ∷ Input.trigger_sync 1
    ∷ Input.tick 100
    ∷ Input.task_end 1 (err cancelled) 5 7
    ∷ Input.tick 200
    ∷ []

run-exclusive_example : occurrences 1 (run inputs (boot (1 ∷ 2 ∷ []) (1 ∷ 2 ∷ []))).tasks ≤ 1
run-exclusive_example = run-exclusive (1 ∷ 2 ∷ []) (1 ∷ 2 ∷ []) inputs 1

abbrev waiting : Daemon
waiting = record {
  scheduler =
      (1, record { paused = false; running = false; pending = true; last_sync = none }) ∷ [];
  debounce_map = [];
  engines = 1 ∷ [];
  tasks = [];
  broadcast = [];
}

on_tick-starts_example : occurrences 1 (on_tick 0 waiting).tasks ≡ 1
unfolding Dict.get number_eq
on_tick-starts_example = on_tick-starts 0 waiting 1 (λ id. ground arith)

abbrev ended : Daemon
ended = run inputs (boot (1 ∷ 2 ∷ []) (1 ∷ 2 ∷ []))

run-in_progress_example : occurrences 1 ended.tasks ≡ running (Dict.get 1 ended.scheduler)
run-in_progress_example = run-in_progress (1 ∷ 2 ∷ []) inputs 1

-- Folder 1 runs again at the end.
runs_again : occurrences 1 ended.tasks ≡ 1
unfolding run step boot new_scheduler Dict.insert on_tick spawn_ready ready_to_run start_all
    start_sync drain due on_task_end remove_first finish_sync force_request_sync Dict.modify
    number_eq
runs_again = refl
