-- ===== src/Daemon/MainLoop/Laws.antt =====
-- crates/daemon/src/main.rs: the number of syncs of a folder, through the inputs of the loop.
use owncloud_sync_client.Common.{
  ℕ, ◌≤◌, refl, sym, List, [], ◌∷◌, Result, keep, contains, number_eq, Bool-cases, inl, inr, arith,
}
use owncloud_sync_client.Common.Dict
use owncloud_sync_client.Common.Dict.{Dict}
use owncloud_sync_client.SyncEngine.Types.{Uuid, SystemTime, SyncReport, SyncError}
use owncloud_sync_client.Daemon.Scheduler.{
  forced, finished, SyncScheduler, add_folder, force_request_sync, finish_sync, pause, resume,
  ready_to_run,
}
use owncloud_sync_client.Daemon.Scheduler.Laws.{
  occurrences, ready_to_run-exact, modify-IsDistinct, add_folder-IsDistinct,
  new_scheduler-IsDistinct,
}
use owncloud_sync_client.Daemon.MainLoop.{
  Daemon, Input, drain, due, spawn_ready, on_tick, remove_first, on_task_end, step, boot, run,
}
use owncloud_sync_client.Daemon.MainLoop.Exclusive.{
  IsExclusive, modify-IsExclusive, forced-running, request_sync-IsExclusive, running-add_folder,
  start_all-IsDistinct, occurrences-append, occurrences-keep, single-start,
  occurrences-remove_first_self, occurrences-remove_first, get-finish_sync_ne, running-le,
}

spawn_ready-IsExclusive :
    (d : Daemon)
    → IsExclusive d.scheduler d.tasks
    → let d' = spawn_ready (ready_to_run d.scheduler) d in IsExclusive d'.scheduler d'.tasks
unfolding spawn_ready
spawn_ready-IsExclusive d inv =
    let ids = ready_to_run d.scheduler in
    record {
      distinct = start_all-IsDistinct ids d.scheduler inv.distinct;
      single = λ j. omega (
        arith,
        occurrences-append j d.tasks (keep (λ id. contains d.engines id) ids),
        occurrences-keep j (λ id. contains d.engines id) ids,
        single-start j d.scheduler d.tasks ids (inv.single j)
            (ready_to_run-exact j d.scheduler (inv.distinct j)),
      );
    }

drain-IsExclusive :
    (ids : List Uuid) (d : Daemon)
    → IsExclusive d.scheduler d.tasks
    → IsExclusive (drain ids d).scheduler (drain ids d).tasks
unfolding drain
drain-IsExclusive [] d inv = inv
drain-IsExclusive (id ∷ ids) d inv =
    drain-IsExclusive ids _ (request_sync-IsExclusive id d.scheduler d.tasks inv)

finish_sync-IsExclusive :
    (now : SystemTime) (id : Uuid) (folders : SyncScheduler) (tasks : List Uuid)
    → IsExclusive folders tasks
    → IsExclusive (finish_sync now id folders) (remove_first id tasks)
finish_sync-IsExclusive now id folders tasks inv = record {
  distinct = unfold finish_sync in modify-IsDistinct id (finished now) folders inv.distinct;
  single = λ j. elim (number_eq.dec j id) [
    | yes e ↦
        let gone : occurrences j (remove_first id tasks) ≤ 0 = rw (sym e) (
          occurrences-remove_first_self j tasks
            (omega (arith, inv.single j, running-le (Dict.get j folders)))) in
        omega (arith, gone)
    | no ne ↦
        rw (get-finish_sync_ne j id now folders ne)
          (omega (arith, occurrences-remove_first j id tasks, inv.single j))
  ];
}

add_folder-IsExclusive :
    (id : Uuid) (folders : SyncScheduler) (tasks : List Uuid)
    → IsExclusive folders tasks
    → IsExclusive (add_folder id folders) tasks
add_folder-IsExclusive id folders tasks inv = record {
  distinct = add_folder-IsDistinct id folders inv.distinct;
  single = λ j. omega (arith, inv.single j, running-add_folder j id folders);
}

on_task_end-IsExclusive :
    (id : Uuid) (r : Result SyncReport SyncError) (duration_ms : ℕ) (now : SystemTime) (d : Daemon)
    → IsExclusive d.scheduler d.tasks
    → let d' = on_task_end id r duration_ms now d in IsExclusive d'.scheduler d'.tasks
unfolding on_task_end
on_task_end-IsExclusive id r duration_ms now d inv = elim (Bool-cases (contains d.tasks id)) [
  | inl e ↦ rw (e, on_task_end) (finish_sync-IsExclusive now id d.scheduler d.tasks inv)
  | inr e ↦ rw (e, on_task_end) inv
]

-- Every input keeps the invariant: one entry for each folder, and a task for a folder only while
-- the folder is marked as running, and one task then.
pub step-IsExclusive :
    (input : Input) (d : Daemon)
    → IsExclusive d.scheduler d.tasks
    → IsExclusive (step input d).scheduler (step input d).tasks
unfolding step force_request_sync pause resume on_tick
step-IsExclusive (Input.trigger_sync id) d inv =
    modify-IsExclusive forced forced-running id d.scheduler d.tasks inv
step-IsExclusive (Input.pause_folder id) d inv =
    modify-IsExclusive _ (λ s. refl) id d.scheduler d.tasks inv
step-IsExclusive (Input.resume_folder id) d inv =
    modify-IsExclusive _ (λ s. refl) id d.scheduler d.tasks inv
step-IsExclusive (Input.folder_added id) d inv =
    request_sync-IsExclusive id _ d.tasks (add_folder-IsExclusive id d.scheduler d.tasks inv)
step-IsExclusive (Input.poll id) d inv = request_sync-IsExclusive id d.scheduler d.tasks inv
step-IsExclusive (Input.watch id now) d inv = inv
step-IsExclusive (Input.tick now) d inv =
    drain-IsExclusive (due now d.debounce_map) (spawn_ready (ready_to_run d.scheduler) d)
      (spawn_ready-IsExclusive d inv)
step-IsExclusive (Input.task_end id r duration_ms now) d inv =
    on_task_end-IsExclusive id r duration_ms now d inv

run-IsExclusive :
    (inputs : List Input) (d : Daemon)
    → IsExclusive d.scheduler d.tasks
    → IsExclusive (run inputs d).scheduler (run inputs d).tasks
unfolding run
run-IsExclusive [] d inv = inv
run-IsExclusive (input ∷ inputs) d inv =
    run-IsExclusive inputs (step input d) (step-IsExclusive input d inv)

-- Whatever the GUI, the watchers, the poller and the clock send after the daemon has started, in
-- whatever order, a folder has at most one sync in progress.
pub run-exclusive :
    (ids engines : List Uuid) (inputs : List Input) (id : Uuid)
    → occurrences id (run inputs (boot ids engines)).tasks ≤ 1
unfolding boot
run-exclusive ids engines inputs id =
    let start : IsExclusive (boot ids engines).scheduler (boot ids engines).tasks =
      unfold boot in
      record {
        distinct = new_scheduler-IsDistinct ids [] (λ j. omega arith);
        single = λ j. omega arith;
      } in
    let end = run-IsExclusive inputs (boot ids engines) start in
    omega (arith, end.single id, running-le (Dict.get id (run inputs (boot ids engines)).scheduler))
