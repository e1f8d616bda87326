-- ===== src/Daemon/MainLoop/InProgress.antt =====
-- crates/daemon/src/main.rs: the flag `running` and the syncs in progress, through the inputs of the loop.
use owncloud_sync_client.Common.{
  ℕ, ◌+◌, ◌≤◌, ◌≡◌, ◌≢◌, ◌⊎◌, refl, sym, ◌∙◌, ap, Bool, true, some, List, [], ◌∷◌, Result, keep,
  contains, number_eq, Option-cases, Bool-cases, inl, inr, arith, if◌then◌else◌, eq_self,
}
use owncloud_sync_client.Common.Dict
use owncloud_sync_client.Common.Dict.{Dict}
use owncloud_sync_client.SyncEngine.Types.{Uuid, SystemTime, SyncReport, SyncError}
use owncloud_sync_client.Daemon.Scheduler.{
  FolderScheduleState, fresh, is_ready, forced, finished, SyncScheduler, new_scheduler, add_folder,
  force_request_sync, finish_sync, pause, resume, ready_to_run,
}
use owncloud_sync_client.Daemon.Scheduler.Laws.{
  occurrences, ready, running, ready_to_run-exact, modify-IsDistinct, add_folder-IsDistinct,
  new_scheduler-IsDistinct,
}
use owncloud_sync_client.Daemon.MainLoop.{
  Daemon, Input, start_all, drain, due, spawn_ready, on_tick, remove_first, on_task_end, step, boot,
  run,
}
use owncloud_sync_client.Daemon.MainLoop.Exclusive.{
  forced-running, start_all-marks, start_all-IsDistinct, occurrences-append,
  occurrences-remove_first_self, get-finish_sync_ne, running-le,
}
use owncloud_sync_client.Daemon.MainLoop.Starts.{occurrences-keep_exact}
use owncloud_sync_client.Daemon.MainLoop.Exact.{
  IsExact, get-modify_entry, modify-IsExact, request_sync-IsExact, get-start_all-none,
  get-start_all_ne,
}

exact-start :
    (j : Uuid) (folders : SyncScheduler) (n : ℕ) (ids engines : List Uuid)
    → n ≡ running (Dict.get j folders)
    → occurrences j ids ≡ ready (Dict.get j folders)
    → ((s : FolderScheduleState) → Dict.get j folders ≡ some s → contains engines j ≡ true)
    → n + (if contains engines j then occurrences j ids else 0)
      ≡ running (Dict.get j (start_all ids folders))
exact-start j folders n ids engines one exact has = elim (Option-cases (Dict.get j folders)) [
  | inl e ↦
      let no_task : n ≡ 0 = one ∙ ap running e in
      let no_start : occurrences j ids ≡ 0 = exact ∙ ap ready e in
      rw (get-start_all-none j ids folders e) (ground (arith, no_task, no_start))
  | inr (s, e) ↦
      let here : n ≡ (if s.running then 1 else 0) = one ∙ ap running e in
      let starts : occurrences j ids ≡ (if is_ready s then 1 else 0) = exact ∙ ap ready e in
      elim (Bool-cases (is_ready s)) [
        | inl r ↦
            let once : occurrences j ids ≡ 1 = starts ∙ ap (λ (b : Bool). if b then 1 else 0) r in
            let marks = start_all-marks j ids folders s e (omega (arith, once)) in
            rw (has s e) (
              ground (arith, here, once, marks, r, running-le (Dict.get j (start_all ids folders))))
        | inr r ↦
            let never : occurrences j ids ≡ 0 = starts ∙ ap (λ (b : Bool). if b then 1 else 0) r in
            rw (has s e, get-start_all_ne j ids folders never) (omega (arith, one, never))
      ]
]

spawn_ready-IsExact :
    (d : Daemon)
    → IsExact d.scheduler d.engines d.tasks
    → let d' = spawn_ready (ready_to_run d.scheduler) d in IsExact d'.scheduler d'.engines d'.tasks
unfolding spawn_ready
spawn_ready-IsExact d inv =
    let ids = ready_to_run d.scheduler in
    record {
      distinct = start_all-IsDistinct ids d.scheduler inv.distinct;
      engine = λ j s found. elim (Option-cases (Dict.get j d.scheduler)) [
        | inl e ↦ absurd (ground (arith, found, get-start_all-none j ids d.scheduler e))
        | inr (t, e) ↦ inv.engine j t e
      ];
      exact = λ j.
          occurrences-append j d.tasks (keep (λ id. contains d.engines id) ids)
          ∙ ap (λ (n : ℕ). occurrences j d.tasks + n)
              (occurrences-keep_exact j (λ id. contains d.engines id) ids)
          ∙ exact-start j d.scheduler (occurrences j d.tasks) ids d.engines (inv.exact j)
              (ready_to_run-exact j d.scheduler (inv.distinct j)) (inv.engine j);
    }

drain-IsExact :
    (ids : List Uuid) (d : Daemon)
    → IsExact d.scheduler d.engines d.tasks
    → IsExact (drain ids d).scheduler (drain ids d).engines (drain ids d).tasks
unfolding drain
drain-IsExact [] d inv = inv
drain-IsExact (id ∷ ids) d inv =
    drain-IsExact ids _ (request_sync-IsExact id d.scheduler d.engines d.tasks inv)

get-add_folder :
    (j id : Uuid) (folders : SyncScheduler)
    → running (Dict.get j (add_folder id folders)) ≡ running (Dict.get j folders)
unfolding add_folder
get-add_folder j id folders = elim (Option-cases (Dict.get id folders)) [
  | inl e ↦ rw (e, add_folder, Dict.get-insert) (ground (arith, e))
  | inr (s, e) ↦ rw (e, add_folder) refl
]

get-add_folder_ne :
    (j id : Uuid) (folders : SyncScheduler)
    → j ≢ id
    → Dict.get j (add_folder id folders) ≡ Dict.get j folders
unfolding add_folder
get-add_folder_ne j id folders ne = elim (Option-cases (Dict.get id folders)) [
  | inl e ↦ rw (e, add_folder) (Dict.get-insert_ne j id fresh folders ne)
  | inr (s, e) ↦ rw (e, add_folder) refl
]

add_folder-entry :
    (j id : Uuid) (folders : SyncScheduler) (s : FolderScheduleState) (engines : List Uuid)
    → ((t : FolderScheduleState) → Dict.get j folders ≡ some t → contains engines j ≡ true)
    → Dict.get j (add_folder id folders) ≡ some s
    → contains (id ∷ engines) j ≡ true
add_folder-entry j id folders s engines has found = elim (Option-cases (Dict.get j folders)) [
  | inr (t, e) ↦ ground (arith, has t e)
  | inl none_there ↦ elim (number_eq.dec j id) [
    | yes same ↦ ground (arith, same)
    | no ne ↦ absurd (ground (arith, found, none_there, get-add_folder_ne j id folders ne))
  ]
]

occurrences-remove_first_ne :
    (j id : Uuid) (tasks : List Uuid)
    → j ≢ id
    → occurrences j (remove_first id tasks) ≡ occurrences j tasks
unfolding remove_first
occurrences-remove_first_ne j id [] ne = refl
occurrences-remove_first_ne j id (x ∷ xs) ne =
    ground (arith, ne, occurrences-remove_first_ne j id xs ne)

running-finish_sync :
    (now : SystemTime) (id : Uuid) (folders : SyncScheduler)
    → running (Dict.get id (finish_sync now id folders)) ≡ 0
unfolding finish_sync
running-finish_sync now id folders = elim (Option-cases (Dict.get id folders)) [
  | inl e ↦ rw (Dict.get-modify, e, eq_self id) refl
  | inr (s, e) ↦ rw (Dict.get-modify, e, eq_self id) refl
]

finish_sync-IsExact :
    (now : SystemTime) (id : Uuid) (folders : SyncScheduler) (engines tasks : List Uuid)
    → IsExact folders engines tasks
    → IsExact (finish_sync now id folders) engines (remove_first id tasks)
unfolding finish_sync
finish_sync-IsExact now id folders engines tasks inv = record {
  distinct = modify-IsDistinct id (finished now) folders inv.distinct;
  engine = λ j s found.
      let entry = get-modify_entry (finished now) j id folders s found in
      inv.engine j entry.0 entry.1;
  exact = λ j. elim (number_eq.dec j id) [
    | yes e ↦
        let gone : occurrences id (remove_first id tasks) ≤ 0 =
          occurrences-remove_first_self id tasks
            (omega (arith, inv.exact id, running-le (Dict.get id folders))) in
        rw e (omega (arith, gone, running-finish_sync now id folders))
    | no ne ↦
        occurrences-remove_first_ne j id tasks ne
        ∙ inv.exact j
        ∙ ap running (sym (get-finish_sync_ne j id now folders ne))
  ];
}

on_task_end-IsExact :
    (id : Uuid) (r : Result SyncReport SyncError) (duration_ms : ℕ) (now : SystemTime) (d : Daemon)
    → IsExact d.scheduler d.engines d.tasks
    → let d' = on_task_end id r duration_ms now d in IsExact d'.scheduler d'.engines d'.tasks
unfolding on_task_end
on_task_end-IsExact id r duration_ms now d inv = elim (Bool-cases (contains d.tasks id)) [
  | inl e ↦ rw (e, on_task_end) (finish_sync-IsExact now id d.scheduler d.engines d.tasks inv)
  | inr e ↦ rw (e, on_task_end) inv
]

add_folder-IsExact :
    (id : Uuid) (folders : SyncScheduler) (engines tasks : List Uuid)
    → IsExact folders engines tasks
    → IsExact (add_folder id folders) (id ∷ engines) tasks
add_folder-IsExact id folders engines tasks inv = record {
  distinct = add_folder-IsDistinct id folders inv.distinct;
  engine = λ j s found. add_folder-entry j id folders s engines (inv.engine j) found;
  exact = λ j. inv.exact j ∙ sym (get-add_folder j id folders);
}

step-IsExact :
    (input : Input) (d : Daemon)
    → IsExact d.scheduler d.engines d.tasks
    → IsExact (step input d).scheduler (step input d).engines (step input d).tasks
unfolding step force_request_sync pause resume on_tick
step-IsExact (Input.trigger_sync id) d inv =
    modify-IsExact forced forced-running id d.scheduler d.engines d.tasks inv
step-IsExact (Input.pause_folder id) d inv =
    modify-IsExact _ (λ s. refl) id d.scheduler d.engines d.tasks inv
step-IsExact (Input.resume_folder id) d inv =
    modify-IsExact _ (λ s. refl) id d.scheduler d.engines d.tasks inv
step-IsExact (Input.folder_added id) d inv =
    request_sync-IsExact id _ (id ∷ d.engines) d.tasks
      (add_folder-IsExact id d.scheduler d.engines d.tasks inv)
step-IsExact (Input.poll id) d inv = request_sync-IsExact id d.scheduler d.engines d.tasks inv
step-IsExact (Input.watch id now) d inv = inv
step-IsExact (Input.tick now) d inv =
    drain-IsExact (due now d.debounce_map) (spawn_ready (ready_to_run d.scheduler) d)
      (spawn_ready-IsExact d inv)
step-IsExact (Input.task_end id r duration_ms now) d inv =
    on_task_end-IsExact id r duration_ms now d inv

run-IsExact :
    (inputs : List Input) (d : Daemon)
    → IsExact d.scheduler d.engines d.tasks
    → IsExact (run inputs d).scheduler (run inputs d).engines (run inputs d).tasks
unfolding run
run-IsExact [] d inv = inv
run-IsExact (input ∷ inputs) d inv = run-IsExact inputs (step input d) (step-IsExact input d inv)

new_scheduler-idle :
    (ids : List Uuid) (folders : SyncScheduler) (j : Uuid)
    → running (Dict.get j folders) ≡ 0
    → running (Dict.get j (new_scheduler ids folders)) ≡ 0
unfolding new_scheduler
new_scheduler-idle [] folders j h = h
new_scheduler-idle (id ∷ ids) folders j h =
    new_scheduler-idle ids _ j (rw Dict.get-insert (ground (arith, h)))

new_scheduler-entry :
    (ids : List Uuid) (folders : SyncScheduler) (j : Uuid) (s : FolderScheduleState)
    → Dict.get j (new_scheduler ids folders) ≡ some s
    → (contains ids j ≡ true) ⊎ ((t : FolderScheduleState) × (Dict.get j folders ≡ some t))
unfolding new_scheduler
new_scheduler-entry [] folders j s found = inr (s, found)
new_scheduler-entry (id ∷ ids) folders j s found = elim (new_scheduler-entry ids _ j s found) [
  | inl there ↦ inl (ground (arith, there))
  | inr (t, e) ↦ elim (number_eq.dec j id) [
    | yes same ↦ inl (ground (arith, same))
    | no ne ↦ inr (t, sym (Dict.get-insert_ne j id fresh folders ne) ∙ e)
  ]
]

boot-IsExact :
    (ids : List Uuid) → IsExact (boot ids ids).scheduler (boot ids ids).engines (boot ids ids).tasks
unfolding boot
boot-IsExact ids = record {
  distinct = new_scheduler-IsDistinct ids [] (λ j. omega arith);
  engine = λ j s found. elim (new_scheduler-entry ids [] j s found) [
    | inl there ↦ there
    | inr (t, e) ↦ absurd (ground (arith, e, Dict.get-nil {V = FolderScheduleState} j))
  ];
  exact = λ j. sym (new_scheduler-idle ids [] j (rw Dict.get-nil refl));
}

-- If every folder that the daemon starts with has an engine, then after any inputs in any order a
-- folder is marked as running exactly while a sync of it is in progress, and there is one then: no
-- folder is left marked as running when its sync has ended.
pub run-in_progress :
    (ids : List Uuid) (inputs : List Input) (id : Uuid)
    → let d = run inputs (boot ids ids) in
      occurrences id d.tasks ≡ running (Dict.get id d.scheduler)
run-in_progress ids inputs id = (run-IsExact inputs (boot ids ids) (boot-IsExact ids)).exact id
