-- ===== src/Daemon/MainLoop/Exact.antt =====
-- crates/daemon/src/main.rs: the flag `running` and the tasks of a folder, through the scheduler.
use owncloud_sync_client.Common.{
  ◌≡◌, refl, sym, ◌∙◌, true, none, some, List, [], ◌∷◌, contains, number_eq, Option-cases, inl, inr,
  arith,
}
use owncloud_sync_client.Common.Dict
use owncloud_sync_client.Common.Dict.{Dict}
use owncloud_sync_client.SyncEngine.Types.{Uuid}
use owncloud_sync_client.Daemon.Scheduler.{
  FolderScheduleState, started, requested, SyncScheduler, request_sync, start_sync,
}
use owncloud_sync_client.Daemon.Scheduler.Laws.{IsDistinct, occurrences, running, modify-IsDistinct}
use owncloud_sync_client.Daemon.MainLoop.{start_all}
use owncloud_sync_client.Daemon.MainLoop.Exclusive.{
  running-modify, requested-running, get-start_sync_ne,
}

-- Each folder has one entry and an engine, and is marked as running exactly if it has a task.
pub record IsExact (folders : SyncScheduler) (engines tasks : List Uuid) : Type 0 where
  pub distinct : IsDistinct folders
  pub engine :
      (id : Uuid) (s : FolderScheduleState)
      → Dict.get id folders ≡ some s
      → contains engines id ≡ true
  pub exact : (id : Uuid) → occurrences id tasks ≡ running (Dict.get id folders)

pub get-modify_entry :
    (f : FolderScheduleState → FolderScheduleState) (j id : Uuid) (folders : SyncScheduler)
    (s : FolderScheduleState)
    → Dict.get j (Dict.modify id f folders) ≡ some s
    → (t : FolderScheduleState) × (Dict.get j folders ≡ some t)
get-modify_entry f j id folders s found = elim (Option-cases (Dict.get j folders)) [
  | inl e ↦ absurd (ground (arith, e, found, Dict.get-modify j id f folders))
  | inr (t, e) ↦ (t, e)
]

pub modify-IsExact :
    (f : FolderScheduleState → FolderScheduleState)
    (same : (s : FolderScheduleState) → (f s).running ≡ s.running) (id : Uuid)
    (folders : SyncScheduler) (engines tasks : List Uuid)
    → IsExact folders engines tasks
    → IsExact (Dict.modify id f folders) engines tasks
modify-IsExact f same id folders engines tasks inv = record {
  distinct = modify-IsDistinct id f folders inv.distinct;
  engine = λ j s found.
      let entry = get-modify_entry f j id folders s found in inv.engine j entry.0 entry.1;
  exact = λ j. inv.exact j ∙ sym (running-modify f same j id folders);
}

pub request_sync-IsExact :
    (id : Uuid) (folders : SyncScheduler) (engines tasks : List Uuid)
    → IsExact folders engines tasks
    → IsExact (request_sync id folders) engines tasks
unfolding request_sync
request_sync-IsExact = modify-IsExact requested requested-running

pub get-start_all-none :
    (j : Uuid) (ids : List Uuid) (folders : SyncScheduler)
    → Dict.get j folders ≡ none
    → Dict.get j (start_all ids folders) ≡ none
unfolding start_all start_sync
get-start_all-none j [] folders e = e
get-start_all-none j (id ∷ ids) folders e =
    get-start_all-none j ids _ (ground (arith, e, Dict.get-modify j id started folders))

pub get-start_all_ne :
    (j : Uuid) (ids : List Uuid) (folders : SyncScheduler)
    → occurrences j ids ≡ 0
    → Dict.get j (start_all ids folders) ≡ Dict.get j folders
unfolding start_all
get-start_all_ne j [] folders h = refl
get-start_all_ne j (id ∷ ids) folders h = elim (number_eq.dec j id) [
  | yes e ↦ absurd (ground (arith, h, e))
  | no ne ↦
      get-start_all_ne j ids (start_sync id folders) (ground (arith, h))
      ∙ get-start_sync_ne j id folders ne
]
