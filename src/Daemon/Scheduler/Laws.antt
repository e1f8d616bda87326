-- ===== src/Daemon/Scheduler/Laws.antt =====
-- Which folders the scheduler starts, and how the keys of its map and its flags change.
use owncloud_sync_client.Common.{
  ℕ, ◌≤◌, ◌≡◌, ◌≢◌, refl, true, false, Option, none, some, List, [], ◌∷◌, count, number_eq, eq_self,
  Option-cases, inl, inr, ◌==◌, arith, if◌then◌else◌,
}
use owncloud_sync_client.Common.Dict
use owncloud_sync_client.Common.Dict.{Dict}
use owncloud_sync_client.SyncEngine.Types.{Uuid, SystemTime}
use owncloud_sync_client.Daemon.Scheduler.{
  FolderScheduleState, fresh, SyncScheduler, new_scheduler, add_folder, request_sync,
  force_request_sync, finish_sync, is_ready, ready_to_run,
}

-- How often a folder is in a list.
abbrev pub occurrences : Uuid → List Uuid → ℕ
occurrences id ids = count (λ (x : Uuid). x == id) ids

-- Each folder has one entry.
abbrev pub IsDistinct : SyncScheduler → Type 0
IsDistinct folders = (id : Uuid) → occurrences id (Dict.keys folders) ≤ 1

keys-modify :
    (id : Uuid) (f : FolderScheduleState → FolderScheduleState) (folders : SyncScheduler)
    → Dict.keys (Dict.modify id f folders) ≡ Dict.keys folders
unfolding Dict.modify
keys-modify id f [] = refl
keys-modify id f ((j, s) ∷ d) = ground (arith, keys-modify id f d)

occurrences-insert_ne :
    (j id : Uuid) (s : FolderScheduleState) (folders : SyncScheduler)
    → j ≢ id
    → occurrences j (Dict.keys (Dict.insert id s folders)) ≡ occurrences j (Dict.keys folders)
unfolding Dict.insert
occurrences-insert_ne j id s [] ne = ground arith
occurrences-insert_ne j id s ((k, _) ∷ d) ne = ground (arith, occurrences-insert_ne j id s d ne)

occurrences-insert_self :
    (id : Uuid) (s : FolderScheduleState) (folders : SyncScheduler)
    → occurrences id (Dict.keys folders) ≤ 1
    → occurrences id (Dict.keys (Dict.insert id s folders)) ≤ 1
unfolding Dict.insert
occurrences-insert_self id s [] h = ground arith
occurrences-insert_self id s ((k, _) ∷ d) h = ground (arith, occurrences-insert_self id s d)

insert-IsDistinct :
    (id : Uuid) (s : FolderScheduleState) (folders : SyncScheduler)
    → IsDistinct folders
    → IsDistinct (Dict.insert id s folders)
insert-IsDistinct id s folders h j = elim (number_eq.dec j id) [
  | yes e ↦ rw e (occurrences-insert_self id s folders (h id))
  | no ne ↦ rw (occurrences-insert_ne j id s folders ne) (h j)
]

pub modify-IsDistinct :
    (id : Uuid) (f : FolderScheduleState → FolderScheduleState) (folders : SyncScheduler)
    → IsDistinct folders
    → IsDistinct (Dict.modify id f folders)
modify-IsDistinct id f folders h j = rw (keys-modify id f folders) (h j)

pub add_folder-IsDistinct :
    (id : Uuid) (folders : SyncScheduler) → IsDistinct folders → IsDistinct (add_folder id folders)
unfolding add_folder
add_folder-IsDistinct id folders h = elim (Option-cases (Dict.get id folders)) [
  | inl e ↦ rw (e, add_folder) (insert-IsDistinct id fresh folders h)
  | inr (s, e) ↦ rw (e, add_folder) h
]

pub new_scheduler-IsDistinct :
    (ids : List Uuid) (folders : SyncScheduler)
    → IsDistinct folders
    → IsDistinct (new_scheduler ids folders)
unfolding new_scheduler
new_scheduler-IsDistinct [] folders h = h
new_scheduler-IsDistinct (id ∷ ids) folders h =
    new_scheduler-IsDistinct ids _ (insert-IsDistinct id fresh folders h)

-- A folder without an entry is not ready, and one with an entry is ready at most once.
occurrences-ready :
    (id : Uuid) (folders : SyncScheduler)
    → occurrences id (ready_to_run folders) ≤ occurrences id (Dict.keys folders)
unfolding ready_to_run
occurrences-ready id [] = omega arith
occurrences-ready id ((j, s) ∷ d) = ground (arith, occurrences-ready id d)

abbrev pub ready : Option FolderScheduleState → ℕ
ready none = 0
ready (some s) = if is_ready s then 1 else 0

pub ready_to_run-exact :
    (id : Uuid) (folders : SyncScheduler)
    → occurrences id (Dict.keys folders) ≤ 1
    → occurrences id (ready_to_run folders) ≡ ready (Dict.get id folders)
unfolding ready_to_run Dict.get
ready_to_run-exact id [] h = refl
ready_to_run-exact id ((j, s) ∷ d) h =
    ground (arith, ready_to_run-exact id d, occurrences-ready id d)

abbrev pub running : Option FolderScheduleState → ℕ
running none = 0
running (some s) = if s.running then 1 else 0

-- A forced request for a folder that is not paused is ready to run when the folder's present run ends.
pub force_request_sync-kept :
    (id : Uuid) (folders : SyncScheduler) (s : FolderScheduleState) (now : SystemTime)
    → Dict.get id folders ≡ some s
    → s.paused ≡ false
    → ready (Dict.get id (finish_sync now id (force_request_sync id folders))) ≡ 1
unfolding finish_sync force_request_sync
force_request_sync-kept id folders s now found active =
    simp (Dict.dict_laws, eq_self, found, active)

-- A plain request is dropped while the folder runs: once the run has ended, the folder is as it
-- would be without the request.
request_sync-dropped :
    (id : Uuid) (folders : SyncScheduler) (s : FolderScheduleState) (now : SystemTime)
    → Dict.get id folders ≡ some s
    → s.running ≡ true
    → Dict.get id (finish_sync now id (request_sync id folders))
      ≡ Dict.get id (finish_sync now id folders)
unfolding finish_sync request_sync
request_sync-dropped id folders s now found busy = simp (Dict.dict_laws, eq_self, found, busy)
