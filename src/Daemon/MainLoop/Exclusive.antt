-- ===== src/Daemon/MainLoop/Exclusive.antt =====
-- The flag `running` and the number of a folder's tasks, through the changes of the scheduler.
use owncloud_sync_client.Common.{
  ◌+◌, ◌≤◌, ◌≡◌, ◌≢◌, sym, ◌∙◌, ap, Bool, Option, none, some, List, [], ◌∷◌, ◌++◌, keep, number_eq,
  Option-cases, Bool-cases, inl, inr, arith, if◌then◌else◌,
}
use owncloud_sync_client.Common.Dict
use owncloud_sync_client.Common.Dict.{Dict}
use owncloud_sync_client.SyncEngine.Types.{Uuid, SystemTime}
use owncloud_sync_client.Daemon.Scheduler.{
  FolderScheduleState, started, requested, forced, SyncScheduler, add_folder, request_sync,
  start_sync, finish_sync, is_ready,
}
use owncloud_sync_client.Daemon.Scheduler.Laws.{
  IsDistinct, occurrences, ready, running, modify-IsDistinct,
}
use owncloud_sync_client.Daemon.MainLoop.{start_all, remove_first}

-- Each folder has one entry, and a folder has a task only while it is marked as running, and one
-- task then.
pub record IsExclusive (folders : SyncScheduler) (tasks : List Uuid) : Type 0 where
  pub distinct : IsDistinct folders
  pub single : (id : Uuid) → occurrences id tasks ≤ running (Dict.get id folders)

-- An update of an entry that keeps the flag `running`.
module _ (f : FolderScheduleState → FolderScheduleState)
    (same : (s : FolderScheduleState) → (f s).running ≡ s.running) where
  pub running-modify :
      (j id : Uuid) (folders : SyncScheduler)
      → running (Dict.get j (Dict.modify id f folders)) ≡ running (Dict.get j folders)
  running-modify j id folders = elim (Option-cases (Dict.get j folders)) [
    | inl e ↦ rw (Dict.get-modify, e) (ground arith)
    | inr (s, e) ↦ rw (Dict.get-modify, e) (ground (arith, same s))
  ]

  pub modify-IsExclusive :
      (id : Uuid) (folders : SyncScheduler) (tasks : List Uuid)
      → IsExclusive folders tasks
      → IsExclusive (Dict.modify id f folders) tasks
  modify-IsExclusive id folders tasks inv = record {
    distinct = modify-IsDistinct id f folders inv.distinct;
    single = λ j. rw (running-modify j id folders) (inv.single j);
  }

pub requested-running : (s : FolderScheduleState) → (requested s).running ≡ s.running
requested-running s = ground arith

pub forced-running : (s : FolderScheduleState) → (forced s).running ≡ s.running
forced-running s = ground arith

pub request_sync-IsExclusive :
    (id : Uuid) (folders : SyncScheduler) (tasks : List Uuid)
    → IsExclusive folders tasks
    → IsExclusive (request_sync id folders) tasks
unfolding request_sync
request_sync-IsExclusive = modify-IsExclusive requested requested-running

pub running-add_folder :
    (j id : Uuid) (folders : SyncScheduler)
    → running (Dict.get j folders) ≤ running (Dict.get j (add_folder id folders))
unfolding add_folder
running-add_folder j id folders = elim (Option-cases (Dict.get id folders)) [
  | inl e ↦ rw (e, add_folder, Dict.get-insert) (ground (arith, e))
  | inr (s, e) ↦ rw (e, add_folder) (omega arith)
]

running-start_sync :
    (j id : Uuid) (folders : SyncScheduler)
    → running (Dict.get j folders) ≤ running (Dict.get j (start_sync id folders))
unfolding start_sync
running-start_sync j id folders = elim (Option-cases (Dict.get j folders)) [
  | inl e ↦ rw (Dict.get-modify, e) (ground arith)
  | inr (s, e) ↦ rw (Dict.get-modify, e) (ground arith)
]

pub running-start_all :
    (j : Uuid) (ids : List Uuid) (folders : SyncScheduler)
    → running (Dict.get j folders) ≤ running (Dict.get j (start_all ids folders))
unfolding start_all
running-start_all j [] folders = omega arith
running-start_all j (id ∷ ids) folders =
    omega (arith, running-start_sync j id folders, running-start_all j ids (start_sync id folders))

get-start_sync_self :
    (j : Uuid) (folders : SyncScheduler) (s : FolderScheduleState)
    → Dict.get j folders ≡ some s
    → Dict.get j (start_sync j folders) ≡ some (started s)
unfolding start_sync
get-start_sync_self j folders s found = rw (Dict.get-modify, found) (ground arith)

pub get-start_sync_ne :
    (j id : Uuid) (folders : SyncScheduler)
    → j ≢ id
    → Dict.get j (start_sync id folders) ≡ Dict.get j folders
unfolding start_sync
get-start_sync_ne j id folders ne = rw Dict.get-modify (ground arith)

pub start_all-marks :
    (j : Uuid) (ids : List Uuid) (folders : SyncScheduler) (s : FolderScheduleState)
    → Dict.get j folders ≡ some s
    → 1 ≤ occurrences j ids
    → 1 ≤ running (Dict.get j (start_all ids folders))
unfolding start_all
start_all-marks j [] folders s found h = absurd (omega (arith, h))
start_all-marks j (id ∷ ids) folders s found h = elim (number_eq.dec j id) [
  | yes e ↦
      let marked : 1 ≤ running (Dict.get j (start_sync id folders)) =
        rw (sym e, get-start_sync_self j folders s found) (omega arith) in
      omega (arith, marked, running-start_all j ids (start_sync id folders))
  | no ne ↦
      start_all-marks j ids (start_sync id folders) s (get-start_sync_ne j id folders ne ∙ found)
        (ground arith)
]

pub start_all-IsDistinct :
    (ids : List Uuid) (folders : SyncScheduler)
    → IsDistinct folders
    → IsDistinct (start_all ids folders)
unfolding start_all start_sync
start_all-IsDistinct [] folders h = h
start_all-IsDistinct (id ∷ ids) folders h =
    start_all-IsDistinct ids _ (modify-IsDistinct id started folders h)

pub occurrences-append :
    (j : Uuid) (xs ys : List Uuid) → occurrences j (xs ++ ys) ≡ occurrences j xs + occurrences j ys
occurrences-append j [] ys = omega arith
occurrences-append j (x ∷ xs) ys = ground (arith, occurrences-append j xs ys)

pub occurrences-keep :
    (j : Uuid) (test : Uuid → Bool) (xs : List Uuid)
    → occurrences j (keep test xs) ≤ occurrences j xs
occurrences-keep j test [] = omega arith
occurrences-keep j test (x ∷ xs) = ground (arith, occurrences-keep j test xs)

pub single-start :
    (j : Uuid) (folders : SyncScheduler) (tasks ids : List Uuid)
    → occurrences j tasks ≤ running (Dict.get j folders)
    → occurrences j ids ≡ ready (Dict.get j folders)
    → occurrences j tasks + occurrences j ids ≤ running (Dict.get j (start_all ids folders))
single-start j folders tasks ids one exact = elim (Option-cases (Dict.get j folders)) [
  | inl e ↦ omega (arith, rw e at one, rw e at exact)
  | inr (s, e) ↦ elim (Bool-cases (is_ready s)) [
    | inl r ↦
        let busy : occurrences j tasks ≤ (if s.running then 1 else 0) = rw e at one in
        let once : occurrences j ids ≡ 1 =
          exact ∙ ap ready e ∙ ap (λ (b : Bool). if b then 1 else 0) r in
        let marks = start_all-marks j ids folders s e (omega (arith, once)) in
        ground (arith, busy, once, marks, r)
    | inr r ↦
        let none_ready : occurrences j ids ≡ 0 =
          exact ∙ ap ready e ∙ ap (λ (b : Bool). if b then 1 else 0) r in
        omega (arith, one, none_ready, running-start_all j ids folders)
  ]
]

pub occurrences-remove_first_self :
    (id : Uuid) (tasks : List Uuid)
    → occurrences id tasks ≤ 1
    → occurrences id (remove_first id tasks) ≤ 0
unfolding remove_first
occurrences-remove_first_self id [] h = omega arith
occurrences-remove_first_self id (x ∷ xs) h = ground (arith, h, occurrences-remove_first_self id xs)

pub occurrences-remove_first :
    (j id : Uuid) (tasks : List Uuid) → occurrences j (remove_first id tasks) ≤ occurrences j tasks
unfolding remove_first
occurrences-remove_first j id [] = omega arith
occurrences-remove_first j id (x ∷ xs) = ground (arith, occurrences-remove_first j id xs)

pub get-finish_sync_ne :
    (j id : Uuid) (now : SystemTime) (folders : SyncScheduler)
    → j ≢ id
    → Dict.get j (finish_sync now id folders) ≡ Dict.get j folders
unfolding finish_sync
get-finish_sync_ne j id now folders ne = rw Dict.get-modify (ground arith)

pub running-le : (o : Option FolderScheduleState) → running o ≤ 1
running-le none = omega arith
running-le (some s) = ground arith
