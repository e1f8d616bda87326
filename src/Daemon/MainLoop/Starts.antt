-- ===== src/Daemon/MainLoop/Starts.antt =====
-- Which folders a tick starts.
use owncloud_sync_client.Common.{
  ℕ, ◌+◌, ◌≡◌, refl, ◌∙◌, ap, Bool, true, false, not, ◌&&◌, Option, none, some, List, [], ◌∷◌, keep,
  contains, number_eq, arith, if◌then◌else◌,
}
use owncloud_sync_client.Common.Dict
use owncloud_sync_client.Common.Dict.{Dict}
use owncloud_sync_client.SyncEngine.Types.{Uuid}
use owncloud_sync_client.Daemon.Scheduler.{FolderScheduleState, ready_to_run}
use owncloud_sync_client.Daemon.Scheduler.Laws.{IsDistinct, occurrences, ready, ready_to_run-exact}
use owncloud_sync_client.Daemon.MainLoop.{Daemon, drain, due, spawn_ready, on_tick}
use owncloud_sync_client.Daemon.MainLoop.Exclusive.{occurrences-append}

pub drain-tasks : (ids : List Uuid) (d : Daemon) → (drain ids d).tasks ≡ d.tasks
unfolding drain
drain-tasks [] d = refl
drain-tasks (id ∷ ids) d = drain-tasks ids _

pub occurrences-keep_exact :
    (j : Uuid) (test : Uuid → Bool) (xs : List Uuid)
    → occurrences j (keep test xs) ≡ (if test j then occurrences j xs else 0)
occurrences-keep_exact j test [] = ground arith
occurrences-keep_exact j test (x ∷ xs) = elim (number_eq.dec x j) [
  | yes e ↦ rw e (ground (arith, occurrences-keep_exact j test xs))
  | no ne ↦ ground (arith, ne, occurrences-keep_exact j test xs)
]

-- One for a folder with an engine, pending, not running and not paused, in this order.
abbrev one_of : Bool → Bool → Bool → Bool → ℕ
one_of true true false false = 1
one_of true true false true = 0
one_of true true true paused = 0
one_of true false running paused = 0
one_of false pending running paused = 0

abbrev pub startable : Bool → Option FolderScheduleState → ℕ
startable engine none = 0
startable engine (some s) = one_of engine s.pending s.running s.paused

one_of-test :
    (engine pending running paused : Bool)
    → (if engine then (if pending && (not running && not paused) then 1 else 0) else 0)
      ≡ one_of engine pending running paused
one_of-test true true false false = refl
one_of-test true true false true = refl
one_of-test true true true paused = refl
one_of-test true false running paused = refl
one_of-test false pending running paused = refl

ready-startable :
    (engine : Bool) (found : Option FolderScheduleState)
    → (if engine then ready found else 0) ≡ startable engine found
ready-startable true none = refl
ready-startable false none = refl
ready-startable engine (some s) = one_of-test engine s.pending s.running s.paused

-- If each folder has one entry, a tick spawns one task for a folder that is pending, neither running
-- nor paused, and has an engine, and none for any other folder.
pub on_tick-starts :
    (now : ℕ) (d : Daemon) (id : Uuid)
    → IsDistinct d.scheduler
    → occurrences id (on_tick now d).tasks
      ≡ occurrences id d.tasks + startable (contains d.engines id) (Dict.get id d.scheduler)
unfolding on_tick spawn_ready
on_tick-starts now d id distinct =
    let ids = ready_to_run d.scheduler in
    ap (occurrences id) (drain-tasks (due now d.debounce_map) (spawn_ready ids d))
    ∙ occurrences-append id d.tasks (keep (λ j. contains d.engines j) ids)
    ∙ ap (λ (n : ℕ). occurrences id d.tasks + n)
        (occurrences-keep_exact id (λ j. contains d.engines j) ids
          ∙ ap (λ (n : ℕ). if contains d.engines id then n else 0)
              (ready_to_run-exact id d.scheduler (distinct id))
          ∙ ready-startable (contains d.engines id) (Dict.get id d.scheduler))
