-- ===== src/SyncEngine/Engine/Run.antt =====
-- `SyncEngine::new` and `run_sync`: discovery, reconciliation, propagation, and the report.
use owncloud_sync_client.Common.{ℕ, ◌-◌, String, true, false, List, [], Result, ok, err, length}
use owncloud_sync_client.Common.Dict
use owncloud_sync_client.Common.Dict.{Dict}
use owncloud_sync_client.Common.{string_eq}
use owncloud_sync_client.SyncDb.Db.{SyncJournalDb}
use owncloud_sync_client.SyncEngine.Types.{
  FilePath, LocalEntry, RemoteEntry, SyncError, auth, HttpEvent, SyncReport,
}
use owncloud_sync_client.SyncEngine.State.{FolderStatus, new, mark_complete}
use owncloud_sync_client.SyncEngine.Host.{Host, Net}
use owncloud_sync_client.SyncEngine.Engine.Context.{
  Planned, Job, EngineConfig, Discovery, EngineState,
}
use owncloud_sync_client.SyncEngine.Engine.Plan.{
  is_download, is_upload, is_conflict, is_delete_local, is_delete_remote, collect, or_whole,
  union_keys, plan_paths, tally, dirs_of, files_of,
}
use owncloud_sync_client.SyncEngine.Engine.Dirs.{Progress, process_dirs}
use owncloud_sync_client.SyncEngine.Engine.Files.{spawn, run_tasks}

module _ (H : Host) where
  -- `SyncEngine::new`
  unfoldable pub new_engine : EngineConfig H → SyncJournalDb → H.World → EngineState H
  new_engine cfg db w = record { state = new cfg.folder_id; db = db; world = w }

  -- What phase 1 finds.
  pub record Found : Type 0 where
    pub bearer_token : String
    pub locals : List LocalEntry
    pub remotes : List RemoteEntry
    pub events : List HttpEvent

  abbrev pub begin : EngineState H → EngineState H
  begin st = record st { state = record st.state { status = FolderStatus.syncing } }

  -- The end of `run_sync`.
  unfoldable pub finish : Progress H → EngineState H
  finish p = elim p.had_error [
    | true ↦ record (p.engine) { state = record p.engine.state { status = FolderStatus.error } }
    | false ↦ record (p.engine) { state = mark_complete (H.now p.engine.world) p.engine.state }
  ]

  module _ (cfg : EngineConfig H) (D : Discovery H) where
    unfoldable pub after_remote :
        String
        → List LocalEntry
        → EngineState H
        → Result (List RemoteEntry) SyncError × Net H
        → Result Found SyncError × EngineState H
    after_remote token locals st (ok remotes, n) = (
      ok (record { bearer_token = token; locals = locals; remotes = remotes; events = n.events }),
      record st { world = n.world },
    )
    after_remote token locals st (err e, n) = (err e, record st { world = n.world })

    unfoldable pub after_local :
        String
        → EngineState H
        → Result (List LocalEntry) SyncError × H.World
        → Result Found SyncError × EngineState H
    unfolding after_remote
    after_local token st (ok locals, w) =
        after_remote token locals st
          (D.discover_remote cfg.space_root token (record { world = w; events = [] }))
    after_local token st (err e, w) = (err e, record st { world = w })

    unfoldable pub after_token :
        EngineState H → Result String String × H.World → Result Found SyncError × EngineState H
    unfolding after_local
    after_token st (ok token, w) =
        after_local token (record st { world = w }) (D.discover_local cfg.local_root w)
    after_token st (err e, w) = (err (auth e), record st { world = w })

    -- Phase 1. The two walks are joined: the first error ends both.
    unfoldable pub discover : EngineState H → Result Found SyncError × EngineState H
    unfolding after_token
    discover st = after_token st (D.get_valid_token st.world)

    unfoldable pub local_map : List LocalEntry → Dict FilePath LocalEntry
    local_map locals =
        collect (λ (e : LocalEntry). or_whole e.path (H.strip_prefix e.path cfg.local_root)) locals
          []

    unfoldable pub remote_map : List RemoteEntry → Dict FilePath RemoteEntry
    remote_map remotes = collect (λ (e : RemoteEntry). e.path) remotes []

    -- `all_paths`, in the order in which the set is read.
    unfoldable pub all_paths : Found → List FilePath
    unfolding local_map remote_map
    all_paths found =
        D.hash_order
          (union_keys (Dict.keys (local_map found.locals)) (Dict.keys (remote_map found.remotes)))

    -- Phase 2.
    unfoldable pub reconcile_all : Found → EngineState H → List Planned × ℕ × H.World
    reconcile_all found st =
        plan_paths H cfg.conflict_strategy st.db (local_map found.locals) (remote_map found.remotes)
          (all_paths found) st.world

    unfoldable pub make_report :
        Found → List Planned → ℕ → List HttpEvent → Progress H → ℕ → SyncReport
    make_report found items ignored events p t_start = record {
      folder_id = cfg.folder_id;
      remote_entries = length found.remotes;
      local_entries = length found.locals;
      downloads = tally is_download items;
      uploads = tally is_upload items;
      conflicts = tally is_conflict items;
      deletes_local = tally is_delete_local items;
      deletes_remote = tally is_delete_remote items;
      ignored = ignored;
      errors = p.error_messages;
      http_events = events;
      duration_ms = H.millis p.engine.world - t_start;
    }

    unfoldable pub transfer_files :
        Found
        → List Planned
        → ℕ
        → ℕ
        → List (Job H)
        → Progress H
        → Result SyncReport SyncError × EngineState H
    unfolding finish
    transfer_files found items ignored t_start jobs p =
        let (events, p') = run_tasks H cfg found.bearer_token (D.task_order jobs) found.events p in
        (ok (make_report found items ignored events p' t_start), finish p')

    unfoldable pub after_spawn :
        Found
        → List Planned
        → ℕ
        → ℕ
        → Progress H
        → Result (List (Job H)) SyncError
        → Result SyncReport SyncError × EngineState H
    after_spawn found items ignored t_start p (ok jobs) =
        transfer_files found items ignored t_start jobs p
    after_spawn found items ignored t_start p (err e) = (err e, p.engine)

    unfoldable pub after_dirs :
        Found
        → List Planned
        → ℕ
        → ℕ
        → Result (Unit {0}) SyncError × Progress H
        → Result SyncReport SyncError × EngineState H
    unfolding after_spawn
    after_dirs found items ignored t_start (ok u, p) =
        after_spawn found items ignored t_start p (spawn H cfg found.bearer_token (files_of items))
    after_dirs found items ignored t_start (err e, p) = (err e, p.engine)

    -- Phase 3.
    unfoldable pub propagate :
        Found → List Planned → ℕ → ℕ → EngineState H → Result SyncReport SyncError × EngineState H
    unfolding after_dirs
    propagate found items ignored t_start st = after_dirs found items ignored t_start (
        process_dirs H cfg found.bearer_token (dirs_of items)
          (record { had_error = false; error_messages = []; engine = st }))

    unfoldable pub after_discover :
        ℕ → Result Found SyncError × EngineState H → Result SyncReport SyncError × EngineState H
    after_discover t_start (err e, st) = (err e, st)
    after_discover t_start (ok found, st) =
        let (items, ignored, w) = reconcile_all found st in
        propagate found items ignored t_start (record st { world = w })

    unfoldable pub run_sync : EngineState H → Result SyncReport SyncError × EngineState H
    unfolding after_discover
    run_sync st = after_discover (H.millis st.world) (discover (begin st))
