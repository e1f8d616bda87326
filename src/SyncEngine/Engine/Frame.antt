-- ===== src/SyncEngine/Engine/Frame.antt =====
-- crates/sync-engine/src/engine.rs: the row and the status of a path, through the tasks of other paths.
use owncloud_sync_client.Common.{
  String, ◌≡◌, refl, ◌∙◌, ◌≢◌, Option, none, some, List, [], ◌∷◌, Result, ok, err, string_eq, All,
  Result-cases, inl, inr,
}
use owncloud_sync_client.Common.Dict
use owncloud_sync_client.Common.Dict.{Dict}
use owncloud_sync_client.SyncDb.Models.{JournalEntry}
use owncloud_sync_client.SyncDb.Db.{Fault, SyncJournalDb, upsert_entry, delete_entry}
use owncloud_sync_client.SyncEngine.Types.{
  FilePath, RemoteEntry, SyncInstruction, upload, download, delete_local, delete_remote, SyncError,
  HttpEvent,
}
use owncloud_sync_client.SyncEngine.State.{
  SyncState, FileStatus, set_file_status, clear_file_status,
}
use owncloud_sync_client.SyncEngine.Host.{Host}
use owncloud_sync_client.SyncEngine.Urls.{join_remote_path}
use owncloud_sync_client.SyncEngine.Engine.Context.{
  Planned, Job, EngineConfig, EngineState, save_entry, drop_entry, call,
}
use owncloud_sync_client.SyncEngine.Engine.Dirs.{
  Progress, keep_dir, forget_dir, dir_step, process_dirs,
}
use owncloud_sync_client.SyncEngine.Engine.Files.{Outcome, run_task, join_task, run_tasks}
use owncloud_sync_client.SyncEngine.Engine.Effects.{Effect, run_task-Effect}

module _ (H : Host) (q : FilePath) where
  -- What the journal and the folder's state say of the path `q`.
  pub record Untouched (a b : EngineState H) : Type 0 where
    pub row : Dict.get q b.db.metadata ≡ Dict.get q a.db.metadata
    pub status : Dict.get q b.state.file_statuses ≡ Dict.get q a.state.file_statuses

  pub Untouched-refl : (a : EngineState H) → Untouched a a
  Untouched-refl a = record { row = refl; status = refl }

  pub Untouched-trans : {a b c : EngineState H} → Untouched a b → Untouched b c → Untouched a c
  Untouched-trans e f = record { row = f.row ∙ e.row; status = f.status ∙ e.status }

  upsert_entry-row :
      (fault : Fault) (db : SyncJournalDb) (e : JournalEntry)
      → q ≢ e.path
      → Dict.get q (upsert_entry fault db e).1.metadata ≡ Dict.get q db.metadata
  unfolding upsert_entry
  upsert_entry-row none db e ne = Dict.get-insert_ne q e.path _ db.metadata ne
  upsert_entry-row (some reason) db e ne = refl

  delete_entry-row :
      (fault : Fault) (db : SyncJournalDb) (path : FilePath)
      → q ≢ path
      → Dict.get q (delete_entry fault db path).1.metadata ≡ Dict.get q db.metadata
  unfolding delete_entry
  delete_entry-row none db path ne = Dict.get-remove_ne q path db.metadata ne
  delete_entry-row (some reason) db path ne = refl

  set-status :
      (path : FilePath) (x : FileStatus) (s : SyncState)
      → q ≢ path
      → Dict.get q (set_file_status path x s).file_statuses ≡ Dict.get q s.file_statuses
  unfolding set_file_status
  set-status path x s ne = Dict.get-insert_ne q path x s.file_statuses ne

  clear-status :
      (path : FilePath) (s : SyncState)
      → q ≢ path
      → Dict.get q (clear_file_status path s).file_statuses ≡ Dict.get q s.file_statuses
  unfolding clear_file_status
  clear-status path s ne = Dict.get-remove_ne q path s.file_statuses ne

  Effect-Untouched :
      (i : SyncInstruction) (path : FilePath) (st : EngineState H) (o : Outcome H)
      → q ≢ path
      → Effect H i path st o
      → Untouched st o.2
  Effect-Untouched i path st o ne (Effect.transferred etag size id w t r s d) = record {
    row = rw d (upsert_entry-row _ st.db _ ne);
    status = rw s (set-status path _ st.state ne);
  }
  Effect-Untouched i path st o ne (Effect.removed w t r s d) = record {
    row = rw d (delete_entry-row _ st.db path ne);
    status = rw s (clear-status path st.state ne);
  }
  Effect-Untouched i path st o ne (Effect.failed e text r s d) = record {
    row = rw d refl;
    status = rw s (set-status path _ st.state ne);
  }
  Effect-Untouched i path st o ne (Effect.skipped t t' r s d) = record {
    row = rw d refl;
    status = rw s refl;
  }

  module _ (cfg : EngineConfig H) (token : String) where
    keep_dir-Untouched :
        (path : FilePath) (id : Option String) (r : Result (Unit {0}) SyncError) (p : Progress H)
        → q ≢ path
        → Untouched p.engine (keep_dir H path id r p).engine
    unfolding keep_dir save_entry
    keep_dir-Untouched path id (ok u) p ne = record {
      row = upsert_entry-row _ p.engine.db _ ne;
      status = set-status path _ p.engine.state ne;
    }
    keep_dir-Untouched path id (err e) p ne = record {
      row = refl;
      status = set-status path _ p.engine.state ne;
    }

    forget_dir-Untouched :
        (path : FilePath) (r : Result (Unit {0}) SyncError) (p : Progress H)
        → q ≢ path
        → Untouched p.engine (forget_dir H path r p).engine
    unfolding forget_dir drop_entry
    forget_dir-Untouched path (ok u) p ne = record {
      row = delete_entry-row _ p.engine.db path ne;
      status = clear-status path p.engine.state ne;
    }
    forget_dir-Untouched path (err e) p ne = record {
      row = refl;
      status = set-status path _ p.engine.state ne;
    }

    -- A call of the outside changes neither.
    through :
        (a b : EngineState H) (w : H.World) → Untouched (record a { world = w }) b → Untouched a b
    through a b w u = record { row = u.row; status = u.status }

    dir_step-Untouched :
        (i : SyncInstruction) (path : FilePath) (rem : Option RemoteEntry) (url : H.Url)
        (p : Progress H)
        → q ≢ path
        → Untouched p.engine (dir_step H cfg token i path rem url p).engine
    unfolding dir_step call
    dir_step-Untouched upload path rem url p ne =
        through p.engine _ _ (keep_dir-Untouched path _ _ _ ne)
    dir_step-Untouched download path rem url p ne =
        through p.engine _ _ (keep_dir-Untouched path _ _ _ ne)
    dir_step-Untouched delete_local path rem url p ne =
        through p.engine _ _ (forget_dir-Untouched path _ _ ne)
    dir_step-Untouched delete_remote path rem url p ne =
        through p.engine _ _ (forget_dir-Untouched path _ _ ne)
    dir_step-Untouched _ path rem url p ne = Untouched-refl p.engine

    abbrev pub Elsewhere : List Planned → Type 0
    Elsewhere = All (λ (item : Planned). q ≢ item.path)

    pub process_dirs-Untouched :
        (items : List Planned) (p : Progress H)
        → Elsewhere items
        → Untouched p.engine (process_dirs H cfg token items p).1.engine
    unfolding process_dirs
    process_dirs-Untouched [] p ne = Untouched-refl p.engine
    process_dirs-Untouched (item ∷ items) p ne =
        elim (Result-cases (join_remote_path H cfg.space_root item.path)) [
          | inl (url, e) ↦ rw e (
              Untouched-trans (dir_step-Untouched item.instruction item.path item.rem url p ne.0) (
                process_dirs-Untouched items
                  (dir_step H cfg token item.instruction item.path item.rem url p) ne.1))
          | inr (bad, e) ↦ rw e (Untouched-refl p.engine)
        ]

    join_task-engine :
        (o : Outcome H) (events : List HttpEvent) (p : Progress H)
        → (join_task H cfg token o events p).1.engine ≡ o.2
    unfolding join_task
    join_task-engine (ok u, task_http, st) events p = refl
    join_task-engine (err e, task_http, st) events p = refl

    abbrev pub JobsElsewhere : List (Job H) → Type 0
    JobsElsewhere = All (λ (job : Job H). q ≢ job.item.path)

    pub run_tasks-Untouched :
        (jobs : List (Job H)) (events : List HttpEvent) (p : Progress H)
        → JobsElsewhere jobs
        → Untouched p.engine (run_tasks H cfg token jobs events p).1.engine
    unfolding run_tasks
    run_tasks-Untouched [] events p ne = Untouched-refl p.engine
    run_tasks-Untouched (job ∷ jobs) events p ne =
        let i = job.item.instruction in
        let o = run_task H cfg token i job p.engine in
        Untouched-trans
          (rw (join_task-engine o events p) (
            Effect-Untouched i job.item.path p.engine o ne.0
              (run_task-Effect H cfg token i job p.engine)))
          (run_tasks-Untouched jobs _ (join_task H cfg token o events p).1 ne.1)
