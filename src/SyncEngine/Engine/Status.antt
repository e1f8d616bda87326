-- ===== src/SyncEngine/Engine/Status.antt =====
-- What a sync leaves in the folder's status, for each way in which `run_sync` can end.
use owncloud_sync_client.Common.{
  String, ◌≡◌, refl, sym, ◌∙◌, inl, inr, true, not, Option, List, [], ◌∷◌, ◌++◌, Result, ok, err,
  arith, is_empty, Result-cases,
}
use owncloud_sync_client.SyncEngine.Types.{
  FilePath, RemoteEntry, SyncInstruction, upload, download, delete_local, delete_remote, SyncError,
  HttpEvent, error_text,
}
use owncloud_sync_client.SyncEngine.State.{SyncState, set_file_status, clear_file_status}
use owncloud_sync_client.SyncEngine.Host.{Host}
use owncloud_sync_client.SyncEngine.Urls.{join_remote_path}
use owncloud_sync_client.SyncEngine.Engine.Context.{
  Planned, Job, EngineConfig, EngineState, save_entry, drop_entry, call,
}
use owncloud_sync_client.SyncEngine.Engine.Dirs.{
  Progress, dir_step, process_dirs, keep_dir, forget_dir,
}
use owncloud_sync_client.SyncEngine.Engine.Effects.{Effect, run_task-Effect}
use owncloud_sync_client.SyncEngine.Engine.Files.{Outcome, run_task, join_task, run_tasks}

-- The fields that only the beginning and the end of a sync set.
pub record SameStatus (a b : SyncState) : Type 0 where
  pub status : a.status ≡ b.status
  pub last_sync : a.last_sync ≡ b.last_sync

module _ (H : Host) where
  -- Progress from one point of a sync to a later one.
  pub record Extends (p q : Progress H) : Type 0 where
    pub same : SameStatus p.engine.state q.engine.state
    pub flagged :
        p.had_error ≡ not (is_empty p.error_messages)
        → q.had_error ≡ not (is_empty q.error_messages)

  flag_push : (xs : List String) (x : String) → not (is_empty (xs ++ x ∷ [])) ≡ true
  flag_push [] x = refl
  flag_push (y ∷ ys) x = refl

  -- A call of the outside changes neither.
  through :
      (p q : Progress H) (w : H.World)
      → Extends (record p { engine = record p.engine { world = w } }) q
      → Extends p q
  through p q w e = record {
    same = record { status = e.same.status; last_sync = e.same.last_sync };
    flagged = e.flagged;
  }

  Extends-trans : {p q r : Progress H} → Extends p q → Extends q r → Extends p r
  Extends-trans e f = record {
    same = record {
      status = e.same.status ∙ f.same.status;
      last_sync = e.same.last_sync ∙ f.same.last_sync;
    };
    flagged = λ h. f.flagged (e.flagged h);
  }

  Extends-refl : (p : Progress H) → Extends p p
  Extends-refl p = record { same = record { status = refl; last_sync = refl }; flagged = λ h. h }

  module _ (cfg : EngineConfig H) (token : String) where
    keep_dir-Extends :
        (path : FilePath) (id : Option String) (r : Result (Unit {0}) SyncError) (p : Progress H)
        → Extends p (keep_dir H path id r p)
    unfolding keep_dir save_entry set_file_status
    keep_dir-Extends path id (ok u) p = ground arith
    keep_dir-Extends path id (err e) p = ground (arith, flag_push p.error_messages (error_text e))

    forget_dir-Extends :
        (path : FilePath) (r : Result (Unit {0}) SyncError) (p : Progress H)
        → Extends p (forget_dir H path r p)
    unfolding forget_dir drop_entry clear_file_status set_file_status
    forget_dir-Extends path (ok u) p = ground arith
    forget_dir-Extends path (err e) p = ground (arith, flag_push p.error_messages (error_text e))

    dir_step-Extends :
        (i : SyncInstruction) (path : FilePath) (rem : Option RemoteEntry) (url : H.Url)
        (p : Progress H)
        → Extends p (dir_step H cfg token i path rem url p)
    unfolding dir_step call
    dir_step-Extends upload path rem url p = through p _ _ (keep_dir-Extends path _ _ _)
    dir_step-Extends download path rem url p = through p _ _ (keep_dir-Extends path _ _ _)
    dir_step-Extends delete_local path rem url p = through p _ _ (forget_dir-Extends path _ _)
    dir_step-Extends delete_remote path rem url p = through p _ _ (forget_dir-Extends path _ _)
    dir_step-Extends _ path rem url p = Extends-refl p

    pub process_dirs-Extends :
        (items : List Planned) (p : Progress H) → Extends p (process_dirs H cfg token items p).1
    unfolding process_dirs
    process_dirs-Extends [] p = Extends-refl p
    process_dirs-Extends (item ∷ items) p =
        elim (Result-cases (join_remote_path H cfg.space_root item.path)) [
          | inl (url, e) ↦ rw e (
              Extends-trans (dir_step-Extends item.instruction item.path item.rem url p) (
                process_dirs-Extends items
                  (dir_step H cfg token item.instruction item.path item.rem url p)))
          | inr (bad, e) ↦ rw e (Extends-refl p)
        ]

    -- A task leaves the folder's status alone.
    Effect-SameStatus :
        (i : SyncInstruction) (path : FilePath) (st : EngineState H) (o : Outcome H)
        → Effect H i path st o
        → SameStatus st.state o.2.state
    unfolding set_file_status clear_file_status
    Effect-SameStatus i path st o (Effect.transferred etag size id fault t r s d) =
        rw s (record { status = refl; last_sync = refl })
    Effect-SameStatus i path st o (Effect.removed fault t r s d) =
        rw s (record { status = refl; last_sync = refl })
    Effect-SameStatus i path st o (Effect.failed e text r s d) =
        rw s (record { status = refl; last_sync = refl })
    Effect-SameStatus i path st o (Effect.skipped t t' r s d) =
        rw s (record { status = refl; last_sync = refl })

    join_task-Extends :
        (o : Outcome H) (events : List HttpEvent) (p : Progress H)
        → SameStatus p.engine.state o.2.state
        → Extends p (join_task H cfg token o events p).1
    unfolding join_task
    join_task-Extends (ok u, task_http, st) events p same = record { same = same; flagged = λ h. h }
    join_task-Extends (err e, task_http, st) events p same = record {
      same = same;
      flagged = λ h. sym (flag_push p.error_messages (error_text e));
    }

    pub run_tasks-Extends :
        (jobs : List (Job H)) (events : List HttpEvent) (p : Progress H)
        → Extends p (run_tasks H cfg token jobs events p).1
    unfolding run_tasks
    run_tasks-Extends [] events p = Extends-refl p
    run_tasks-Extends (job ∷ jobs) events p =
        let i = job.item.instruction in
        let o = run_task H cfg token i job p.engine in
        Extends-trans
          (join_task-Extends o events p (
            Effect-SameStatus i job.item.path p.engine o
              (run_task-Effect H cfg token i job p.engine)))
          (run_tasks-Extends jobs _ (join_task H cfg token o events p).1)
