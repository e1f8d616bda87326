-- ===== src/SyncEngine/Engine/Effects.antt =====
-- crates/sync-engine/src/engine.rs: the abstract view of a file task.
use owncloud_sync_client.Common.{
  ℕ, String, ◌≡◌, refl, ap, Bool, true, false, Option, List, [], Result, ok, err, string_eq,
}
use owncloud_sync_client.Common.Dict
use owncloud_sync_client.Common.Int.{as_i64}
use owncloud_sync_client.Common.Texts.{trim_matches}
use owncloud_sync_client.SyncDb.Db.{upsert_entry, delete_entry}
use owncloud_sync_client.SyncEngine.Types.{
  FilePath, SyncInstruction, upload, download, delete_local, delete_remote, conflict, IoError,
  SyncError, HttpEvent,
}
use owncloud_sync_client.SyncEngine.State.{
  SyncState, FileStatus, set_file_status, clear_file_status,
}
use owncloud_sync_client.SyncEngine.Host.{Host}
use owncloud_sync_client.SyncEngine.Engine.Context.{
  Job, synced_entry, EngineConfig, EngineState, save_entry, drop_entry, call,
}
use owncloud_sync_client.SyncEngine.Engine.Files.{
  Outcome, fail, record_transfer, after_download, after_upload, after_rename, after_delete, measure,
  run_task, download_task, upload_task, conflict_task, delete_local_task, delete_remote_task,
}

abbrev pub is_transfer : SyncInstruction → Bool
is_transfer upload = true
is_transfer download = true
is_transfer conflict = true
is_transfer _ = false

abbrev pub is_delete : SyncInstruction → Bool
is_delete delete_local = true
is_delete delete_remote = true
is_delete _ = false

set_file_status_twice :
    (path : FilePath) (a b : FileStatus) (s : SyncState)
    → set_file_status path a (set_file_status path b s) ≡ set_file_status path a s
unfolding set_file_status
set_file_status_twice path a b s =
    ap (λ d. record s { file_statuses = d }) (Dict.insert-insert path a b s.file_statuses)

module _ (H : Host) where
  -- From `st`, the task for an instruction at `path` returns a result and leaves a state. A
  -- transfer that succeeds writes a row with the trimmed etag; a deletion that succeeds removes the
  -- row; a failure of either leaves the journal alone. SQLite's
  -- answer to the statement, in the world `w`, is dropped.
  pub data Effect (i : SyncInstruction) (path : FilePath) (st : EngineState H) (o : Outcome H)
      : Type 0 where
    transferred :
        (etag : String) (size : ℕ) (file_id : Option String) (w : H.World)
        → is_transfer i ≡ true
        → o.0 ≡ ok tt
        → o.2.state ≡ set_file_status path FileStatus.ok st.state
        → o.2.db
          ≡ (upsert_entry
              (H.statement w).0
              st.db
              (synced_entry path (trim_matches b'"' etag) (as_i64 size) file_id)).1
        → Effect i path st o
    removed :
        (w : H.World)
        → is_delete i ≡ true
        → o.0 ≡ ok tt
        → o.2.state ≡ clear_file_status path st.state
        → o.2.db ≡ (delete_entry (H.statement w).0 st.db path).1
        → Effect i path st o
    failed :
        (e : SyncError) (text : String)
        → o.0 ≡ err e
        → o.2.state ≡ set_file_status path (FileStatus.error text) st.state
        → o.2.db ≡ st.db
        → Effect i path st o
    skipped :
        is_transfer i ≡ false
        → is_delete i ≡ false
        → o.0 ≡ ok tt
        → o.2.state ≡ st.state
        → o.2.db ≡ st.db
        → Effect i path st o

  module _ (i : SyncInstruction) (path : FilePath) (st : EngineState H) where
    -- The endings that the tasks share, reached from a state `st'` in which the path may have been
    -- marked as syncing.
    record_transfer-Effect :
        (st' : EngineState H) (etag : String) (size : ℕ) (file_id : Option String)
        (events : List HttpEvent)
        → is_transfer i ≡ true
        → st'.state ≡ set_file_status path FileStatus.syncing st.state
        → st'.db ≡ st.db
        → Effect i path st (record_transfer H path etag size file_id events st')
    unfolding record_transfer save_entry
    record_transfer-Effect st' etag size file_id events t s d =
        Effect.transferred etag size file_id st'.world t refl
          (rw s (set_file_status_twice path FileStatus.ok FileStatus.syncing st.state)) (rw d refl)

    fail_marked-Effect :
        (st' : EngineState H) (e : SyncError) (text : String) (events : List HttpEvent)
        → st'.state ≡ set_file_status path FileStatus.syncing st.state
        → st'.db ≡ st.db
        → Effect i path st (fail H path e text events st')
    fail_marked-Effect st' e text events s d =
        Effect.failed e text refl
          (rw s (set_file_status_twice path (FileStatus.error text) FileStatus.syncing st.state)) d

  module _ (cfg : EngineConfig H) (token : String) (i : SyncInstruction) (job : Job H)
      (st : EngineState H) where
    after_download-Effect :
        (r : Result String SyncError) (events : List HttpEvent) (st' : EngineState H)
        → is_transfer i ≡ true
        → st'.state ≡ set_file_status job.item.path FileStatus.syncing st.state
        → st'.db ≡ st.db
        → Effect i job.item.path st (after_download H cfg token job (r, events, st'))
    unfolding after_download
    after_download-Effect (ok etag) events st' t s d =
        unfold measure in record_transfer-Effect i job.item.path st _ etag _ _ events t s d
    after_download-Effect (err e) events st' t s d =
        fail_marked-Effect i job.item.path st st' e _ events s d

    after_upload-Effect :
        (size : ℕ) (r : Result String SyncError) (events : List HttpEvent) (st' : EngineState H)
        → is_transfer i ≡ true
        → st'.state ≡ set_file_status job.item.path FileStatus.syncing st.state
        → st'.db ≡ st.db
        → Effect i job.item.path st (after_upload H cfg token job size (r, events, st'))
    unfolding after_upload
    after_upload-Effect size (ok etag) events st' t s d =
        record_transfer-Effect i job.item.path st st' etag size _ events t s d
    after_upload-Effect size (err e) events st' t s d =
        fail_marked-Effect i job.item.path st st' e _ events s d

    after_rename-Effect :
        (st' : EngineState H) (r : Result (Unit {0}) IoError)
        → is_transfer i ≡ true
        → st'.state ≡ set_file_status job.item.path FileStatus.syncing st.state
        → st'.db ≡ st.db
        → Effect i job.item.path st (after_rename H cfg token job st' r)
    unfolding after_rename call
    after_rename-Effect st' (ok u) t s d = after_download-Effect _ _ _ t s d
    after_rename-Effect st' (err e) t s d = fail_marked-Effect i job.item.path st st' _ _ [] s d

    after_delete-Effect :
        (r : Result (Unit {0}) SyncError) (events : List HttpEvent) (w : H.World)
        → is_delete i ≡ true
        → Effect i job.item.path st
            (after_delete H cfg token job.item.path (r, events, record st { world = w }))
    unfolding after_delete drop_entry
    after_delete-Effect (ok u) events w t = Effect.removed w t refl refl refl
    after_delete-Effect (err e) events w t = Effect.failed e _ refl refl refl

  -- Every task, whatever the server, the file system and SQLite answer, ends in one of the effects
  -- that its instruction allows at its own path.
  pub run_task-Effect :
      (cfg : EngineConfig H) (token : String) (i : SyncInstruction) (job : Job H)
      (st : EngineState H)
      → Effect i job.item.path st (run_task H cfg token i job st)
  unfolding run_task download_task upload_task conflict_task delete_local_task delete_remote_task
      call measure
  run_task-Effect cfg token download job st =
      after_download-Effect cfg token download job st _ _ _ refl refl refl
  run_task-Effect cfg token upload job st =
      after_upload-Effect cfg token upload job st _ _ _ _ refl refl refl
  run_task-Effect cfg token conflict job st =
      after_rename-Effect cfg token conflict job st _ _ refl refl refl
  run_task-Effect cfg token delete_local job st =
      after_delete-Effect cfg token delete_local job st _ _ _ refl
  run_task-Effect cfg token delete_remote job st =
      after_delete-Effect cfg token delete_remote job st _ _ _ refl
  run_task-Effect cfg token _ job st = Effect.skipped refl refl refl refl refl
