-- ===== src/SyncEngine/Engine/Files.antt =====
-- Phase 3b of `run_sync`: one task for each file instruction, and the collection of their results.
-- Each task runs to its end before the next one starts.
use owncloud_sync_client.Common.{
  ℕ, String, ◌<>◌, true, Option, none, some, List, [], ◌∷◌, ◌++◌, Result, ok, err, unwrap_or,
}
use owncloud_sync_client.Common.Int.{as_i64}
use owncloud_sync_client.Common.Texts.{trim_matches, show_number}
use owncloud_sync_client.SyncEngine.Types.{
  FilePath, SyncInstruction, upload, download, delete_local, delete_remote, conflict, IoError,
  SyncError, parse, io, error_text, HttpEvent,
}
use owncloud_sync_client.SyncEngine.State.{FileStatus}
use owncloud_sync_client.SyncEngine.Host.{Host}
use owncloud_sync_client.SyncEngine.Urls.{join_remote_path}
use owncloud_sync_client.SyncEngine.Propagate.Download.{DownloadRequest, propagate_download}
use owncloud_sync_client.SyncEngine.Propagate.Upload.{UploadRequest, propagate_upload}
use owncloud_sync_client.SyncEngine.Propagate.Ops
use owncloud_sync_client.SyncEngine.Engine.Context.{
  Planned, Job, synced_entry, remote_id, EngineConfig, EngineState, mark, unmark, save_entry,
  drop_entry, call,
}
use owncloud_sync_client.SyncEngine.Engine.Dirs.{Progress}

module _ (H : Host) where
  -- What a task returns, and the state that it leaves.
  abbrev pub Outcome : Type 0
  Outcome = Result (Unit {0}) SyncError × List HttpEvent × EngineState H

  -- `tokio::fs::metadata(path).await.map(|m| m.len()).unwrap_or(0)`
  unfoldable pub measure : FilePath → EngineState H → ℕ × EngineState H
  measure path st =
      let (r, w) = H.file_len path st.world in (unwrap_or 0 r, record st { world = w })

  abbrev pub fail : FilePath → SyncError → String → List HttpEvent → EngineState H → Outcome
  fail path e text events st = (err e, events, mark H path (FileStatus.error text) st)

  -- A transfer that succeeded: its row, and the status.
  unfoldable pub record_transfer :
      FilePath → String → ℕ → Option String → List HttpEvent → EngineState H → Outcome
  record_transfer path etag size file_id events st = (
    ok tt,
    events,
    mark H path FileStatus.ok
        (save_entry H (synced_entry path (trim_matches b'"' etag) (as_i64 size) file_id) st),
  )

  module _ (cfg : EngineConfig H) (bearer_token : String) where
    abbrev pub download_request : Job H → DownloadRequest H
    download_request job = record {
      remote_url = job.remote_url;
      local_dest = H.join_path cfg.local_root job.item.path;
      expected_etag = none;
      bearer_token = bearer_token;
    }

    unfoldable pub after_download :
        Job H → Result String SyncError × List HttpEvent × EngineState H → Outcome
    unfolding measure record_transfer
    after_download job (ok etag, events, st) =
        let (size, st') = measure (H.join_path cfg.local_root job.item.path) st in
        record_transfer job.item.path etag size (remote_id job.item.rem) events st'
    after_download job (err e, events, st) = fail job.item.path e (error_text e) events st

    unfoldable pub download_task : Job H → EngineState H → Outcome
    unfolding after_download
    download_task job st = after_download job (
        call H (propagate_download H (download_request job))
          (mark H job.item.path FileStatus.syncing st))

    abbrev pub upload_request : Job H → ℕ → UploadRequest H
    upload_request job size = record {
      local_path = H.join_path cfg.local_root job.item.path;
      remote_url = job.remote_url;
      space_root = cfg.space_root;
      size = size;
      checksum = none;
      tus_threshold = cfg.tus_threshold;
      bearer_token = bearer_token;
    }

    unfoldable pub after_upload :
        Job H → ℕ → Result String SyncError × List HttpEvent × EngineState H → Outcome
    unfolding record_transfer
    after_upload job size (ok etag, events, st) =
        record_transfer job.item.path etag size none events st
    after_upload job size (err e, events, st) = fail job.item.path e (error_text e) events st

    unfoldable pub upload_task : Job H → EngineState H → Outcome
    unfolding measure after_upload
    upload_task job st =
        let local_path = H.join_path cfg.local_root job.item.path in
        let (size, st1) = measure local_path (mark H job.item.path FileStatus.syncing st) in
        after_upload job size (call H (propagate_upload H (upload_request job size)) st1)

    conflict_suffix : Option String → String
    conflict_suffix none = ""
    conflict_suffix (some e) = "." <> e

    -- `stem_conflict_ts.ext` beside the original; `now` is the time in seconds.
    unfoldable pub make_conflict_path : FilePath → ℕ → FilePath
    unfolding conflict_suffix
    make_conflict_path original now =
        let stem : String = elim (H.file_stem original) [ none ↦ original | some s ↦ s ] in
        let name =
          stem <> ("_conflict_" <> (show_number now <> conflict_suffix (H.extension original))) in
        elim (H.parent original) [ none ↦ name | some p ↦ H.join_path p name ]

    unfoldable pub after_rename : Job H → EngineState H → Result (Unit {0}) IoError → Outcome
    unfolding after_download
    after_rename job st (err e) = fail job.item.path (io e) ("conflict rename: " <> e.message) [] st
    after_rename job st (ok u) =
        after_download job (call H (propagate_download H (download_request job)) st)

    -- The local file moves aside, and the server's is downloaded.
    unfoldable pub conflict_task : Job H → EngineState H → Outcome
    unfolding after_rename
    conflict_task job st =
        let local_path = H.join_path cfg.local_root job.item.path in
        let (r, w) =
          H.rename local_path (make_conflict_path local_path (H.now st.world)) st.world in
        after_rename job (record (mark H job.item.path FileStatus.syncing st) { world = w }) r

    unfoldable pub after_delete :
        FilePath → Result (Unit {0}) SyncError × List HttpEvent × EngineState H → Outcome
    after_delete path (ok u, events, st) = (ok tt, [], unmark H path (drop_entry H path st))
    after_delete path (err e, events, st) = fail path e (error_text e) [] st

    unfoldable pub delete_local_task : Job H → EngineState H → Outcome
    unfolding after_delete
    delete_local_task job st =
        after_delete job.item.path
          (call H (Ops.delete_local H (H.join_path cfg.local_root job.item.path)) st)

    unfoldable pub delete_remote_task : Job H → EngineState H → Outcome
    unfolding after_delete
    delete_remote_task job st =
        after_delete job.item.path (call H (Ops.delete_remote H job.remote_url bearer_token) st)

    -- The `match instruction` of the loop: any other instruction spawns no task, which is the same
    -- as a task that does nothing.
    unfoldable pub run_task : SyncInstruction → Job H → EngineState H → Outcome
    run_task download job st = download_task job st
    run_task upload job st = upload_task job st
    run_task conflict job st = conflict_task job st
    run_task delete_local job st = delete_local_task job st
    run_task delete_remote job st = delete_remote_task job st
    run_task _ job st = (ok tt, [], st)

    abbrev pub add_job :
        Planned
        → Result H.Url String
        → Result (List (Job H)) SyncError
        → Result (List (Job H)) SyncError
    add_job item (err e) rest = err (parse e)
    add_job item (ok url) (err e) = err e
    add_job item (ok url) (ok jobs) = ok (record { item = item; remote_url = url } ∷ jobs)

    -- The loop that spawns the tasks: a URL that cannot be built ends the sync. Whether it can
    -- depends on the root alone, so no task has been spawned then.
    unfoldable pub spawn : List Planned → Result (List (Job H)) SyncError
    spawn [] = ok []
    spawn (item ∷ items) = add_job item (join_remote_path H cfg.space_root item.path) (spawn items)

    -- One round of `join_next`: the events of the task, and its error.
    unfoldable pub join_task : Outcome → List HttpEvent → Progress H → List HttpEvent × Progress H
    join_task (ok u, task_http, st) events p = (events ++ task_http, record p { engine = st })
    join_task (err e, task_http, st) events p = (
      events ++ task_http,
      record {
        had_error = true;
        error_messages = p.error_messages ++ error_text e ∷ [];
        engine = st;
      },
    )

    unfoldable pub run_tasks :
        List (Job H) → List HttpEvent → Progress H → List HttpEvent × Progress H
    run_tasks [] events p = (events, p)
    run_tasks (job ∷ jobs) events p =
        let (events', p') = join_task (run_task job.item.instruction job p.engine) events p in
        run_tasks jobs events' p'
