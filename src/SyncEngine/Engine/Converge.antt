-- ===== src/SyncEngine/Engine/Converge.antt =====
-- What a completed instruction makes of its path in the next sync.
use owncloud_sync_client.Common.{
  ℕ, ◌<◌, ◌^◌, String, ◌≡◌, ◌≢◌, Option, none, some, List, ok, string_eq, number_eq, arith,
}
use owncloud_sync_client.Common.Dict
use owncloud_sync_client.Common.Dict.{dict_laws}
use owncloud_sync_client.Common.Int.{ℤ, pos, as_i64, as_u64, as_u64-as_i64}
use owncloud_sync_client.Common.Texts.{trim_matches}
use owncloud_sync_client.SyncDb.Db.{SyncJournalDb, get_entry, upsert_entry}
use owncloud_sync_client.SyncEngine.Types.{
  LocalEntry, RemoteEntry, SyncInstruction, download, ignore, ConflictStrategy, HttpEvent,
}
use owncloud_sync_client.SyncEngine.State.{FileStatus}
use owncloud_sync_client.SyncDb.Db.Laws.{inserted_lem}
use owncloud_sync_client.SyncEngine.Reconcile.{reconcile}
use owncloud_sync_client.SyncEngine.Host.{Host}
use owncloud_sync_client.SyncEngine.Engine.Context.{
  Job, synced_entry, EngineConfig, EngineState, mark, save_entry, call,
}
use owncloud_sync_client.SyncEngine.Engine.Plan.{baseline}
use owncloud_sync_client.SyncEngine.Engine.Dirs.{Progress, keep_dir}
use owncloud_sync_client.SyncEngine.Propagate.Download.{propagate_download}
use owncloud_sync_client.SyncEngine.Propagate.Upload.{propagate_upload}
use owncloud_sync_client.SyncEngine.Engine.Files.{
  record_transfer, measure, download_request, download_task, upload_request, upload_task,
}

-- The next decision for a path whose row was written by a transfer.
next_is_ignore :
    (loc : LocalEntry) (rem : RemoteEntry) (etag : String) (size : ℕ) (strategy : ConflictStrategy)
    → size < 2 ^ 64
    → loc.size ≡ size
    → rem.etag ≡ etag
    → reconcile (some loc) (some rem) (some (etag, as_u64 (as_i64 size))) strategy ≡ ignore
unfolding reconcile
next_is_ignore loc rem etag size strategy fits same_size same_etag =
    rw (as_u64-as_i64 size fits) (ground arith)

baseline-upsert_entry :
    (db : SyncJournalDb) (path etag : String) (size : ℤ) (file_id : Option String)
    → baseline (get_entry none (upsert_entry none db (synced_entry path etag size file_id)).1 path)
      ≡ some (etag, as_u64 size)
unfolding baseline get_entry upsert_entry
baseline-upsert_entry db path etag size file_id = rw (
  inserted_lem (synced_entry path etag size file_id) (Dict.get path db.metadata),
  Dict.get-insert_self path (synced_entry path etag size file_id) db.metadata,
)

module _ (H : Host) (accepts : (w : H.World) → (H.statement w).0 ≡ none) where
  baseline-save_entry :
      (path etag : String) (size : ℤ) (file_id : Option String) (st : EngineState H)
      → baseline (get_entry none (save_entry H (synced_entry path etag size file_id) st).db path)
        ≡ some (etag, as_u64 size)
  unfolding save_entry
  baseline-save_entry path etag size file_id st =
      rw (accepts st.world) (baseline-upsert_entry st.db path etag size file_id)

  module _ (cfg : EngineConfig H) (token : String) (job : Job H) where
    abbrev pub next_decision :
        EngineState H → LocalEntry → RemoteEntry → ConflictStrategy → SyncInstruction
    next_decision st loc rem strategy =
        reconcile (some loc) (some rem) (baseline (get_entry none st.db job.item.path)) strategy

    record_transfer-ignore :
        (etag : String) (size : ℕ) (id : Option String) (events : List HttpEvent)
        (st : EngineState H) (loc : LocalEntry) (rem : RemoteEntry) (strategy : ConflictStrategy)
        → size < 2 ^ 64
        → loc.size ≡ size
        → rem.etag ≡ trim_matches b'"' etag
        → next_decision (record_transfer H job.item.path etag size id events st).2 loc rem strategy
          ≡ ignore
    unfolding record_transfer
    record_transfer-ignore etag size id events st loc rem strategy fits same_size same_etag =
        rw (baseline-save_entry job.item.path (trim_matches b'"' etag) (as_i64 size) id st)
          (next_is_ignore loc rem _ size strategy fits same_size same_etag)

    -- SQLite accepting the statements, a download that succeeds with an etag and finds the file with a
    -- size leaves nothing to do: while the server keeps that etag, up to its quotes, and the local file
    -- that size, the next sync ignores the path under every strategy.
    pub download_task-ignore :
        (st st1 : EngineState H) (etag : String) (events : List HttpEvent) (loc : LocalEntry)
        (rem : RemoteEntry) (strategy : ConflictStrategy)
        → call H
            (propagate_download H (download_request H cfg token job))
            (mark H job.item.path FileStatus.syncing st)
          ≡ (ok etag, events, st1)
        → loc.size ≡ (measure H (H.join_path cfg.local_root job.item.path) st1).0
        → loc.size < 2 ^ 64
        → rem.etag ≡ trim_matches b'"' etag
        → next_decision (download_task H cfg token job st).2 loc rem strategy ≡ ignore
    unfolding download_task
    download_task-ignore st st1 etag events loc rem strategy done same_size fits same_etag =
        rw done (
          record_transfer-ignore etag _ _ events _ loc rem strategy (rw same_size at fits) same_size
            same_etag)

    -- SQLite accepting the statements, an upload that succeeds with an etag leaves nothing to do: while
    -- the server keeps that etag, up to its quotes, and the local file has the size that was measured
    -- before the upload, the next sync ignores the path under every strategy.
    pub upload_task-ignore :
        (st st1 : EngineState H) (etag : String) (events : List HttpEvent) (loc : LocalEntry)
        (rem : RemoteEntry) (strategy : ConflictStrategy)
        → let (size, marked) =
            measure H
              (H.join_path cfg.local_root job.item.path)
              (mark H job.item.path FileStatus.syncing st) in
          call H (propagate_upload H (upload_request H cfg token job size)) marked
            ≡ (ok etag, events, st1)
          → loc.size ≡ size
          → loc.size < 2 ^ 64
          → rem.etag ≡ trim_matches b'"' etag
          → next_decision (upload_task H cfg token job st).2 loc rem strategy ≡ ignore
    unfolding upload_task
    upload_task-ignore st st1 etag events loc rem strategy done same_size fits same_etag = rw done (
        record_transfer-ignore etag _ _ events _ loc rem strategy (rw same_size at fits) same_size
          same_etag)

    -- SQLite accepting the statements, a directory that an upload or a download has just created is
    -- planned for download again by the next sync, under every strategy, unless the server gives it an
    -- empty etag: the row holds the empty etag and the size 0.
    pub keep_dir-download :
        (id : Option String) (p : Progress H) (loc : LocalEntry) (rem : RemoteEntry)
        (strategy : ConflictStrategy)
        → loc.size ≡ 0
        → rem.etag ≢ ""
        → next_decision (keep_dir H job.item.path id (ok tt) p).engine loc rem strategy ≡ download
    unfolding keep_dir reconcile as_u64
    keep_dir-download id p loc rem strategy empty tagged =
        rw (baseline-save_entry job.item.path "" (pos 0) id p.engine) (ground arith)
