-- ===== src/SyncEngine/Engine/Dirs.antt =====
-- Phase 3a of `run_sync`: the instructions for directories, one after the other.
use owncloud_sync_client.Common.{
  String, Bool, true, Option, none, List, [], ◌∷◌, ◌++◌, Result, ok, err,
}
use owncloud_sync_client.Common.Int.{pos}
use owncloud_sync_client.SyncEngine.Types.{
  FilePath, RemoteEntry, SyncInstruction, upload, download, delete_local, delete_remote, SyncError,
  parse, error_text,
}
use owncloud_sync_client.SyncEngine.State.{FileStatus}
use owncloud_sync_client.SyncEngine.Host.{Host, Exec, fs}
use owncloud_sync_client.SyncEngine.Urls.{join_remote_path}
use owncloud_sync_client.SyncEngine.Propagate.Ops.{
  delete_local_dir, delete_remote as send_delete, mkdir_remote,
}
use owncloud_sync_client.SyncEngine.Engine.Context.{
  Planned, synced_entry, remote_id, EngineConfig, EngineState, mark, unmark, save_entry, drop_entry,
  call,
}

module _ (H : Host) where
  -- The variables of the loops: `had_error` and `error_messages`, over the engine's state.
  pub record Progress : Type 0 where
    pub had_error : Bool
    pub error_messages : List String
    pub engine : EngineState H

  -- A failed instruction: it is reported, and the path's status is the error.
  unfoldable pub report_failure : FilePath → SyncError → Progress → Progress
  report_failure path e p = record {
    had_error = true;
    error_messages = p.error_messages ++ error_text e ∷ [];
    engine = mark H path (FileStatus.error (error_text e)) p.engine;
  }

  -- A directory that exists on both sides now: its row has an empty etag and the size 0.
  unfoldable pub keep_dir :
      FilePath → Option String → Result (Unit {0}) SyncError → Progress → Progress
  unfolding report_failure
  keep_dir path file_id (ok u) p = record p {
    engine =
        mark H path FileStatus.ok (save_entry H (synced_entry path "" (pos 0) file_id) p.engine);
  }
  keep_dir path file_id (err e) p = report_failure path e p

  -- A directory that is gone on both sides now.
  unfoldable pub forget_dir : FilePath → Result (Unit {0}) SyncError → Progress → Progress
  unfolding report_failure
  forget_dir path (ok u) p = record p { engine = unmark H path (drop_entry H path p.engine) }
  forget_dir path (err e) p = report_failure path e p

  abbrev attempt :
      Exec H (Unit {0}) → (Result (Unit {0}) SyncError → Progress → Progress) → Progress → Progress
  attempt m next p = let (r, events, st) = call H m p.engine in next r (record p { engine = st })

  module _ (cfg : EngineConfig H) (bearer_token : String) where
    -- The `match instruction` of the loop. Any other instruction is only logged.
    unfoldable pub dir_step :
        SyncInstruction → FilePath → Option RemoteEntry → H.Url → Progress → Progress
    unfolding keep_dir forget_dir
    dir_step upload path rem url = attempt (mkdir_remote H url bearer_token) (keep_dir path none)
    dir_step download path rem url =
        attempt (fs H (H.create_dir_all (H.join_path cfg.local_root path)))
          (keep_dir path (remote_id rem))
    dir_step delete_remote path rem url = attempt (send_delete H url bearer_token) (forget_dir path)
    dir_step delete_local path rem url =
        attempt (delete_local_dir H (H.join_path cfg.local_root path)) (forget_dir path)
    dir_step _ path rem url = λ p. p

    abbrev with_url :
        Result H.Url String
        → (H.Url → Progress → Result (Unit {0}) SyncError × Progress)
        → Progress
        → Result (Unit {0}) SyncError × Progress
    with_url (ok url) next p = next url p
    with_url (err e) next p = (err (parse e), p)

    -- The loop. A URL that cannot be built ends the sync.
    unfoldable pub process_dirs : List Planned → Progress → Result (Unit {0}) SyncError × Progress
    process_dirs [] p = (ok tt, p)
    process_dirs (item ∷ items) p =
        with_url (join_remote_path H cfg.space_root item.path)
          (λ url q. process_dirs items (dir_step item.instruction item.path item.rem url q)) p
