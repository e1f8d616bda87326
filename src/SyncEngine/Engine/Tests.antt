-- ===== src/SyncEngine/Engine/Tests.antt =====
-- A run of the engine over files in memory, and its theorems there.
mod Transfers
use owncloud_sync_client.Common.{
  ℕ, String, ◌≡◌, ◌∙◌, sym, subst, ap, refl, ◌≢◌, false, none, some, [], ◌∷◌, ok, arith, string_eq,
  number_eq, ne_of_test, length, All,
}
use owncloud_sync_client.Common.Dict
use owncloud_sync_client.SyncDb.Db.{empty, get_entry, upsert_entry}
use owncloud_sync_client.SyncEngine.Types.{
  FilePath, LocalEntry, RemoteEntry, download, upload, ignore, keep_both, keep_local, SyncReport,
}
use owncloud_sync_client.SyncEngine.State.{FolderStatus, FileStatus}
use owncloud_sync_client.SyncEngine.Host.Memory.{memory}
use owncloud_sync_client.SyncEngine.Propagate.Download.{
  propagate_download, receive, create_parent, check_etag, write_file, rename_tmp,
}
use owncloud_sync_client.SyncEngine.Propagate.Upload.{
  propagate_upload, upload_put, put_once, put_result,
}
use owncloud_sync_client.Common.Texts.{
  strip_prefix, trim_matches, trim_start_matches, trim_end_matches, ends_with, split,
}
use owncloud_sync_client.SyncEngine.Engine.Plan.{
  union_keys, collect, plan_paths, plan_path, add_item, baseline,
}
use owncloud_sync_client.SyncEngine.Reconcile.{reconcile}
use owncloud_sync_client.SyncEngine.Urls.{
  sanitise_url, join_remote_path, push_segments, path_components,
}
use owncloud_sync_client.Common.Int.{as_i64}
use owncloud_sync_client.SyncEngine.Engine.Context.{
  save_entry, Job, EngineConfig, Discovery, EngineState, mark, call,
}
use owncloud_sync_client.SyncEngine.Engine.Dirs.{process_dirs, Progress, keep_dir}
use owncloud_sync_client.SyncEngine.Engine.Files.{
  spawn, run_tasks, join_task, after_download, after_upload, record_transfer, run_task,
  download_task, upload_task, download_request, upload_request, measure,
}
use owncloud_sync_client.SyncEngine.Engine.Run.{
  propagate, reconcile_all, after_dirs, after_spawn, transfer_files, make_report, Found, begin,
  discover, all_paths, run_sync,
}
use owncloud_sync_client.SyncEngine.Engine.Effects.{Effect, run_task-Effect}
use owncloud_sync_client.SyncEngine.Engine.Ending.{Ended, run_sync-Ended}
use owncloud_sync_client.SyncEngine.Engine.Counts.{accounted, run_sync-accounted}
use owncloud_sync_client.SyncEngine.Engine.Converge.{
  next_decision, download_task-ignore, upload_task-ignore, keep_dir-download,
}
use owncloud_sync_client.SyncEngine.Engine.Frame.{Untouched}
use owncloud_sync_client.SyncEngine.Engine.Locality.{run_sync-Untouched}

abbrev pub config : EngineConfig memory
config = record {
  folder_id = 1;
  local_root = "home";
  space_root = "https://cloud/dav";
  conflict_strategy = keep_both;
  tus_threshold = 10;
}

abbrev pub here : FilePath → ℕ → LocalEntry
here path size = record {
  path = path;
  mtime = 0;
  size = size;
  inode = 1;
  is_virtual = false;
  is_dir = false;
}

abbrev pub there : FilePath → String → RemoteEntry
there path etag = record {
  path = path;
  etag = etag;
  mtime = 0;
  size = 2;
  file_id = "f";
  permissions = 0;
  is_dir = false;
}

-- A file that only the server has, and one that only the local folder has.
abbrev discovery : Discovery memory
discovery = record {
  get_valid_token = λ w. (ok "token", w);
  discover_local = λ root w. (ok (here "home/mine" 1 ∷ []), w);
  discover_remote = λ root token n. (ok (there "yours" "e1" ∷ []), n);
  hash_order = λ paths. paths;
  task_order = λ jobs. jobs;
}

abbrev pub before : EngineState memory
before = record {
  state = record {
    folder_id = 1;
    status = FolderStatus.idle;
    file_statuses = [];
    last_sync = none;
    errors = [];
  };
  db = empty;
  world = ("home/mine", 5 ∷ []) ∷ [];
}

abbrev pub job : Job memory
job = record {
  item = record {
    path = "yours";
    instruction = download;
    rem = some (there "yours" "e1");
    is_dir = false;
  };
  remote_url = "https://cloud/dav/yours";
}

run_task-Effect_example :
    Effect memory download "yours" before (run_task memory config "token" download job before)
run_task-Effect_example = run_task-Effect memory config "token" download job before

run_sync-Ended_example : Ended memory before (run_sync memory config discovery before)
run_sync-Ended_example = run_sync-Ended memory config discovery before

abbrev found : Found memory
found = record {
  bearer_token = "token";
  locals = here "home/mine" 1 ∷ [];
  remotes = there "yours" "e1" ∷ [];
  events = [];
}

discovered :
    discover memory config discovery (begin memory before) ≡ (ok found, begin memory before)
unfolding discover
discovered = refl

paths : all_paths memory config discovery found ≡ "mine" ∷ "yours" ∷ []
unfolding all_paths union_keys collect Dict.insert strip_prefix string_eq number_eq
paths = refl

abbrev report : SyncReport
report = record {
  folder_id = 1;
  remote_entries = 1;
  local_entries = 1;
  downloads = 1;
  uploads = 1;
  conflicts = 0;
  deletes_local = 0;
  deletes_remote = 0;
  ignored = 0;
  errors = [];
  http_events =
      record {
        method = "PUT";
        url = "https://cloud/dav/mine";
        status = 201;
        duration_ms = 0;
        bytes = 1;
      }
      ∷ record {
        method = "GET";
        url = "https://cloud/dav/yours";
        status = 200;
        duration_ms = 0;
        bytes = 2;
      }
      ∷ [];
  duration_ms = 0;
}

reported :
    run_sync memory config discovery before
    ≡ (ok report, (run_sync memory config discovery before).1)
unfolding run_sync discover propagate process_dirs reconcile_all plan_paths all_paths union_keys
    collect Dict.insert add_item plan_path reconcile Dict.get string_eq strip_prefix number_eq
    baseline get_entry after_dirs after_spawn transfer_files make_report spawn run_tasks join_task
    join_remote_path push_segments path_components trim_matches trim_start_matches trim_end_matches
    ends_with split run_task download_task upload_task after_download after_upload record_transfer
    measure save_entry upsert_entry call propagate_download propagate_upload upload_put put_once
    put_result receive create_parent check_etag write_file rename_tmp sanitise_url Dict.remove
    as_i64
reported = refl

run_sync-accounted_example : accounted report ≡ 2
run_sync-accounted_example =
    run_sync-accounted memory config discovery before (run_sync memory config discovery before).1
      (begin memory before) found report discovered reported
    ∙ ap length paths

abbrev other : FilePath
other = "other"

not_mine : other ≢ "mine"
unfolding string_eq
not_mine = ne_of_test other "mine" refl

not_yours : other ≢ "yours"
unfolding string_eq
not_yours = ne_of_test other "yours" refl

run_sync-Untouched_example :
    Untouched memory "other" before (run_sync memory config discovery before).1
run_sync-Untouched_example =
    run_sync-Untouched memory "other" config discovery before (begin memory before) found
      (λ jobs h. h) discovered
      (subst (All (λ (p : FilePath). "other" ≢ p)) (sym paths) (not_mine, (not_yours, tt)))
