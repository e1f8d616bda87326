-- ===== src/SyncEngine/Engine/Tests/Transfers.antt =====
-- The theorems on what a transfer leaves behind, at one download and one upload.
use owncloud_sync_client.Common.{
  ◌≡◌, refl, ◌≢◌, false, none, [], ◌∷◌, ok, arith, string_eq, number_eq, ne_of_test,
}
use owncloud_sync_client.Common.Dict
use owncloud_sync_client.SyncEngine.Types.{download, upload, ignore, keep_both, keep_local}
use owncloud_sync_client.SyncEngine.State.{FileStatus}
use owncloud_sync_client.SyncEngine.Host.Memory.{memory}
use owncloud_sync_client.SyncEngine.Propagate.Download.{
  propagate_download, receive, create_parent, check_etag, write_file, rename_tmp,
}
use owncloud_sync_client.SyncEngine.Propagate.Upload.{
  propagate_upload, upload_put, put_once, put_result,
}
use owncloud_sync_client.Common.Texts.{trim_matches}
use owncloud_sync_client.SyncEngine.Engine.Plan.{}
use owncloud_sync_client.SyncEngine.Urls.{sanitise_url}
use owncloud_sync_client.SyncEngine.Engine.Context.{Job, EngineState, mark, call}
use owncloud_sync_client.SyncEngine.Engine.Dirs.{Progress, keep_dir}
use owncloud_sync_client.SyncEngine.Engine.Files.{
  download_task, upload_task, download_request, upload_request, measure,
}
use owncloud_sync_client.SyncEngine.Engine.Run.{}
use owncloud_sync_client.SyncEngine.Engine.Converge.{
  next_decision, download_task-ignore, upload_task-ignore, keep_dir-download,
}
use owncloud_sync_client.SyncEngine.Engine.Tests.{config, here, there, before, job}

abbrev start : EngineState memory
start = mark memory "yours" FileStatus.syncing before

downloaded :
    call memory (propagate_download memory (download_request memory config "token" job)) start ≡ (
      ok "\"e1\"",
      record {
        method = "GET";
        url = "https://cloud/dav/yours";
        status = 200;
        duration_ms = 0;
        bytes = 2;
      }
          ∷ [],
      record start { world = ("home/mine", 5 ∷ []) ∷ ("home/yours", 7 ∷ 8 ∷ []) ∷ [] },
    )
unfolding call propagate_download number_eq string_eq receive create_parent check_etag write_file
    rename_tmp Dict.get Dict.insert sanitise_url Dict.remove
downloaded = refl

accepts : (w : memory.World) → (memory.statement w).0 ≡ none
accepts w = refl

size_there :
    2
    ≡ (measure memory "home/yours"
        (record start { world = ("home/mine", 5 ∷ []) ∷ ("home/yours", 7 ∷ 8 ∷ []) ∷ [] })).0
unfolding measure Dict.get string_eq
size_there = refl

tag : "e1" ≡ trim_matches b'"' "\"e1\""
unfolding trim_matches number_eq
tag = refl

download_task-ignore_example :
    next_decision memory accepts config "token" job
      (download_task memory config "token" job before).2
      (here "home/yours" 2)
      (there "yours" "e1")
      keep_both
    ≡ ignore
download_task-ignore_example =
    download_task-ignore memory accepts config "token" job before
      (record start { world = ("home/mine", 5 ∷ []) ∷ ("home/yours", 7 ∷ 8 ∷ []) ∷ [] }) "\"e1\"" _
      (here "home/yours" 2) (there "yours" "e1") keep_both downloaded size_there (omega arith) tag

abbrev upload_job : Job memory
upload_job = record {
  item = record { path = "mine"; instruction = upload; rem = none; is_dir = false };
  remote_url = "https://cloud/dav/mine";
}

abbrev marked : EngineState memory
marked = mark memory "mine" FileStatus.syncing before

uploaded :
    call memory
      (propagate_upload memory
        (upload_request memory config "token" upload_job (measure memory "home/mine" marked).0))
      (measure memory "home/mine" marked).1
    ≡ (
      ok "\"e1\"",
      record {
        method = "PUT";
        url = "https://cloud/dav/mine";
        status = 201;
        duration_ms = 0;
        bytes = 1;
      }
          ∷ [],
      marked,
    )
unfolding call propagate_upload upload_put put_once put_result number_eq string_eq Dict.get
    sanitise_url measure
uploaded = refl

size_here : 1 ≡ (measure memory "home/mine" marked).0
unfolding measure Dict.get string_eq
size_here = refl

upload_task-ignore_example :
    next_decision memory accepts config "token" upload_job
      (upload_task memory config "token" upload_job before).2
      (here "home/mine" 1)
      (there "mine" "e1")
      keep_local
    ≡ ignore
upload_task-ignore_example =
    upload_task-ignore memory accepts config "token" upload_job before marked "\"e1\"" _
      (here "home/mine" 1) (there "mine" "e1") keep_local uploaded size_here (omega arith) tag

abbrev progress : Progress memory
progress = record { had_error = false; error_messages = []; engine = before }

tagged : (there "yours" "e1").etag ≢ ""
unfolding string_eq
tagged = ne_of_test "e1" "" refl

keep_dir-download_example :
    next_decision memory accepts config "token" job
      (keep_dir memory "yours" none (ok tt) progress).engine
      (here "home/yours" 0)
      (there "yours" "e1")
      keep_local
    ≡ download
keep_dir-download_example =
    keep_dir-download memory accepts config "token" job none progress (here "home/yours" 0)
      (there "yours" "e1") keep_local refl tagged
