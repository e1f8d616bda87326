-- ===== src/SyncEngine/Propagate/Download/Tests.antt =====
-- A download with an old file in place, over the files in memory, which keep the laws of the contents.
use owncloud_sync_client.Common.{
  ◌≡◌, ◌≢◌, refl, ◌∙◌, Option, none, some, [], ◌∷◌, ◌++◌, ap, ok, err, string_eq, ne_of_test,
}
use owncloud_sync_client.Common.Dict
use owncloud_sync_client.SyncEngine.Types.{FilePath, IoError}
use owncloud_sync_client.SyncEngine.Host.{Bytes, Net}
use owncloud_sync_client.SyncEngine.Host.Memory.{
  memory, Disk, or_nothing, content_of, remove_result, rename_result,
}
use owncloud_sync_client.SyncEngine.Propagate.Download.{DownloadRequest, propagate_download}
use owncloud_sync_client.SyncEngine.Propagate.Download.Contents.{FileLaws}
use owncloud_sync_client.SyncEngine.Propagate.Download.Atomic.{
  Delivered, propagate_download-Delivered, propagate_download-others,
}

get-remove_result :
    (q p : FilePath) (found : Option Bytes) (disk : Disk)
    → q ≢ p
    → Dict.get q (remove_result p found disk).1 ≡ Dict.get q disk
get-remove_result q p none disk ne = refl
get-remove_result q p (some b) disk ne = Dict.get-remove_ne q p disk ne

get-rename_result_ne :
    (q a b : FilePath) (found : Option Bytes) (disk : Disk)
    → q ≢ a
    → q ≢ b
    → Dict.get q (rename_result a b found disk).1 ≡ Dict.get q disk
get-rename_result_ne q a b none disk na nb = refl
get-rename_result_ne q a b (some bytes) disk na nb =
    Dict.get-insert_ne q b bytes (Dict.remove a disk) nb ∙ Dict.get-remove_ne q a disk na

get-rename_result :
    (a b : FilePath) (found : Option Bytes) (disk : Disk)
    → (rename_result a b found disk).0 ≡ ok tt
    → Dict.get b (rename_result a b found disk).1 ≡ found
get-rename_result a b none disk done = absurd (cc done)
get-rename_result a b (some bytes) disk done = Dict.get-insert_self b bytes (Dict.remove a disk)

get-rename_result_failed :
    (q a b : FilePath) (found : Option Bytes) (disk : Disk) (e : IoError)
    → (rename_result a b found disk).0 ≡ err e
    → Dict.get q (rename_result a b found disk).1 ≡ Dict.get q disk
get-rename_result_failed q a b none disk e failed = refl
get-rename_result_failed q a b (some bytes) disk e failed = absurd (cc failed)

abbrev memory_laws : FileLaws memory
memory_laws = record {
  content = λ q disk. Dict.get q disk;
  written = λ q disk. content_of q disk;
  send-content = λ q r disk. refl;
  create_dir_all-content = λ q p disk. refl;
  create-content_ne = λ q p disk ne. Dict.get-insert_ne q p [] disk ne;
  create-written = λ p disk done. ap or_nothing (Dict.get-insert_self p [] disk);
  write_all-content_ne = λ q p b disk ne. Dict.get-insert_ne q p (content_of p disk ++ b) disk ne;
  write_all-written =
      λ p b disk done. ap or_nothing (Dict.get-insert_self p (content_of p disk ++ b) disk);
  flush-content_ne = λ q p disk ne. Dict.get-insert_ne q p (content_of p disk) disk ne;
  flush-content = λ p disk done. Dict.get-insert_self p (content_of p disk) disk;
  remove_file-content_ne = λ q p disk ne. get-remove_result q p (Dict.get p disk) disk ne;
  rename-content_ne = λ q a b disk na nb. get-rename_result_ne q a b (Dict.get a disk) disk na nb;
  rename-content = λ a b disk done. get-rename_result a b (Dict.get a disk) disk done;
  rename-content_failed =
      λ q a b disk e failed. get-rename_result_failed q a b (Dict.get a disk) disk e failed;
}

abbrev request : DownloadRequest memory
request = record {
  remote_url = "https://cloud/dav/a";
  local_dest = "home/a";
  expected_etag = none;
  bearer_token = "token";
}

abbrev before : Net memory
before = record { world = ("home/a", 1 ∷ []) ∷ ("home/b", 2 ∷ []) ∷ []; events = [] }

abbrev neighbour : FilePath
neighbour = "home/b"

abbrev tmp : FilePath
tmp = "home/a.tmp"

dest_apart : request.local_dest ≢ tmp
unfolding string_eq
dest_apart = ne_of_test request.local_dest tmp refl

neighbour_apart : neighbour ≢ tmp
unfolding string_eq
neighbour_apart = ne_of_test neighbour tmp refl

neighbour_other : neighbour ≢ request.local_dest
unfolding string_eq
neighbour_other = ne_of_test neighbour request.local_dest refl

propagate_download-Delivered_example :
    Delivered memory memory_laws request before (propagate_download memory request before)
propagate_download-Delivered_example =
    propagate_download-Delivered memory memory_laws request dest_apart before

propagate_download-others_example :
    Dict.get neighbour (propagate_download memory request before).1.world
    ≡ Dict.get neighbour before.world
propagate_download-others_example =
    propagate_download-others memory memory_laws request neighbour neighbour_apart neighbour_other
      before
