-- ===== src/SyncEngine/Host/Memory.antt =====
-- A concrete outside for the examples: files in memory, a server that answers every request by its
-- method, a clock that stands still, and statements that SQLite accepts.
use owncloud_sync_client.Common.{
  ℕ, String, ◌<>◌, true, Option, none, some, [], ◌∷◌, ◌++◌, Result, ok, err, string_eq, length,
  ◌==◌, if◌then◌else◌,
}
use owncloud_sync_client.Common.Dict
use owncloud_sync_client.Common.Dict.{Dict}
use owncloud_sync_client.Common.Texts
use owncloud_sync_client.SyncEngine.Types.{FilePath, IoError}
use owncloud_sync_client.SyncEngine.Host.{Host, Bytes, Response}

abbrev pub Disk : Type 0
Disk = Dict FilePath Bytes

abbrev pub missing : IoError
missing = record { not_found = true; message = "not found" }

abbrev respond : ℕ → Response
respond status = record {
  status = status;
  status_text = "";
  etag = some "\"e1\"";
  location = none;
  body = ok (7 ∷ 8 ∷ []);
}

abbrev answer : String → Response
answer method = respond (if method == "GET" then 200 else if method == "DELETE" then 204 else 201)

abbrev read_result : {A : Type 0} → (Bytes → A) → Option Bytes → Disk → Result A IoError × Disk
read_result f none disk = (err missing, disk)
read_result f (some bytes) disk = (ok (f bytes), disk)

abbrev pub rename_result :
    FilePath → FilePath → Option Bytes → Disk → Result (Unit {0}) IoError × Disk
rename_result from to none disk = (err missing, disk)
rename_result from to (some bytes) disk = (ok tt, Dict.insert to bytes (Dict.remove from disk))

abbrev pub remove_result : FilePath → Option Bytes → Disk → Result (Unit {0}) IoError × Disk
remove_result path none disk = (err missing, disk)
remove_result path (some bytes) disk = (ok tt, Dict.remove path disk)

abbrev pub or_nothing : Option Bytes → Bytes
or_nothing none = []
or_nothing (some bytes) = bytes

abbrev pub content_of : FilePath → Disk → Bytes
content_of path disk = or_nothing (Dict.get path disk)

abbrev pub memory : Host
memory = record {
  World = Disk;
  Url = String;
  as_str = λ url. url;
  url_path = λ url. url;
  can_be_a_base = λ url. true;
  pop_if_empty = λ url. url;
  push_segment = λ url segment. url <> ("/" <> segment);
  join_url = λ url rel. ok (url <> ("/" <> rel));
  parse_url = ok;
  set_path = λ url path. path;
  without_query = λ url. url;
  without_fragment = λ url. url;
  scheme = λ url. "https";
  host_str = λ url. none;
  port = λ url. none;
  join_path = λ a b. a <> ("/" <> b);
  parent = λ path. none;
  with_extension = λ path extension. path <> ("." <> extension);
  file_stem = λ path. none;
  extension = λ path. none;
  strip_prefix = λ path root. Texts.strip_prefix (root <> "/") path;
  send = λ request disk. (ok (answer request.method), disk);
  create_dir_all = λ path disk. (ok tt, disk);
  remove_file = λ path disk. remove_result path (Dict.get path disk) disk;
  remove_dir_all = λ path disk. remove_result path (Dict.get path disk) disk;
  rename = λ from to disk. rename_result from to (Dict.get from disk) disk;
  read = λ path disk. read_result (λ bytes. bytes) (Dict.get path disk) disk;
  create = λ path disk. (ok tt, Dict.insert path [] disk);
  write_all = λ path bytes disk. (ok tt, Dict.insert path (content_of path disk ++ bytes) disk);
  flush = λ path disk. (ok tt, Dict.insert path (content_of path disk) disk);
  file_len = λ path disk. read_result length (Dict.get path disk) disk;
  millis = λ disk. 0;
  now = λ disk. 100;
  statement = λ disk. (none, disk);
}
