-- ===== src/SyncEngine/Propagate/Download.antt =====
-- crates/sync-engine/src/propagate/download.rs: GET, then a temporary file that is renamed.
pub mod Contents
pub mod Laws
pub mod Atomic
mod Tests
use owncloud_sync_client.Common.{
  ℕ, String, ◌<>◌, Option, none, some, [], ◌∷◌, Result, ok, err, ◌!=◌, string_eq, number_eq, length,
  if◌then◌else◌,
}
use owncloud_sync_client.Common.Texts.{trim_matches}
use owncloud_sync_client.SyncEngine.Types.{FilePath, SyncError, http, parse}
use owncloud_sync_client.SyncEngine.Host.{
  Host, Bytes, Request, Response, Exec, Net, fs, send, read_body, millis, push_event, pure, raise,
  ◌>>=◌, ◌>>◌,
}
use owncloud_sync_client.SyncEngine.Urls.{sanitise_url}
use owncloud_sync_client.SyncEngine.Propagate.Ops.{bearer}

-- The text of a header, or the empty text.
abbrev pub or_empty : Option String → String
or_empty none = ""
or_empty (some s) = s

module _ (H : Host) where
  pub record DownloadRequest : Type 0 where
    pub remote_url : H.Url
    pub local_dest : FilePath
    pub expected_etag : Option String
    pub bearer_token : String

  abbrev pub tmp_path : DownloadRequest → FilePath
  tmp_path req = H.with_extension req.local_dest "tmp"

  unfoldable pub create_parent : Option FilePath → Exec H (Unit {0})
  create_parent none = pure tt
  create_parent (some parent) = fs H (H.create_dir_all parent)

  unfoldable pub check_etag : Option String → String → Exec H (Unit {0})
  check_etag none server_etag = pure tt
  check_etag (some expected) server_etag =
      if trim_matches b'"' server_etag != trim_matches b'"' expected
      then raise (parse ("ETag mismatch: expected " <> (expected <> (", got " <> server_etag))))
      else pure tt

  -- A failing rename removes the temporary file, and a failure of that is ignored.
  abbrev pub clean_up :
      FilePath → Net H → Result (Unit {0}) SyncError × Net H → Result (Unit {0}) SyncError × Net H
  clean_up tmp n (ok u, n') = (ok u, n')
  clean_up tmp n (err e, n') = (err e, record n' { world = (H.remove_file tmp n'.world).1 })

  unfoldable pub rename_tmp : FilePath → FilePath → Exec H (Unit {0})
  rename_tmp tmp dest n = clean_up tmp n (fs H (H.rename tmp dest) n)

  unfoldable pub write_file : FilePath → Bytes → Exec H (Unit {0})
  write_file path bytes = do
    fs H (H.create path)
    fs H (H.write_all path bytes)
    fs H (H.flush path)

  -- What follows a response with status 200.
  unfoldable pub receive : DownloadRequest → ℕ → Response → Exec H String
  receive req t0 resp = do
    create_parent (H.parent req.local_dest)
    bytes ← read_body H resp
    push_event H "GET" (sanitise_url H req.remote_url) resp.status t0 (length bytes)
    check_etag req.expected_etag (or_empty resp.etag)
    write_file (tmp_path req) bytes
    rename_tmp (tmp_path req) req.local_dest
    pure (or_empty resp.etag)

  unfoldable pub reject : DownloadRequest → ℕ → Response → Exec H String
  reject req t0 resp = do
    push_event H "GET" (sanitise_url H req.remote_url) resp.status t0 0
    raise (http resp.status ("GET failed: " <> resp.status_text))

  abbrev pub get_request : DownloadRequest → Request
  get_request req = record {
    method = "GET";
    url = H.as_str req.remote_url;
    headers = bearer req.bearer_token ∷ [];
    body = [];
  }

  unfoldable pub propagate_download : DownloadRequest → Exec H String
  propagate_download req = do
    t0 ← millis H
    resp ← send H (get_request req)
    if resp.status != 200 then reject req t0 resp else receive req t0 resp
