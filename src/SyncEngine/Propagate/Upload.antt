-- ===== src/SyncEngine/Propagate/Upload.antt =====
-- crates/sync-engine/src/propagate/upload.rs: a plain PUT, with a retry once the parent collections
-- exist, or a TUS upload in one chunk.
use owncloud_sync_client.Common.{
  ℕ, String, ◌<>◌, Bool, ◌||◌, Option, none, some, List, [], ◌∷◌, ◌++◌, Result, ok, err, ◌==◌, ◌!=◌,
  string_eq, number_eq, leb, if◌then◌else◌, unwrap_or,
}
use owncloud_sync_client.Common.Texts.{
  trim_start_matches, trim_end_matches, ends_with, strip_prefix, starts_with, split, join,
  show_number,
}
use owncloud_sync_client.SyncEngine.Types.{FilePath, http, parse}
use owncloud_sync_client.SyncEngine.Host.{
  Host, Bytes, Request, Response, Exec, fs, send, millis, push_event, pure, raise, ◌>>=◌, ◌>>◌,
}
use owncloud_sync_client.SyncEngine.Urls.{sanitise_url}
use owncloud_sync_client.SyncEngine.Propagate.Ops.{bearer, mkdir_remote}
use owncloud_sync_client.SyncEngine.Propagate.Download.{or_empty}

-- For `a/b/c.txt`, the texts `a` and `a/b`; `before` holds the segments already passed.
unfoldable pub ancestors : List String → List String → List String
ancestors before [] = []
ancestors before (s ∷ []) = []
ancestors before (s ∷ t ∷ ts) = join "/" (before ++ s ∷ []) ∷ ancestors (before ++ s ∷ []) (t ∷ ts)

-- The path of a URL below the root's path.
unfoldable pub relative_path : String → String → String
relative_path root_path file_path =
    trim_start_matches b'/'
      (elim (strip_prefix root_path file_path) [ none ↦ file_path | some rest ↦ rest ])

abbrev pub accepts_put : ℕ → Bool
accepts_put status = status == 200 || (status == 201 || status == 204)

abbrev pub accepts_patch : ℕ → Bool
accepts_patch status = status == 204 || status == 200

abbrev checksum_header : Option String → List (String × String)
checksum_header none = []
checksum_header (some cs) = ("OC-Checksum", "SHA256:" <> cs) ∷ []

module _ (H : Host) where
  pub record UploadRequest : Type 0 where
    pub local_path : FilePath
    pub remote_url : H.Url
    pub space_root : H.Url
    pub size : ℕ
    pub checksum : Option String
    pub tus_threshold : ℕ
    pub bearer_token : String

  with_slash : H.Url → H.Url
  with_slash url =
      if ends_with b'/' (H.url_path url) then url else H.set_path url (H.url_path url <> "/")

  make_collection : String → Result H.Url String → Exec H (Unit {0})
  unfolding with_slash
  make_collection token (ok url) = mkdir_remote H (with_slash url) token
  make_collection token (err e) = raise (parse e)

  make_collections : H.Url → String → List String → Exec H (Unit {0})
  unfolding make_collection
  make_collections space_root token [] = pure tt
  make_collections space_root token (rel ∷ rels) = do
    make_collection token (H.join_url space_root rel)
    make_collections space_root token rels

  unfoldable pub ensure_parent_collections : H.Url → H.Url → String → Exec H (Unit {0})
  unfolding make_collections
  ensure_parent_collections remote_url space_root bearer_token =
      let rel =
        relative_path (trim_end_matches b'/' (H.url_path space_root)) (H.url_path remote_url) in
      make_collections space_root bearer_token (ancestors [] (split b'/' rel))

  abbrev put_request : UploadRequest → Bytes → Request
  put_request req bytes = record {
    method = "PUT";
    url = H.as_str req.remote_url;
    headers =
        bearer req.bearer_token
        ∷ (("Content-Length", show_number req.size) ∷ checksum_header req.checksum);
    body = bytes;
  }

  -- One PUT, with its event.
  unfoldable pub put_once : UploadRequest → Bytes → Exec H Response
  put_once req bytes = do
    t0 ← millis H
    resp ← send H (put_request req bytes)
    push_event H "PUT" (sanitise_url H req.remote_url) resp.status t0 req.size
    pure resp

  unfoldable pub put_result : String → Response → Exec H String
  put_result message resp =
      if accepts_put resp.status
      then pure (or_empty resp.etag)
      else raise (http resp.status (message <> show_number resp.status))

  -- After a 409: a parent collection is missing.
  unfoldable pub put_retry : UploadRequest → Bytes → Exec H String
  put_retry req bytes = do
    ensure_parent_collections req.remote_url req.space_root req.bearer_token
    resp ← put_once req bytes
    put_result "PUT retry failed: " resp

  unfoldable pub upload_put : UploadRequest → Exec H String
  upload_put req = do
    bytes ← fs H (H.read req.local_path)
    resp ← put_once req bytes
    if resp.status == 409 then put_retry req bytes else put_result "PUT failed: " resp

  authority : H.Url → Option ℕ → String
  authority url none = H.scheme url <> ("://" <> or_empty (H.host_str url))
  authority url (some port) =
      H.scheme url <> ("://" <> (or_empty (H.host_str url) <> (":" <> show_number port)))

  -- The URL to which the chunk goes: a relative location is put behind the request's authority.
  unfoldable pub patch_url : H.Url → String → String
  unfolding authority
  patch_url remote_url location =
      if starts_with location "http://" || starts_with location "https://"
      then location
      else authority remote_url (H.port remote_url) <> location

  require_location : Option String → Exec H String
  require_location none = raise (parse "TUS: missing Location header")
  require_location (some location) = pure location

  unfoldable pub patch_result : Response → Exec H String
  patch_result resp =
      if accepts_patch resp.status
      then pure (or_empty resp.etag)
      else raise (http resp.status "TUS PATCH failed")

  unfoldable pub patch_chunk : UploadRequest → String → Exec H String
  patch_chunk req url = do
    bytes ← fs H (H.read req.local_path)
    t1 ← millis H
    resp ← send H (record {
      method = "PATCH";
      url = url;
      headers =
          bearer req.bearer_token
          ∷ ("Tus-Resumable", "1.0.0")
          ∷ ("Upload-Offset", "0")
          ∷ ("Content-Type", "application/offset+octet-stream")
          ∷ ("Content-Length", show_number req.size)
          ∷ [];
      body = bytes;
    })
    push_event H "PATCH" (sanitise_url H (unwrap_or req.remote_url (H.parse_url url))) resp.status
        t1 req.size
    patch_result resp

  create_upload : UploadRequest → Exec H Response
  create_upload req = do
    t0 ← millis H
    resp ← send H (record {
      method = "POST";
      url = H.as_str req.remote_url;
      headers =
          bearer req.bearer_token
          ∷ ("Tus-Resumable", "1.0.0")
          ∷ ("Upload-Length", show_number req.size)
          ∷ ("Content-Length", "0")
          ∷ [];
      body = [];
    })
    push_event H "POST" (sanitise_url H req.remote_url) resp.status t0 0
    pure resp

  continue_upload : UploadRequest → Response → Exec H String
  unfolding require_location
  continue_upload req resp =
      if resp.status != 201 then raise (http resp.status "TUS creation failed") else do
        location ← require_location resp.location
        patch_chunk req (patch_url req.remote_url location)

  unfoldable pub upload_tus : UploadRequest → Exec H String
  unfolding create_upload continue_upload
  upload_tus req = do resp ← create_upload req; continue_upload req resp

  unfoldable pub propagate_upload : UploadRequest → Exec H String
  propagate_upload req = if leb req.tus_threshold req.size then upload_tus req else upload_put req
