-- ===== src/SyncEngine/Discovery/Propfind.antt =====
-- crates/sync-engine/src/discovery/remote.rs, `parse_propfind`: the entries and the sub-collections of
-- one answer. The events that quick_xml reads and percent decoding are parameters.
pub mod Laws
mod Tests
use owncloud_sync_client.Common.{
  ℕ, String, ◌<>◌, Bool, true, false, ◌&&◌, ◌||◌, Option, none, some, List, [], ◌∷◌, ◌++◌, Result,
  ok, err, ◌==◌, string_eq, number_eq, if◌then◌else◌,
}
use owncloud_sync_client.Common.Texts.{
  is_empty, trim_matches, trim_end_matches, ends_with, parse_u64,
}
use owncloud_sync_client.SyncEngine.Types.{FilePath, RemoteEntry, SyncError, parse}
use owncloud_sync_client.SyncEngine.Host.{Host, Bytes}
use owncloud_sync_client.SyncEngine.Urls.{join_remote_path}
use owncloud_sync_client.SyncEngine.Propagate.Upload.{relative_path}

-- An event with the local name of its element, or the decoded text.
pub data XmlEvent : Type 0 where
  start empty close text : String → XmlEvent
  other : XmlEvent

-- The text of a body and back, the length of a text in bytes, the events of a text up to its end or the error that
-- ends them, and percent decoding.
pub record Xml : Type 0 where
  pub text_of : Bytes → String
  pub as_bytes : String → Bytes
  pub len : String → ℕ
  pub events : String → List XmlEvent × Option String
  pub percent_decode : String → String

pub record Response : Type 0 where
  pub href : String
  pub etag : String
  pub file_id : String
  pub size : ℕ
  pub is_collection : Bool

abbrev pub blank : Response
blank = record { href = ""; etag = ""; file_id = ""; size = 0; is_collection = false }

-- Which element's text comes next.
pub record Flags : Type 0 where
  pub in_href : Bool
  pub in_etag : Bool
  pub in_length : Bool
  pub in_fileid : Bool

abbrev pub lowered : Flags
lowered = record { in_href = false; in_etag = false; in_length = false; in_fileid = false }

abbrev pub or_zero : Option ℕ → ℕ
or_zero none = 0
or_zero (some n) = n

unfoldable pub take_text : Flags → String → Response → Response
take_text f t r = record {
  href = if f.in_href then t else r.href;
  etag = if f.in_etag then trim_matches b'"' t else r.etag;
  file_id = if f.in_fileid then t else r.file_id;
  size = if f.in_length then or_zero (parse_u64 t) else r.size;
  is_collection = r.is_collection;
}

module _ (H : Host) (X : Xml) (space_root current_url : H.Url) where
  -- The variables of the loop.
  pub record Scan : Type 0 where
    pub current : Response
    pub flags : Flags
    pub in_response : Bool
    pub files : List RemoteEntry
    pub dirs : List H.Url

  abbrev pub root_path : String
  root_path = trim_end_matches b'/' (H.url_path space_root)

  -- The decoded path of a response below the root.
  unfoldable pub rel_of : Response → String
  rel_of r = X.percent_decode (relative_path root_path r.href)

  -- The root or the collection itself, which is no entry.
  unfoldable pub is_self : Response → Bool
  unfolding rel_of
  is_self r =
      is_empty (rel_of r)
      || (trim_end_matches b'/' r.href == root_path
          || trim_end_matches b'/' r.href == trim_end_matches b'/' (H.url_path current_url))

  unfoldable pub entry_of : Response → RemoteEntry
  unfolding rel_of
  entry_of r = record {
    path = if r.is_collection then trim_end_matches b'/' (rel_of r) else rel_of r;
    etag = r.etag;
    mtime = 0;
    size = if r.is_collection then 0 else r.size;
    file_id = r.file_id;
    permissions = 0;
    is_dir = r.is_collection;
  }

  abbrev as_collection : H.Url → H.Url
  as_collection url =
      if ends_with b'/' (H.url_path url) then url else H.set_path url (H.url_path url <> "/")

  abbrev collected : Result H.Url String → List H.Url
  collected (ok url) = as_collection url ∷ []
  collected (err e) = []

  -- The URL to visit for a collection, if it can be built.
  unfoldable pub dirs_of : Response → List H.Url
  unfolding rel_of
  dirs_of r =
      if r.is_collection
      then collected (join_remote_path H space_root (trim_end_matches b'/' (rel_of r)))
      else []

  -- The end of a `response` element.
  unfoldable pub finish_response : Scan → Scan
  unfolding is_self entry_of dirs_of
  finish_response s =
      if is_empty s.current.href || is_self s.current
      then record s { in_response = false }
      else record s {
        in_response = false;
        files = s.files ++ entry_of s.current ∷ [];
        dirs = s.dirs ++ dirs_of s.current;
      }

  unfoldable pub on_start : String → Scan → Scan
  on_start name s =
      if name == "response"
      then record s { in_response = true; current = blank }
      else if name == "href" && s.in_response
      then record s { flags = record s.flags { in_href = true } }
      else if name == "getetag"
      then record s { flags = record s.flags { in_etag = true } }
      else if name == "getcontentlength"
      then record s { flags = record s.flags { in_length = true } }
      else if name == "fileid"
      then record s { flags = record s.flags { in_fileid = true } }
      else if name == "collection"
      then record s { current = record s.current { is_collection = true } }
      else s

  unfoldable pub on_event : XmlEvent → Scan → Scan
  unfolding on_start finish_response take_text
  on_event (XmlEvent.start name) s = on_start name s
  on_event (XmlEvent.empty name) s =
      if name == "collection"
      then record s { current = record s.current { is_collection = true } }
      else s
  on_event (XmlEvent.text t) s = record s {
    current = take_text s.flags t s.current;
    flags = lowered;
  }
  on_event (XmlEvent.close name) s =
      if name == "response" && s.in_response then finish_response s else s
  on_event XmlEvent.other s = s

  unfoldable pub scan : List XmlEvent → Scan → Scan
  scan [] s = s
  scan (e ∷ es) s = scan es (on_event e s)

  abbrev pub initial : Scan
  initial = record { current = blank; flags = lowered; in_response = false; files = []; dirs = [] }

  abbrev scanned : List XmlEvent × Option String → Result (List RemoteEntry × List H.Url) SyncError
  scanned (events, none) = let s = scan events initial in ok (s.files, s.dirs)
  scanned (events, some e) = err (parse e)

  unfoldable pub parse_propfind : String → Result (List RemoteEntry × List H.Url) SyncError
  parse_propfind xml = scanned (X.events xml)
