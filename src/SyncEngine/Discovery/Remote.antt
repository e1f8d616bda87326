-- ===== src/SyncEngine/Discovery/Remote.antt =====
-- crates/sync-engine/src/discovery/remote.rs, `discover_remote`: the collections of a space, breadth
-- first. A set of texts is the list of what was inserted, in that order.
pub mod Distinct
pub mod Termination
mod Tests
use owncloud_sync_client.Common.{
  ℕ, zero, suc, String, Option, none, some, List, [], ◌∷◌, ◌++◌, Result, ok, err, ◌!=◌, contains,
  string_eq, number_eq, if◌then◌else◌,
}
use owncloud_sync_client.Common.Texts.{trim_end_matches}
use owncloud_sync_client.SyncEngine.Types.{RemoteEntry, SyncError, http, HttpEvent}
use owncloud_sync_client.SyncEngine.Host.{
  Host, Bytes, Request, Response, Exec, Net, send, read_body, millis, push_event, pure, raise,
  ◌>>=◌, ◌>>◌,
}
use owncloud_sync_client.SyncEngine.Urls.{sanitise_url}
use owncloud_sync_client.SyncEngine.Propagate.Ops.{bearer}
use owncloud_sync_client.SyncEngine.Discovery.Propfind.{Xml, parse_propfind}

abbrev pub propfind_body : String
propfind_body =
    "<?xml version=\"1.0\" encoding=\"utf-8\"?>\n<D:propfind xmlns:D=\"DAV:\" xmlns:OC=\"http://owncloud.org/ns\">\n  <D:prop>\n    <D:resourcetype/>\n    <D:getlastmodified/>\n    <D:getcontentlength/>\n    <D:getetag/>\n    <OC:fileid/>\n    <OC:permissions/>\n  </D:prop>\n</D:propfind>"

module _ (H : Host) where
  -- The variables of the loop.
  pub record Search : Type 0 where
    pub found : List RemoteEntry
    pub queue : List H.Url
    pub visited : List String
    pub seen : List String

  abbrev pub path_key : H.Url → String
  path_key url = trim_end_matches b'/' (H.url_path url)

  unfoldable pub add_entry : RemoteEntry → Search → Search
  add_entry e s =
      if contains s.seen e.path
      then s
      else record s { found = s.found ++ e ∷ []; seen = s.seen ++ e.path ∷ [] }

  unfoldable pub add_entries : List RemoteEntry → Search → Search
  unfolding add_entry
  add_entries [] s = s
  add_entries (e ∷ es) s = add_entries es (add_entry e s)

  unfoldable pub enqueue : H.Url → Search → Search
  enqueue url s =
      if contains s.visited (path_key url)
      then s
      else record s { queue = s.queue ++ url ∷ []; visited = s.visited ++ path_key url ∷ [] }

  unfoldable pub enqueue_all : List H.Url → Search → Search
  unfolding enqueue
  enqueue_all [] s = s
  enqueue_all (d ∷ ds) s = enqueue_all ds (enqueue d s)

  unfoldable pub start : H.Url → Search
  start space_root = record {
    found = [];
    queue = space_root ∷ [];
    visited = path_key space_root ∷ [];
    seen = [];
  }

module _ (H : Host) (X : Xml) (space_root : H.Url) (bearer_token : String) where
  abbrev pub propfind_request : H.Url → Request
  propfind_request url = record {
    method = "PROPFIND";
    url = H.as_str url;
    headers = bearer bearer_token ∷ (("Depth", "1") ∷ (("Content-Type", "application/xml") ∷ []));
    body = X.as_bytes propfind_body;
  }

  -- `parse_propfind(..)?`
  abbrev pub parsed : H.Url → Bytes → Exec H (List RemoteEntry × List H.Url)
  parsed url bytes n = (parse_propfind H X space_root url (X.text_of bytes), n)

  unfoldable pub reject : H.Url → ℕ → Response → Exec H (List RemoteEntry × List H.Url)
  reject url t0 resp = do
    push_event H "PROPFIND" (sanitise_url H url) resp.status t0 0
    raise (http resp.status "PROPFIND failed")

  unfoldable pub receive : H.Url → ℕ → Response → Exec H (List RemoteEntry × List H.Url)
  receive url t0 resp = do
    bytes ← read_body H resp
    push_event H "PROPFIND" (sanitise_url H url) resp.status t0 (X.len (X.text_of bytes))
    parsed url bytes

  -- The entries and the collections in the answer for one collection.
  unfoldable pub visit : H.Url → Exec H (List RemoteEntry × List H.Url)
  visit url = do
    t0 ← millis H
    resp ← send H (propfind_request url)
    if resp.status != 207 then reject url t0 resp else receive url t0 resp

  -- The search after one answer.
  abbrev pub take_answer : Search H → List RemoteEntry × List H.Url → Search H
  take_answer s (files, dirs) = enqueue_all H dirs (add_entries H files s)

  -- `none` stands for a loop that needs more rounds than `fuel`.
  unfoldable pub search : ℕ → Search H → Exec H (Option (List RemoteEntry))
  search zero s = pure none
  search (suc fuel) s = elim s.queue [
    | [] ↦ pure (some s.found)
    | url ∷ queue ↦
        visit url >>= λ answer. search fuel (take_answer (record s { queue = queue }) answer)
  ]

  unfoldable pub discover_remote : ℕ → Exec H (Option (List RemoteEntry))
  unfolding search start
  discover_remote fuel = search fuel (start H space_root)
