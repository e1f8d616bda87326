-- ===== src/SyncEngine/Urls.antt =====
-- crates/sync-engine/src/lib.rs and report.rs: remote URLs from decoded paths, and URLs for the log.
use owncloud_sync_client.Common.{String, List, [], ◌∷◌, Result, ok, err, if◌then◌else◌}
use owncloud_sync_client.Common.Texts.{is_empty, trim_matches, ends_with, split}
use owncloud_sync_client.SyncEngine.Host.{Host}

-- The components between slashes, without the empty ones.
unfoldable pub path_components : List String → List String
path_components [] = []
path_components (c ∷ cs) = let rest = path_components cs in if is_empty c then rest else c ∷ rest

module _ (H : Host) where
  unfoldable pub push_segments : H.Url → List String → H.Url
  push_segments url [] = url
  push_segments url (c ∷ cs) = push_segments (H.push_segment url c) cs

  -- `path_segments_mut` fails only for a URL that cannot be a base.
  unfoldable pub join_remote_path : H.Url → String → Result H.Url String
  join_remote_path space_root rel =
      let segments =
        push_segments (H.pop_if_empty space_root)
          (path_components (split b'/' (trim_matches b'/' rel))) in
      if H.can_be_a_base space_root
      then ok (if ends_with b'/' rel then H.push_segment segments "" else segments)
      else err "relative URL with a cannot-be-a-base base"

  -- `sanitise_url`: without query and fragment
  unfoldable pub sanitise_url : H.Url → String
  sanitise_url url = H.as_str (H.without_fragment (H.without_query url))
