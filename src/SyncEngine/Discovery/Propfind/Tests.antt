-- ===== src/SyncEngine/Discovery/Propfind/Tests.antt =====
-- crates/sync-engine/src/discovery/remote.rs: one answer read by `parse_propfind`.
use owncloud_sync_client.Common.{
  ◌≡◌, refl, ok, true, false, none, List, [], ◌∷◌, ◌++◌, String, string_eq, number_eq,
}
use owncloud_sync_client.Common.Texts
use owncloud_sync_client.SyncEngine.Host.Memory.{memory}
use owncloud_sync_client.SyncEngine.Urls.{join_remote_path, push_segments, path_components}
use owncloud_sync_client.SyncEngine.Propagate.Upload.{relative_path}
use owncloud_sync_client.SyncEngine.Discovery.Propfind.{
  XmlEvent, Xml, parse_propfind, is_self, rel_of, entry_of, dirs_of, take_text, lowered, blank,
}
use owncloud_sync_client.SyncEngine.Discovery.Propfind.Laws.{
  Part, Chunk, render, parse_propfind-render,
}

abbrev property : String → String → List Part
property name t =
    Part.noise (XmlEvent.start name)
    ∷ Part.noise (XmlEvent.text t)
    ∷ Part.noise (XmlEvent.close name)
    ∷ []

-- The space's root, a file with the properties that the request asks for, and a folder with a property
-- that the server does not have.
abbrev members : List Chunk
members =
    Chunk.between XmlEvent.other
    ∷ Chunk.between (XmlEvent.start "multistatus")
    ∷ Chunk.member
        (Part.href "/dav/s/" ∷ Part.collection ∷ Part.etag "\"r\"" ∷ Part.file_id "0" ∷ [])
    ∷ Chunk.member (
        Part.href "/dav/s/a"
          ∷ Part.noise (XmlEvent.start "propstat")
          ∷ Part.noise (XmlEvent.empty "resourcetype")
          ∷ Part.length "12"
          ∷ property "getlastmodified" "Mon, 01 Jan 2026 10:00:00 GMT"
        ++ Part.etag "\"e\"" ∷ Part.file_id "1" ∷ property "permissions" "RDNVW")
    ∷ Chunk.between (XmlEvent.text "\n")
    ∷ Chunk.member (
        Part.href "/dav/s/d/"
        ∷ Part.collection
        ∷ Part.etag "\"f\""
        ∷ Part.file_id "2"
        ∷ Part.noise (XmlEvent.empty "getcontentlength")
        ∷ property "status" "HTTP/1.1 404 Not Found")
    ∷ Chunk.between (XmlEvent.close "multistatus")
    ∷ []

abbrev xml_of_members : Xml
xml_of_members = record {
  text_of = λ bytes. "";
  as_bytes = λ text. [];
  len = λ text. 0;
  events = λ text. (render members, none);
  percent_decode = λ text. text;
}

parse_propfind-render_example :
    parse_propfind memory xml_of_members "/dav/s/" "/dav/s/" "answer"
    ≡ ok (
      record {
        path = "a";
        etag = "e";
        mtime = 0;
        size = 12;
        file_id = "1";
        permissions = 0;
        is_dir = false;
      }
          ∷ record {
            path = "d";
            etag = "f";
            mtime = 0;
            size = 0;
            file_id = "2";
            permissions = 0;
            is_dir = true;
          }
          ∷ [],
      "/dav/s//d/" ∷ [],
    )
unfolding is_self rel_of entry_of dirs_of relative_path join_remote_path push_segments
    path_components Texts.trim_matches Texts.trim_start_matches Texts.trim_end_matches
    Texts.ends_with Texts.split Texts.parse_u64 string_eq Texts.strip_prefix number_eq
parse_propfind-render_example =
    parse_propfind-render memory xml_of_members "/dav/s/" "/dav/s/" members "answer" refl refl

-- The texts of an empty element and of the one after it are confused: the flag of the first stays.
empty_element_test :
    take_text (record lowered { in_etag = true; in_fileid = true }) "7" blank
    ≡ record { href = ""; etag = "7"; file_id = "7"; size = 0; is_collection = false }
unfolding take_text Texts.trim_matches Texts.trim_start_matches Texts.trim_end_matches number_eq
empty_element_test = refl
