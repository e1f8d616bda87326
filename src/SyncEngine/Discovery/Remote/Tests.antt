-- ===== src/SyncEngine/Discovery/Remote/Tests.antt =====
-- crates/sync-engine/src/discovery/remote.rs: a space of one folder, which names itself in each answer.
use owncloud_sync_client.Common.{
  refl, sym, ◌∙◌, ap, subst, ok, none, List, [], ◌∷◌, string_eq, number_eq, Bool-cases, inl, inr,
  ok-injective, All, arith, ◌==◌, String,
}
use owncloud_sync_client.Common.Texts
use owncloud_sync_client.SyncEngine.Host.{Host, Response}
use owncloud_sync_client.SyncEngine.Host.Memory.{memory}
use owncloud_sync_client.SyncEngine.Types.{RemoteEntry}
use owncloud_sync_client.SyncEngine.Urls.{join_remote_path, push_segments, path_components}
use owncloud_sync_client.SyncEngine.Propagate.Upload.{relative_path}
use owncloud_sync_client.SyncEngine.Propagate.Download.Contents.{Post}
use owncloud_sync_client.SyncEngine.Discovery.Propfind.{XmlEvent, Xml, is_self, rel_of, dirs_of}
use owncloud_sync_client.SyncEngine.Discovery.Propfind.Laws.{
  Part, Chunk, render, parse_propfind-render, collections_of,
}
use owncloud_sync_client.SyncEngine.Discovery.Remote.{discover_remote}
use owncloud_sync_client.SyncEngine.Discovery.Remote.Distinct.{
  discover_remote-Distinct, DistinctResult,
}
use owncloud_sync_client.SyncEngine.Discovery.Remote.Termination.{
  discover_remote-Ended, Ended, ServesKnown, IsKnown,
}

abbrev folder : List Chunk
folder =
    Chunk.between (XmlEvent.start "multistatus")
    ∷ Chunk.member (Part.href "/d/" ∷ Part.collection ∷ Part.etag "f" ∷ Part.file_id "2" ∷ [])
    ∷ []

abbrev xml_of_folder : Xml
xml_of_folder = record {
  text_of = λ bytes. "";
  as_bytes = λ text. [];
  len = λ text. 0;
  events = λ text. (render folder, none);
  percent_decode = λ text. text;
}

abbrev multistatus : Response
multistatus = record { status = 207; status_text = ""; etag = none; location = none; body = ok [] }

abbrev webdav : Host
webdav = record memory { send = λ request disk. (ok multistatus, disk) }

folder-served : ServesKnown webdav xml_of_folder "" "t" ("/d" ∷ [])
unfolding is_self rel_of dirs_of relative_path join_remote_path push_segments path_components
    Texts.trim_matches Texts.trim_start_matches Texts.trim_end_matches Texts.ends_with Texts.split
    Texts.strip_prefix string_eq number_eq
folder-served url w resp sent bytes files dirs body parsed =
    let named : All (IsKnown webdav ("/d" ∷ []))
        (collections_of webdav xml_of_folder "" url folder) =
      elim (Bool-cases ("/d" == Texts.trim_end_matches b'/' url)) [
        | inl e ↦ rw e tt
        | inr e ↦ rw e (refl, tt)
      ] in
    subst (All (IsKnown webdav ("/d" ∷ [])))
      (ap (λ (p : List RemoteEntry × List String). p.1)
        (ok-injective
          (sym (parse_propfind-render webdav xml_of_folder "" url folder "" refl refl) ∙ parsed)))
      named

discover_remote-Ended_example :
    Post
      (Ended webdav xml_of_folder "" "t" ("/d" ∷ []))
      (λ _. Unit)
      (discover_remote webdav xml_of_folder "" "t" 3 (record { world = []; events = [] }))
discover_remote-Ended_example =
    discover_remote-Ended webdav xml_of_folder "" "t" ("/d" ∷ []) 3
      (record { world = []; events = [] }) folder-served (omega arith)

discover_remote-Distinct_example :
    Post
      (DistinctResult webdav xml_of_folder "" "t")
      (λ _. Unit)
      (discover_remote webdav xml_of_folder "" "t" 3 (record { world = []; events = [] }))
discover_remote-Distinct_example =
    discover_remote-Distinct webdav xml_of_folder "" "t" 3 (record { world = []; events = [] })
