-- ===== src/SyncEngine/Discovery/Propfind/Laws.antt =====
-- crates/sync-engine/src/discovery/remote.rs: the answer of a server, element by element, and what
-- `parse_propfind` reads in it.
use owncloud_sync_client.Common.{
  String, ◌<>◌, ◌≡◌, refl, Bool, true, false, not, ◌&&◌, ◌||◌, none, List, [], ◌∷◌, ◌++◌, ◌==◌,
  string_eq, if◌then◌else◌, ◌∙◌, ap, Bool-cases, inl, inr, Result, ok, err, arith,
}
use owncloud_sync_client.Common.Texts.{
  is_empty, trim_matches, trim_end_matches, ends_with, parse_u64,
}
use owncloud_sync_client.SyncEngine.Types.{RemoteEntry}
use owncloud_sync_client.SyncEngine.Host.{Host}
use owncloud_sync_client.SyncEngine.Urls.{join_remote_path}
use owncloud_sync_client.SyncEngine.Propagate.Upload.{relative_path}
use owncloud_sync_client.SyncEngine.Discovery.Propfind.{
  XmlEvent, Xml, Response, lowered, or_zero, Scan, rel_of, is_self, entry_of, dirs_of,
  finish_response, parse_propfind, blank, on_start, take_text, on_event, scan,
}
use mathlib.Core.List.{append_assoc, append-nil}

-- A part of one member of an answer: an element with a text that the parser reads, the mark of a
-- collection, or any other event.
pub data Part : Type 0 where
  href etag length file_id : String → Part
  collection : Part
  noise : XmlEvent → Part

-- An answer: its members, with other events before, between and after them.
pub data Chunk : Type 0 where
  member : List Part → Chunk
  between : XmlEvent → Chunk

-- The events that say nothing to the parser: among them the declaration, texts between elements, the
-- empty elements, and the elements of other properties.
abbrev pub is_noise : XmlEvent → Bool
is_noise (XmlEvent.start name) = not (
    name == "response"
    || (name == "href"
        || (name == "getetag"
            || (name == "getcontentlength" || (name == "fileid" || name == "collection")))))
is_noise (XmlEvent.empty name) = not (name == "collection")
is_noise (XmlEvent.text t) = true
is_noise (XmlEvent.close name) = not (name == "response")
is_noise XmlEvent.other = true

abbrev element : String → String → List XmlEvent → List XmlEvent
element name t rest = XmlEvent.start name ∷ XmlEvent.text t ∷ XmlEvent.close name ∷ rest

abbrev render_part : Part → List XmlEvent → List XmlEvent
render_part (Part.href t) rest = element "href" t rest
render_part (Part.etag t) rest = element "getetag" t rest
render_part (Part.length t) rest = element "getcontentlength" t rest
render_part (Part.file_id t) rest = element "fileid" t rest
render_part Part.collection rest = XmlEvent.empty "collection" ∷ rest
render_part (Part.noise e) rest = e ∷ rest

abbrev render_parts : List Part → List XmlEvent → List XmlEvent
render_parts [] rest = rest
render_parts (p ∷ ps) rest = render_part p (render_parts ps rest)

abbrev pub render : List Chunk → List XmlEvent
render [] = []
render (Chunk.member ps ∷ more) =
    XmlEvent.start "response" ∷ render_parts ps (XmlEvent.close "response" ∷ render more)
render (Chunk.between e ∷ more) = e ∷ render more

abbrev is_plain : Part → Bool
is_plain (Part.noise e) = is_noise e
is_plain p = true

abbrev are_plain : List Part → Bool
are_plain [] = true
are_plain (p ∷ ps) = is_plain p && are_plain ps

abbrev pub is_answer : List Chunk → Bool
is_answer [] = true
is_answer (Chunk.member ps ∷ more) = are_plain ps && is_answer more
is_answer (Chunk.between e ∷ more) = is_noise e && is_answer more

-- What the parts of a member say of it; the last one counts.
abbrev said : Part → Response → Response
said (Part.href t) r = record r { href = t }
said (Part.etag t) r = record r { etag = trim_matches b'"' t }
said (Part.length t) r = record r { size = or_zero (parse_u64 t) }
said (Part.file_id t) r = record r { file_id = t }
said Part.collection r = record r { is_collection = true }
said (Part.noise e) r = r

abbrev all_said : List Part → Response → Response
all_said [] r = r
all_said (p ∷ ps) r = all_said ps (said p r)

and_cases : (a b : Bool) → (a && b) ≡ true → (a ≡ true) × (b ≡ true)
and_cases true b h = (refl, h)
and_cases false b h = absurd (cc h)

module _ (H : Host) (X : Xml) (space_root current_url : H.Url) where
  -- The path of a member below the root of the space.
  abbrev path_of : Response → String
  path_of r =
      X.percent_decode (relative_path (trim_end_matches b'/' (H.url_path space_root)) r.href)

  -- A member without an address or a path, the root, or the collection that was asked for.
  abbrev pub skipped : Response → Bool
  skipped r =
      let address = trim_end_matches b'/' r.href in
      is_empty r.href
      || (is_empty (path_of r)
          || (address == trim_end_matches b'/' (H.url_path space_root)
              || address == trim_end_matches b'/' (H.url_path current_url)))

  abbrev pub found : Response → RemoteEntry
  found r = record {
    path = if r.is_collection then trim_end_matches b'/' (path_of r) else path_of r;
    etag = r.etag;
    mtime = 0;
    size = if r.is_collection then 0 else r.size;
    file_id = r.file_id;
    permissions = 0;
    is_dir = r.is_collection;
  }

  abbrev opened : Result H.Url String → List H.Url
  opened (ok url) =
      (if ends_with b'/' (H.url_path url) then url else H.set_path url (H.url_path url <> "/")) ∷ []
  opened (err e) = []

  abbrev pub children : Response → List H.Url
  children r =
      if r.is_collection
      then opened (join_remote_path H space_root (trim_end_matches b'/' (path_of r)))
      else []

  -- The entries and the collections of an answer, member by member.
  abbrev pub entries_of : List Chunk → List RemoteEntry
  entries_of [] = []
  entries_of (Chunk.member ps ∷ more) =
      let rest = entries_of more in
      if skipped (all_said ps blank) then rest else found (all_said ps blank) ∷ rest
  entries_of (Chunk.between e ∷ more) = entries_of more

  abbrev pub collections_of : List Chunk → List H.Url
  collections_of [] = []
  collections_of (Chunk.member ps ∷ more) =
      let rest = collections_of more in
      if skipped (all_said ps blank) then rest else children (all_said ps blank) ++ rest
  collections_of (Chunk.between e ∷ more) = collections_of more

  -- Between two elements.
  abbrev at : Response → Bool → List RemoteEntry → List H.Url → Scan H X space_root current_url
  at r b files dirs = record {
    current = r;
    flags = lowered;
    in_response = b;
    files = files;
    dirs = dirs;
  }

  on_event-noise :
      (e : XmlEvent) (r : Response) (b : Bool) (files : List RemoteEntry) (dirs : List H.Url)
      → is_noise e ≡ true
      → on_event H X space_root current_url e (at r b files dirs) ≡ at r b files dirs
  unfolding on_event on_start take_text
  on_event-noise (XmlEvent.start name) r b files dirs h = ground arith
  on_event-noise (XmlEvent.empty name) r b files dirs h = ground arith
  on_event-noise (XmlEvent.text t) r b files dirs h = refl
  on_event-noise (XmlEvent.close name) r b files dirs h = ground arith
  on_event-noise XmlEvent.other r b files dirs h = refl

  scan-part :
      (p : Part) (rest : List XmlEvent) (r : Response) (files : List RemoteEntry)
      (dirs : List H.Url)
      → is_plain p ≡ true
      → scan H X space_root current_url (render_part p rest) (at r true files dirs)
        ≡ scan H X space_root current_url rest (at (said p r) true files dirs)
  unfolding scan on_event on_start take_text string_eq
  scan-part (Part.href t) rest r files dirs h = refl
  scan-part (Part.etag t) rest r files dirs h = refl
  scan-part (Part.length t) rest r files dirs h = refl
  scan-part (Part.file_id t) rest r files dirs h = refl
  scan-part Part.collection rest r files dirs h = refl
  scan-part (Part.noise e) rest r files dirs h =
      ap (scan H X space_root current_url rest) (on_event-noise e r true files dirs h)

  scan-parts :
      (ps : List Part) (rest : List XmlEvent) (r : Response) (files : List RemoteEntry)
      (dirs : List H.Url)
      → are_plain ps ≡ true
      → scan H X space_root current_url (render_parts ps rest) (at r true files dirs)
        ≡ scan H X space_root current_url rest (at (all_said ps r) true files dirs)
  scan-parts [] rest r files dirs h = refl
  scan-parts (p ∷ ps) rest r files dirs h =
      let both = and_cases (is_plain p) (are_plain ps) h in
      scan-part p (render_parts ps rest) r files dirs both.0
      ∙ scan-parts ps rest (said p r) files dirs both.1

  finish_response-skipped :
      (r : Response) (files : List RemoteEntry) (dirs : List H.Url)
      → skipped r ≡ true
      → finish_response H X space_root current_url (at r true files dirs) ≡ at r false files dirs
  unfolding finish_response is_self rel_of
  finish_response-skipped r files dirs e = rw e

  finish_response-found :
      (r : Response) (files : List RemoteEntry) (dirs : List H.Url)
      → skipped r ≡ false
      → finish_response H X space_root current_url (at r true files dirs)
        ≡ at r false (files ++ found r ∷ []) (dirs ++ children r)
  unfolding finish_response is_self rel_of entry_of dirs_of
  finish_response-found r files dirs e = rw e

  -- What the loop has collected, the variable of the last member aside.
  abbrev both_lists : Scan H X space_root current_url → List RemoteEntry × List H.Url
  both_lists s = (s.files, s.dirs)

  scan-render :
      (chunks : List Chunk) (r : Response) (files : List RemoteEntry) (dirs : List H.Url)
      → is_answer chunks ≡ true
      → both_lists (scan H X space_root current_url (render chunks) (at r false files dirs))
        ≡ (files ++ entries_of chunks, dirs ++ collections_of chunks)
  unfolding scan on_event on_start string_eq
  scan-render [] r files dirs h = cc (append-nil files, append-nil dirs)
  scan-render (Chunk.between e ∷ more) r files dirs h =
      let both = and_cases (is_noise e) (is_answer more) h in
      ap (λ s. both_lists (scan H X space_root current_url (render more) s))
        (on_event-noise e r false files dirs both.0)
      ∙ scan-render more r files dirs both.1
  scan-render (Chunk.member ps ∷ more) r files dirs h =
      let both = and_cases (are_plain ps) (is_answer more) h in
      let parts = scan-parts ps (XmlEvent.close "response" ∷ render more) blank files dirs both.0 in
      elim (Bool-cases (skipped (all_said ps blank))) [
        | inl e ↦
            ap both_lists (
              parts
              ∙ ap (scan H X space_root current_url (render more))
                  (finish_response-skipped (all_said ps blank) files dirs e))
            ∙ rw (e, scan-render more (all_said ps blank) files dirs both.1)
        | inr e ↦
            ap both_lists (
              parts
              ∙ ap (scan H X space_root current_url (render more))
                  (finish_response-found (all_said ps blank) files dirs e))
            ∙ rw (
              e,
              scan-render more (all_said ps blank) (files ++ found (all_said ps blank) ∷ [])
                  (dirs ++ children (all_said ps blank)) both.1,
              append_assoc,
              append_assoc,
            )
      ]

  -- Where the events of an answer are those of its members, with their parts in any order and any other
  -- events among them, `parse_propfind` returns, in order, an entry for each member that has an address
  -- and a path and is neither the space's root nor the visited collection, with the path, etag, size and
  -- id that its parts say, and the URL of each such member that is a collection, where it can be built.
  pub parse_propfind-render :
      (chunks : List Chunk) (xml : String)
      → is_answer chunks ≡ true
      → X.events xml ≡ (render chunks, none)
      → parse_propfind H X space_root current_url xml
        ≡ ok (entries_of chunks, collections_of chunks)
  unfolding parse_propfind
  parse_propfind-render chunks xml plain h = rw h (ap ok (scan-render chunks blank [] [] plain))
