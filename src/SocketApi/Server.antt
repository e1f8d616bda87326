-- ===== src/SocketApi/Server.antt =====
-- crates/socket-api/src/server.rs, commands/ and broadcast.rs: the answer to a line, and the messages
-- that it sends to the connected plug-ins. The virtual files and serde_json are parameters.
pub mod Laws
mod Tests
use owncloud_sync_client.Common.{
  String, ◌<>◌, Bool, true, false, Option, none, some, List, [], ◌∷◌, ◌++◌, Result, ok, err, ◌==◌,
  string_eq, if◌then◌else◌,
}
use owncloud_sync_client.Common.Texts.{join}
use owncloud_sync_client.SyncEngine.Types.{FilePath}
use owncloud_sync_client.SocketApi.Protocol.{
  Command, version, get_strings, get_menu_items, retrieve_file_status, retrieve_folder_status,
  share, copy_private_link, make_available_locally, make_online_only, v2, SocketApiError,
  parse_command, format_response,
}
use owncloud_sync_client.SocketApi.StatusResolver.{
  Paths, StatusResolver, tag_text, find_folder_for_path, resolve_file, resolve_folder,
}

abbrev pub separator : String
separator = "\u{1e}"

abbrev labels : List String
labels =
    "SHARE_MENU_TITLE:Share" ∷ "COPY_LINK:Copy link" ∷ "MAKE_AVAILABLE:Make available locally"
    ∷ "MAKE_ONLINE_ONLY:Make online only" ∷ "OPEN_PRIVATE_LINK:Open in browser" ∷ []

unfoldable pub handle_get_strings : String
handle_get_strings = "GET_STRINGS:" <> (join separator labels <> "\n")

abbrev items : List String
items =
    "Share:SHARE:enabled" ∷ "Copy link:COPY_PRIVATE_LINK:enabled"
    ∷ "Make available locally:MAKE_AVAILABLE_LOCALLY:enabled"
    ∷ "Make online only:MAKE_ONLINE_ONLY:enabled" ∷ []

-- Each item behind a separator.
unfoldable pub push_items : List String → String
push_items [] = ""
push_items (item ∷ more) = separator <> (item <> push_items more)

unfoldable pub handle_share : String → String
handle_share path = "SHARE:OK:" <> (path <> "\n")

unfoldable pub handle_copy_private_link : String → String
handle_copy_private_link path = "COPY_PRIVATE_LINK:OK:" <> (path <> "\n")

-- `vfs` hydrates or dehydrates one path; its state is `V`.
pub record Vfs (V : Type 0) : Type 0 where
  pub hydrate : FilePath → V → Result (Unit {0}) String × V
  pub dehydrate : FilePath → V → Result (Unit {0}) String × V

-- What a handler for files on demand changes: the virtual files and the messages sent.
pub record Session (V : Type 0) : Type 0 where
  pub vfs_state : V
  pub sent : List String

-- serde_json: the text under `id` in a body, and the answer with an id and an icon as text.
pub record Json : Type 0 where
  pub id_of : String → Option String
  pub render : String → String → String

abbrev placeholder_icon : String
placeholder_icon =
    "iVBORw0KGgoAAAANSUhEUgAAAAEAAAABCAYAAAAfFcSJAAAADUlEQVR42mNk+M9QDwADhgGAWjR9awAAAABJRU5ErkJggg=="

unfoldable pub handle_v2_get_client_icon : Json → String → String
handle_v2_get_client_icon json body =
    let id : String = elim (json.id_of body) [ none ↦ "unknown" | some id ↦ id ] in
    "V2/GET_CLIENT_ICON\n" <> (json.render id placeholder_icon <> "\n")

module _ (P : Paths) (debug : String → String) (json : Json) {V : Type 0} (vfs : Vfs V) where
  unfoldable pub handle_get_menu_items : String → StatusResolver → String
  handle_get_menu_items path resolver = elim (find_folder_for_path P resolver path) [
    | none ↦ "GET_MENU_ITEMS:" <> (path <> "\n")
    | some id ↦ "GET_MENU_ITEMS:" <> (path <> (push_items items <> "\n"))
  ]

  unfoldable pub handle_retrieve_file_status : String → StatusResolver → String
  handle_retrieve_file_status path resolver =
      format_response "STATUS" (tag_text (resolve_file P resolver path) ∷ path ∷ [])

  unfoldable pub handle_retrieve_folder_status : String → StatusResolver → String
  handle_retrieve_folder_status path resolver =
      format_response "STATUS" (tag_text (resolve_folder P resolver path) ∷ path ∷ [])

  -- `broadcast.status_changed`
  abbrev pub status_changed : String → String → Session V → Session V
  status_changed tag path s = record s {
    sent = s.sent ++ ("STATUS:" <> (tag <> (":" <> (path <> "\n")))) ∷ [];
  }

  -- One round of the loops over paths: whether there was an error so far.
  abbrev pub after_change :
      String → Bool → Session V → Result (Unit {0}) String × V → Bool × Session V
  after_change path had_error s (ok u, v) =
      (had_error, status_changed "OK" path (record s { vfs_state = v }))
  after_change path had_error s (err e, v) =
      (true, status_changed "ERROR" path (record s { vfs_state = v }))

  unfoldable pub change_all :
      (FilePath → V → Result (Unit {0}) String × V)
      → List String
      → Bool
      → Session V
      → Bool × Session V
  change_all change [] had_error s = (had_error, s)
  change_all change (path ∷ paths) had_error s =
      let (failed, s') = after_change path had_error s (change path s.vfs_state) in
      change_all change paths failed s'

  unfoldable pub handle_make_available_locally : List String → Session V → String × Session V
  handle_make_available_locally paths s =
      let (had_error, s') = change_all vfs.hydrate paths false s in
      (if had_error then "MAKE_AVAILABLE_LOCALLY:ERROR\n" else "MAKE_AVAILABLE_LOCALLY:OK\n", s')

  unfoldable pub handle_make_online_only : List String → Session V → String × Session V
  handle_make_online_only paths s =
      let (had_error, s') = change_all vfs.dehydrate paths false s in
      (if had_error then "MAKE_ONLINE_ONLY:ERROR\n" else "MAKE_ONLINE_ONLY:OK\n", s')

  abbrev answer : String × Session V → Option String × Session V
  answer (response, s) = (some response, s)

  -- The `match cmd`.
  unfoldable pub respond : StatusResolver → Command → Session V → Option String × Session V
  respond resolver version s = (some "VERSION:1.1\n", s)
  respond resolver get_strings s = (some handle_get_strings, s)
  respond resolver (get_menu_items path) s = (some (handle_get_menu_items path resolver), s)
  respond resolver (retrieve_file_status path) s =
      (some (handle_retrieve_file_status path resolver), s)
  respond resolver (retrieve_folder_status path) s =
      (some (handle_retrieve_folder_status path resolver), s)
  respond resolver (share path) s = (some (handle_share path), s)
  respond resolver (copy_private_link path) s = (some (handle_copy_private_link path), s)
  respond resolver (make_available_locally paths) s = answer (handle_make_available_locally paths s)
  respond resolver (make_online_only paths) s = answer (handle_make_online_only paths s)
  respond resolver (v2 name body) s =
      if name == "GET_CLIENT_ICON"
      then (some (handle_v2_get_client_icon json body), s)
      else (none, s)

  abbrev respond_parsed :
      StatusResolver → Result Command SocketApiError → Session V → Option String × Session V
  respond_parsed resolver (ok cmd) s = respond resolver cmd s
  respond_parsed resolver (err e) s = (none, s)

  unfoldable pub dispatch_line : StatusResolver → String → Session V → Option String × Session V
  dispatch_line resolver line s = respond_parsed resolver (parse_command debug line) s
