-- ===== src/SocketApi/Protocol/RoundTrip.antt =====
-- crates/socket-api/src/protocol.rs: what a client prints for each command, and the parser on it.
use text.Mathlib.TextLemmas.{cons-append, nil-append}
use owncloud_sync_client.Common.{
  String, ◌<>◌, ◌≡◌, ◌∙◌, refl, false, List, [], ◌∷◌, ok, string_eq, number_eq,
}
use owncloud_sync_client.Common.Texts.{is_empty, strip_prefix, join}
use owncloud_sync_client.SocketApi.Protocol.{
  Command, version, get_strings, get_menu_items, retrieve_file_status, retrieve_folder_status,
  share, copy_private_link, make_available_locally, make_online_only, v2, with_path, with_paths,
  parse_named, parse_v2, parse_command,
}
use owncloud_sync_client.SocketApi.Protocol.Laws.{
  line, separator, AllLack, parse_command-line, split-join,
}

-- The line of a command, without its line break.
abbrev pub print : Command → String
print version = line "VERSION" ""
print get_strings = line "GET_STRINGS" ""
print (get_menu_items path) = line "GET_MENU_ITEMS" path
print (retrieve_file_status path) = line "RETRIEVE_FILE_STATUS" path
print (retrieve_folder_status path) = line "RETRIEVE_FOLDER_STATUS" path
print (share path) = line "SHARE" path
print (copy_private_link path) = line "COPY_PRIVATE_LINK" path
print (make_available_locally paths) = line "MAKE_AVAILABLE_LOCALLY" (join separator paths)
print (make_online_only paths) = line "MAKE_ONLINE_ONLY" (join separator paths)
print (v2 name body) = "V2/" <> name

-- Paths that can be told apart on a line: at least one, none with a separator, and not one empty path.
abbrev pub ArePrintable : List String → Type 0
ArePrintable [] = ⊥
ArePrintable (w ∷ ws) = AllLack (w ∷ ws) × (is_empty (join separator (w ∷ ws)) ≡ false)

-- The path is not empty; the body of a version-2 message is, since the parser drops it.
abbrev pub IsPrintable : Command → Type 0
IsPrintable version = Unit
IsPrintable get_strings = Unit
IsPrintable (get_menu_items path) = is_empty path ≡ false
IsPrintable (retrieve_file_status path) = is_empty path ≡ false
IsPrintable (retrieve_folder_status path) = is_empty path ≡ false
IsPrintable (share path) = is_empty path ≡ false
IsPrintable (copy_private_link path) = is_empty path ≡ false
IsPrintable (make_available_locally paths) = ArePrintable paths
IsPrintable (make_online_only paths) = ArePrintable paths
IsPrintable (v2 name body) = body ≡ ""

with_path-printed :
    (command : String → Command) (message path : String)
    → is_empty path ≡ false
    → with_path command message path ≡ ok (command path)
unfolding with_path
with_path-printed command message path h = rw h refl

with_paths-printed :
    (command : List String → Command) (message : String) (paths : List String)
    → ArePrintable paths
    → with_paths command message (join separator paths) ≡ ok (command paths)
unfolding with_paths
with_paths-printed command message [] h = absurd h
with_paths-printed command message (w ∷ ws) h = rw (h.1, split-join w ws h.0) refl

module _ (debug : String → String) where
  parse_v2-printed : (name : String) → parse_command debug ("V2/" <> name) ≡ ok (v2 name "")
  unfolding parse_command parse_v2 strip_prefix number_eq
  parse_v2-printed name = rw (cons-append, cons-append, cons-append, nil-append) refl

  -- The parser reads the line of a command back as that command, if its paths are printable and a
  -- version-2 message has no body.
  pub parse_command-print :
      (command : Command) → IsPrintable command → parse_command debug (print command) ≡ ok command
  unfolding parse_named string_eq number_eq
  parse_command-print version h = parse_command-line debug "VERSION" "" refl refl
  parse_command-print get_strings h = parse_command-line debug "GET_STRINGS" "" refl refl
  parse_command-print (get_menu_items path) h =
      parse_command-line debug "GET_MENU_ITEMS" path refl refl
      ∙ with_path-printed get_menu_items _ path h
  parse_command-print (retrieve_file_status path) h =
      parse_command-line debug "RETRIEVE_FILE_STATUS" path refl refl
      ∙ with_path-printed retrieve_file_status _ path h
  parse_command-print (retrieve_folder_status path) h =
      parse_command-line debug "RETRIEVE_FOLDER_STATUS" path refl refl
      ∙ with_path-printed retrieve_folder_status _ path h
  parse_command-print (share path) h =
      parse_command-line debug "SHARE" path refl refl ∙ with_path-printed share _ path h
  parse_command-print (copy_private_link path) h =
      parse_command-line debug "COPY_PRIVATE_LINK" path refl refl
      ∙ with_path-printed copy_private_link _ path h
  parse_command-print (make_available_locally paths) h =
      parse_command-line debug "MAKE_AVAILABLE_LOCALLY" (join separator paths) refl refl
      ∙ with_paths-printed make_available_locally _ paths h
  parse_command-print (make_online_only paths) h =
      parse_command-line debug "MAKE_ONLINE_ONLY" (join separator paths) refl refl
      ∙ with_paths-printed make_online_only _ paths h
  parse_command-print (v2 name body) h = parse_v2-printed name ∙ rw h refl
