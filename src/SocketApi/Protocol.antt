-- ===== src/SocketApi/Protocol.antt =====
-- crates/socket-api/src/protocol.rs: the commands, their parser, and the text of a response.
-- `debug` is Rust's `{:?}` of a text, a parameter.
pub mod Laws
pub mod RoundTrip
mod Tests
use owncloud_sync_client.Common.{
  ℕ, String, ◌<>◌, Bool, true, false, Option, none, some, List, [], ◌∷◌, Result, ok, err, ◌==◌,
  string_eq, if◌then◌else◌,
}
use owncloud_sync_client.Common.Texts.{is_empty, split_once, strip_prefix, split, join}

-- `FIELD_SEP`, by its code
abbrev pub field_sep : ℕ
field_sep = 30

-- The byte `:`
abbrev pub colon : ℕ
colon = b':'

pub data Command : Type 0 where
  version get_strings : Command
  get_menu_items retrieve_file_status retrieve_folder_status share copy_private_link :
      String → Command
  make_available_locally make_online_only : List String → Command
  v2 : String → String → Command

-- `SocketApiError::Protocol`
pub data SocketApiError : Type 0 where
  protocol : String → SocketApiError

-- A command with one path, or the error if the argument is empty.
unfoldable pub with_path : (String → Command) → String → String → Result Command SocketApiError
with_path command message args = if is_empty args then err (protocol message) else ok (command args)

-- A command with paths between separators.
unfoldable pub with_paths :
    (List String → Command) → String → String → Result Command SocketApiError
with_paths command message args =
    if is_empty args then err (protocol message) else ok (command (split field_sep args))

module _ (debug : String → String) where
  -- The `match cmd`.
  unfoldable pub parse_named : String → String → Result Command SocketApiError
  parse_named cmd args =
      if cmd == "VERSION"
      then ok version
      else if cmd == "GET_STRINGS"
      then ok get_strings
      else if cmd == "GET_MENU_ITEMS"
      then with_path get_menu_items "GET_MENU_ITEMS requires a non-empty path argument" args
      else if cmd == "RETRIEVE_FILE_STATUS"
      then with_path retrieve_file_status "RETRIEVE_FILE_STATUS requires a path argument" args
      else if cmd == "RETRIEVE_FOLDER_STATUS"
      then with_path retrieve_folder_status "RETRIEVE_FOLDER_STATUS requires a path argument" args
      else if cmd == "SHARE"
      then with_path share "SHARE requires a path argument" args
      else if cmd == "MAKE_AVAILABLE_LOCALLY"
      then with_paths make_available_locally
          "MAKE_AVAILABLE_LOCALLY requires at least one path argument" args
      else if cmd == "MAKE_ONLINE_ONLY"
      then with_paths make_online_only "MAKE_ONLINE_ONLY requires at least one path argument" args
      else if cmd == "COPY_PRIVATE_LINK"
      then with_path copy_private_link "COPY_PRIVATE_LINK requires a path argument" args
      else err (protocol ("unknown command: " <> debug cmd))

  unfoldable pub parse_split : String → Option (String × String) → Result Command SocketApiError
  unfolding parse_named
  parse_split line none = parse_named line ""
  parse_split line (some (cmd, args)) = parse_named cmd args

  unfoldable pub parse_v2 : String → Option String → Result Command SocketApiError
  unfolding parse_split
  parse_v2 line (some rest) = ok (v2 rest "")
  parse_v2 line none = parse_split line (split_once colon line)

  unfoldable pub parse_command : String → Result Command SocketApiError
  unfolding parse_v2
  parse_command line =
      if is_empty line
      then err (protocol "empty command line")
      else parse_v2 line (strip_prefix "V2/" line)

unfoldable pub format_response : String → List String → String
format_response cmd [] = cmd <> "\n"
format_response cmd (part ∷ parts) = cmd <> (":" <> (join ":" (part ∷ parts) <> "\n"))
