-- ===== src/Daemon/SignIn.antt =====
-- crates/daemon/src/oidc_callback.rs: the request that the browser makes after the user has signed in.
-- The contents of tokens are left out. The time limit can pass at every wait of `handle_callback`, which
-- then ends there; work for the keychain that was handed to a thread is done all the same.
pub mod Laws
mod Tests
use owncloud_sync_client.Common.{
  ℕ, String, ◌<>◌, Bool, true, false, ◌&&◌, ◌||◌, Option, none, some, List, [], ◌∷◌, ◌++◌, keep,
  any, contains, Result, ok, err, ◌==◌, ◌!=◌, string_eq, number_eq, if◌then◌else◌, ltb, length,
}
use Prim.Native.Char.{code}
use owncloud_sync_client.Common.Texts.{split, split_once}
use owncloud_sync_client.SyncEngine.Types.{Uuid}
use owncloud_sync_client.Daemon.Ipc.{DaemonEvent}
use owncloud_sync_client.Daemon.Config.{ServerType, AccountConfig, AppConfig}

abbrev pub Bytes : Type 0
Bytes = List ℕ

-- The waits of `handle_callback` after the request is read.
pub data Wait : Type 0 where
  exchange keychain identity lock page deletion : Wait

-- `str::from_utf8`, the first line and the words of a text, and the calls that may fail, with the text
-- of their error: the exchange of the code, the keychain, the URL, who the user is, and the file of the
-- configuration. `late` says at which waits the time limit passes.
pub record Outside : Type 0 where
  pub from_utf8 : Bytes → Result String String
  pub first_line : String → Option String
  pub split_whitespace : String → List String
  pub exchange_code : String → Option String
  pub save_keychain : Uuid → Option String
  pub parse_url : String → Option String
  pub resolve_identity : String → Result (String × (String × ServerType)) String
  pub save : AppConfig → Option String
  pub delete_keychain : Uuid → Option String
  pub late : Wait → Bool

-- `tokens` and `keychain` are the accounts with a token manager and with an entry in the keychain, and
-- `pages` the status, title and message of the answers to the browser.
pub record State : Type 0 where
  pub config : AppConfig
  pub file : Option AppConfig
  pub tokens : List Uuid
  pub keychain : List Uuid
  pub broadcast : List DaemonEvent
  pub pages : List (String × (String × String))

-- What `handle_callback` returns, or that it did not return in time.
pub data Outcome : Type 0 where
  finished : Result (Unit {0}) String → Outcome
  timed_out : Outcome

unfoldable pub has_crlf : Bytes → Bool
has_crlf [] = false
has_crlf (a ∷ []) = false
has_crlf (a ∷ b ∷ rest) = (a == 13 && b == 10) || has_crlf (b ∷ rest)

-- The loop over what `stream.read` gives; none stands for a request that never comes to its first line.
unfoldable pub read_request : Bytes → List (Result Bytes String) → Option (Result Bytes String)
unfolding has_crlf
read_request buf [] = none
read_request buf (err e ∷ more) = some (err e)
read_request buf (ok [] ∷ more) = some (err "connection closed before request received")
read_request buf (ok (b ∷ bytes) ∷ more) =
    let buf' = buf ++ b ∷ bytes in
    let rest = read_request buf' more in
    if has_crlf buf'
    then some (ok buf')
    else if ltb 8192 (length buf')
    then some (err "request too large")
    else rest

-- `s.replace('+', " ")`
unfoldable pub decode_query_value : String → String
decode_query_value String.[] = ""
decode_query_value (String.◌∷◌ c s) =
    let rest = decode_query_value s in if code c == b'+' then " " <> rest else String.◌∷◌ c rest

abbrev pair_value : String → Option (String × String) → Option String → Option String
pair_value param none other = other
pair_value param (some (k, v)) other = if k == param then some (decode_query_value v) else other

unfoldable pub find_param : String → List String → Option String
find_param param [] = none
find_param param (pair ∷ pairs) = pair_value param (split_once b'=' pair) (find_param param pairs)

module _ (O : Outside) where
  abbrev second : List String → Option String
  second (a ∷ b ∷ words) = some b
  second words = none

  abbrev query_param : String → Option (String × String) → Option String
  query_param param none = none
  query_param param (some (path, query)) = find_param param (split b'&' query)

  abbrev path_param : String → Option String → Option String
  path_param param none = none
  path_param param (some path) = query_param param (split_once b'?' path)

  abbrev line_param : String → Option String → Option String
  line_param param none = none
  line_param param (some line) = path_param param (second (O.split_whitespace line))

  unfoldable pub extract_query_param : String → String → Option String
  unfolding find_param
  extract_query_param request param = line_param param (O.first_line request)

  module _ (account : Uuid) (url : String) where
    abbrev pub with_page : String → String → String → State → State
    with_page status title message s = record s {
      pages = s.pages ++ (status, (title, message)) ∷ [];
    }

    -- A wait, and what is done after it if the time limit does not pass.
    abbrev pub wait : Wait → State → Outcome × State → Outcome × State
    wait w s go = if O.late w then (Outcome.timed_out, s) else go

    abbrev pub deleted : Option String → List Uuid → List Uuid
    deleted none ids = keep (λ id. id != account) ids
    deleted (some e) ids = ids

    -- An error page, then neither a token manager nor, if it can be deleted, an entry in the keychain.
    unfoldable pub abort : String → State → Outcome × State
    abort message s =
        let s' = record (with_page "400 Bad Request" "Sign-in failed" message s) {
          tokens = keep (λ id. id != account) s.tokens;
          keychain = deleted (O.delete_keychain account) s.keychain;
        } in
        wait Wait.page s (wait Wait.deletion s' (Outcome.finished (err message), s'))

    abbrev pub is_same : String → AccountConfig → Bool
    is_same user_id a = a.url == url && a.user_id == user_id

    abbrev pub new_account : String → String → ServerType → AccountConfig
    new_account user_id display_name server_type = record {
      id = account;
      url = url;
      user_id = user_id;
      username = "";
      display_name = display_name;
      server_type = server_type;
      folder = [];
      dismissed_spaces = [];
    }

    abbrev pub with_new : String → String → ServerType → AppConfig → AppConfig
    with_new user_id display_name server_type cfg = record cfg {
      account = cfg.account ++ new_account user_id display_name server_type ∷ [];
    }

    abbrev announced : String → String → State → State
    announced user_id display_name s = record s {
      broadcast =
          s.broadcast ++ DaemonEvent.account_add_completed account user_id display_name url ∷ [];
    }

    abbrev completed : String → String → State → Outcome × State
    completed user_id display_name s =
        let s' = announced user_id display_name s in
        wait Wait.page s' (
          Outcome.finished (ok tt),
          with_page "200 OK" "Successfully signed in" "Now, explore ownCloud on desktop." s',
        )

    abbrev pub on_saved : Option String → String → String → State → Outcome × State
    on_saved none user_id display_name s =
        completed user_id display_name (record s { file = some s.config })
    on_saved (some e) user_id display_name s = abort ("failed to save config: " <> e) s

    -- The check for a duplicate and the new account, under one lock.
    unfoldable pub add_account : String → String → ServerType → State → Outcome × State
    unfolding abort
    add_account user_id display_name server_type s =
        if any (is_same user_id) s.config.account
        then abort ("account already exists for user '" <> (user_id <> ("' on " <> url))) s
        else (let cfg = with_new user_id display_name server_type s.config in
            on_saved (O.save cfg) user_id display_name (record s { config = cfg }))

    abbrev pub on_identity :
        Result (String × (String × ServerType)) String → State → Outcome × State
    on_identity (ok (user_id, (display_name, server_type))) s =
        wait Wait.lock s (add_account user_id display_name server_type s)
    on_identity (err e) s = abort ("identity lookup failed: " <> e) s

    abbrev pub on_url : Option String → State → Outcome × State
    on_url none s = wait Wait.identity s (on_identity (O.resolve_identity url) s)
    on_url (some e) s = abort ("invalid server URL: " <> e) s

    abbrev insert_id : Uuid → List Uuid → List Uuid
    insert_id id ids = if contains ids id then ids else ids ++ id ∷ []

    abbrev pub on_keychain : Option String → State → Outcome × State
    on_keychain none s =
        let s' = record s { keychain = insert_id account s.keychain } in
        wait Wait.keychain s'
          (on_url (O.parse_url url) (record s' { tokens = insert_id account s.tokens }))
    on_keychain (some e) s =
        wait Wait.keychain s (Outcome.finished (err ("keychain save failed: " <> e)), s)

    abbrev pub on_tokens : Option String → State → Outcome × State
    on_tokens none s = on_keychain (O.save_keychain account) s
    on_tokens (some e) s = (Outcome.finished (err ("token exchange failed: " <> e)), s)

    abbrev pub on_code : Option String → State → Outcome × State
    on_code none s = (Outcome.finished (err "no 'code' parameter in callback"), s)
    on_code (some c) s = wait Wait.exchange s (on_tokens (O.exchange_code c) s)

    abbrev pub on_text : Result String String → State → Outcome × State
    on_text (ok request) s = on_code (extract_query_param request "code") s
    on_text (err e) s = (Outcome.finished (err e), s)

    -- `handle_callback` from the request on.
    unfoldable pub on_request : Result Bytes String → State → Outcome × State
    unfolding extract_query_param add_account abort
    on_request (ok buf) s = on_text (O.from_utf8 buf) s
    on_request (err e) s = (Outcome.finished (err e), s)

    abbrev pub failed : String → State → State
    failed reason s = record s {
      broadcast = s.broadcast ++ DaemonEvent.account_add_failed account reason ∷ [];
    }

    abbrev pub reported : Outcome × State → State
    reported (Outcome.finished (ok u), s) = s
    reported (Outcome.finished (err e), s) = failed e s
    reported (Outcome.timed_out, s) = failed "sign-in timed out" s

    abbrev pub on_time : Option (Result Bytes String) → State → State
    on_time none s = reported (Outcome.timed_out, s)
    on_time (some request) s = reported (on_request request s)

    unfoldable pub run_callback : List (Result Bytes String) → State → State
    unfolding on_request read_request
    run_callback chunks s = on_time (read_request [] chunks) s
