-- ===== src/Daemon/SignIn/Tests.antt =====
-- crates/daemon/src/oidc_callback.rs: a sign-in, and one whose configuration cannot be written.
use owncloud_sync_client.Common.{
  true, false, String, ◌≡◌, refl, none, some, [], ◌∷◌, List, Result, ok, string_eq, number_eq,
}
use owncloud_sync_client.Common.Texts.{split, split_once}
use owncloud_sync_client.Daemon.Ipc.{DaemonEvent}
use owncloud_sync_client.Daemon.Config.{ServerType, default_general}
use owncloud_sync_client.Daemon.SignIn.{
  Wait, Outside, State, Bytes, run_callback, read_request, has_crlf, on_request,
  extract_query_param, find_param, decode_query_value, add_account, abort,
}

abbrev outside : Outside
outside = record {
  from_utf8 = λ bytes. ok "GET /callback?state=s&code=a+b HTTP/1.1";
  first_line = some;
  split_whitespace = split b' ';
  exchange_code = λ c. none;
  save_keychain = λ account. none;
  parse_url = λ url. none;
  resolve_identity = λ url. ok ("u", ("U", ServerType.ocis));
  save = λ cfg. none;
  delete_keychain = λ account. none;
  late = λ w. false;
}

abbrev read_only : Outside
read_only = record outside { save = λ cfg. some "read-only file system" }

abbrev before : State
before = record {
  config = record { general = default_general; account = [] };
  file = none;
  tokens = [];
  keychain = [];
  broadcast = [];
  pages = [];
}

abbrev request : List (Result Bytes String)
request = ok (71 ∷ 13 ∷ 10 ∷ []) ∷ []

code_test :
    extract_query_param outside "GET /callback?state=s&code=a+b HTTP/1.1" "code" ≡ some "a b"
unfolding extract_query_param find_param decode_query_value split split_once string_eq number_eq
code_test = refl

-- After a failure to write the configuration, a second try is refused as a duplicate, although the
-- configuration could be written now.
duplicate_test :
    (run_callback outside 2 "https://c" request
      (run_callback read_only 1 "https://c" request before)).broadcast
    ≡ DaemonEvent.account_add_failed 1 "failed to save config: read-only file system"
      ∷ DaemonEvent.account_add_failed 2 "account already exists for user 'u' on https://c"
      ∷ []
unfolding run_callback read_request has_crlf on_request extract_query_param find_param
    decode_query_value add_account abort split split_once string_eq number_eq
duplicate_test = refl

abbrev slow : Outside
slow = record outside { late = λ w. elim w [ Wait.identity ↦ true | _ ↦ false ] }

-- A sign-in that times out while the server is asked who the user is leaves its token manager and its
-- entry in the keychain.
late_identity_test : run_callback slow 1 "https://c" request before ≡ record before {
  tokens = 1 ∷ [];
  keychain = 1 ∷ [];
  broadcast = DaemonEvent.account_add_failed 1 "sign-in timed out" ∷ [];
}
unfolding run_callback read_request has_crlf on_request extract_query_param find_param
    decode_query_value add_account abort split split_once string_eq number_eq
late_identity_test = refl
