-- ===== src/Daemon/Handler/Login/Tests.antt =====
-- crates/daemon/src/gui_ipc/handler.rs, `AddAccount`: a Classic server behind WebFinger.
use owncloud_sync_client.Common.{◌≡◌, refl, none, some, ok, number_eq}
use owncloud_sync_client.Common.Texts.{strip_prefix, trim_end_matches, show_number}
use owncloud_sync_client.Daemon.Handler.Login.{
  Server, Session, Endpoints, https_url, login, classic_login,
}
use owncloud_sync_client.Daemon.Handler.Login.Reached.{login-Offered, Resolved, Offered}

abbrev server : Server
server = record {
  bind = none;
  local_port = ok 7;
  parse_url = λ u. none;
  resolve_server_instance = λ u. ok (some "https://a.example");
  discover = λ u c. some "404";
  probe_owncloud_status = λ u. none;
  with_endpoints = λ u c a t. none;
  start_pkce_flow = none;
}

abbrev classic : Session
classic = record {
  url = "https://a.example";
  redirect_uri = "http://localhost:7/";
  endpoints =
      Endpoints.classic "https://a.example/index.php/apps/oauth2/authorize"
        "https://a.example/index.php/apps/oauth2/api/v1/token";
}

classic_test : login server "https://drive.example" 7 ≡ ok classic
unfolding login classic_login trim_end_matches show_number number_eq
classic_test = refl

https_url_test : https_url "http://c.example" ≡ "https://c.example"
unfolding https_url strip_prefix number_eq
https_url_test = refl

login-Offered_example :
    (server.parse_url "https://drive.example" ≡ none)
    × (Resolved server 7 "https://drive.example" classic
        × (Offered server 7 classic × (server.start_pkce_flow ≡ none)))
login-Offered_example = login-Offered server 7 "https://drive.example" classic classic_test
