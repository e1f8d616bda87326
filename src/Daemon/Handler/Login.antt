-- ===== src/Daemon/Handler/Login.antt =====
-- crates/daemon/src/gui_ipc/handler.rs, `AddAccount`: the search for the server, up to the page on which the
-- user signs in. What follows is `run_callback` of SignIn. The browser is left out.
pub mod Reached
mod Tests
use owncloud_sync_client.Common.{
  ℕ, String, ◌<>◌, ◌≡◌, refl, suc, Option, none, some, Result, ok, err, number_eq,
}
use owncloud_sync_client.Common.Texts.{strip_prefix, trim_end_matches, show_number}
use owncloud_sync_client.SyncEngine.Types.{Uuid}
use owncloud_sync_client.Daemon.Ipc.{DaemonEvent}
use owncloud_sync_client.Daemon.Handler.{Outside, Context, ShouldQuit, emit}

-- The calls outside, with the text of their error: the port of the callback, URLs, WebFinger, the
-- discovery of OpenID Connect for a callback, status.php, and the setup of the two kinds of login.
pub record Server : Type 0 where
  pub bind : Option String
  pub local_port : Result ℕ String
  pub parse_url : String → Option String
  pub resolve_server_instance : String → Result (Option String) String
  pub discover : String → String → Option String
  pub probe_owncloud_status : String → Option String
  pub with_endpoints : String → String → String → String → Option String
  pub start_pkce_flow : Option String

-- The endpoints of the login: those of the discovery document, or the fixed ones of ownCloud Classic.
pub data Endpoints : Type 0 where
  discovered : Endpoints
  classic : String → String → Endpoints

-- The login that waits for the browser.
pub record Session : Type 0 where
  pub url : String
  pub redirect_uri : String
  pub endpoints : Endpoints

abbrev or_else : Option String → String → String
or_else none s = s
or_else (some t) s = t

-- Always https, whatever scheme stands in front.
unfoldable pub https_url : String → String
https_url url =
    "https://" <> or_else (strip_prefix "https://" url) (or_else (strip_prefix "http://" url) url)

abbrev pub oc10_callback_uri : ℕ → String
oc10_callback_uri port = "http://localhost:" <> (show_number port <> "/")

abbrev pub callback_uri : ℕ → String
callback_uri port = "http://127.0.0.1:" <> (show_number port <> "/callback")

abbrev pub oc10_oauth2_endpoints : String → String × String
oc10_oauth2_endpoints server_url =
    let base = trim_end_matches b'/' server_url in
    (base <> "/index.php/apps/oauth2/authorize", base <> "/index.php/apps/oauth2/api/v1/token")

module _ (S : Server) where
  abbrev fails : {A : Type 0} → String → Option String → Result A String → Result A String
  fails what none go = go
  fails what (some e) go = err (what <> e)

  -- The fallback to OAuth2, after a discovery that failed.
  unfoldable pub classic_login : String → ℕ → String → Result Session String
  classic_login url port discovery_err =
      let (auth, token) = oc10_oauth2_endpoints url in
      fails "invalid server URL: " (S.parse_url url) (
        fails
          ("OIDC discovery failed: "
            <> (discovery_err <> "; server is not a reachable ownCloud instance: "))
          (S.probe_owncloud_status url)
          (fails "oc10 OAuth2 setup failed: "
            (S.with_endpoints url (oc10_callback_uri port) auth token)
            (ok record {
              url = url;
              redirect_uri = oc10_callback_uri port;
              endpoints = Endpoints.classic auth token;
            })))

  abbrev on_discovery : String → ℕ → Option String → Result Session String
  on_discovery url port none =
      ok record { url = url; redirect_uri = callback_uri port; endpoints = Endpoints.discovered }
  on_discovery url port (some e) = classic_login url port e

  abbrev with_pkce : Result Session String → Result Session String
  with_pkce (ok session) = fails "PKCE setup failed: " S.start_pkce_flow (ok session)
  with_pkce (err e) = err e

  abbrev on_instance : String → ℕ → Result (Option String) String → Result Session String
  on_instance url port (ok none) =
      with_pkce (on_discovery url port (S.discover url (callback_uri port)))
  on_instance url port (ok (some instance_url)) =
      with_pkce (on_discovery instance_url port (S.discover instance_url (callback_uri port)))
  on_instance url port (err e) = err ("could not reach server " <> (url <> (": " <> e)))

  -- The spawned task, up to the callback.
  unfoldable pub login : String → ℕ → Result Session String
  unfolding classic_login
  login url port =
      fails "invalid server URL: " (S.parse_url url)
        (on_instance url port (S.resolve_server_instance url))

  module _ (O : Outside) where
    abbrev started : Uuid → Result ℕ String → Context → Result ShouldQuit String × Context
    started account (ok port) ctx =
        (ok ShouldQuit.no, emit (DaemonEvent.account_add_started account) ctx)
    started account (err e) ctx = (err e, ctx)

    abbrev bound : Uuid → Option String → Context → Result ShouldQuit String × Context
    bound account none ctx = started account S.local_port ctx
    bound account (some e) ctx = (
      ok ShouldQuit.no,
      emit (DaemonEvent.account_add_failed account ("failed to bind callback port: " <> e)) ctx,
    )

    -- The handler itself; the task is `login (https_url url)`, for the port of the callback.
    unfoldable pub add_account : String → Context → Result ShouldQuit String × Context
    add_account url ctx = bound (O.new_v4 ctx.drawn) S.bind (record ctx { drawn = suc ctx.drawn })

    -- The end of a task that does not come to the callback.
    abbrev pub report_login : Uuid → Result Session String → Context → Context
    report_login account (ok session) ctx = ctx
    report_login account (err e) ctx = emit (DaemonEvent.account_add_failed account e) ctx
