-- ===== src/Daemon/Handler/Login/Reached.antt =====
-- crates/daemon/src/gui_ipc/handler.rs, `AddAccount`: the logins for which a page is opened.
use owncloud_sync_client.Common.{
  ℕ, String, ◌≡◌, ◌⊎◌, ◌∙◌, refl, ap, sym, subst, inl, inr, Option, none, some, Result, ok, err,
  ok-injective,
}
use owncloud_sync_client.Daemon.Handler.Login.{
  Server, Session, Endpoints, oc10_callback_uri, callback_uri, oc10_oauth2_endpoints, classic_login,
  on_discovery, on_instance, with_pkce, fails, login,
}

module _ (S : Server) (port : ℕ) where
  abbrev Discovered : Session → Type 0
  Discovered s =
      (S.discover s.url (callback_uri port) ≡ none)
      × ((s.redirect_uri ≡ callback_uri port) × (s.endpoints ≡ Endpoints.discovered))

  abbrev Classic : Session → Type 0
  Classic s =
      let (auth, token) = oc10_oauth2_endpoints s.url in
      (S.probe_owncloud_status s.url ≡ none)
      × ((S.with_endpoints s.url (oc10_callback_uri port) auth token ≡ none)
          × ((s.redirect_uri ≡ oc10_callback_uri port)
              × (s.endpoints ≡ Endpoints.classic auth token)))

  abbrev pub Offered : Session → Type 0
  Offered s =
      Discovered s ⊎ ((e : String) × ((S.discover s.url (callback_uri port) ≡ some e) × Classic s))

  abbrev pub Resolved : String → Session → Type 0
  Resolved url s =
      ((S.resolve_server_instance url ≡ ok none) × (s.url ≡ url))
      ⊎ (S.resolve_server_instance url ≡ ok (some s.url))

  fails-ok :
      {A : Type 0} (what : String) (o : Option String) (go : Result A String) (x : A)
      → fails S what o go ≡ ok x
      → (o ≡ none) × (go ≡ ok x)
  fails-ok what none go x h = (refl, h)
  fails-ok what (some e) go x h = absurd (cc h)

  with_pkce-ok :
      (r : Result Session String) (s : Session)
      → with_pkce S r ≡ ok s
      → (S.start_pkce_flow ≡ none) × (r ≡ ok s)
  with_pkce-ok (ok t) s h = fails-ok "PKCE setup failed: " S.start_pkce_flow (ok t) s h
  with_pkce-ok (err e) s h = absurd (cc h)

  classic_login-ok :
      (url e : String) (s : Session) → classic_login S url port e ≡ ok s → (s.url ≡ url) × Classic s
  unfolding classic_login
  classic_login-ok url e s h =
      let (auth, token) = oc10_oauth2_endpoints url in
      let found : Session = record {
        url = url;
        redirect_uri = oc10_callback_uri port;
        endpoints = Endpoints.classic auth token;
      } in
      let (a, h1) = fails-ok _ _ _ s h in
      let (b, h2) = fails-ok _ _ _ s h1 in
      let (c, h3) = fails-ok _ _ (ok found) s h2 in
      subst (λ (t : Session). (t.url ≡ url) × Classic t) (ok-injective h3)
        (refl, (b, (c, (refl, refl))))

  on_discovery-ok :
      (url : String) (r : Option String) (s : Session)
      → S.discover url (callback_uri port) ≡ r
      → on_discovery S url port r ≡ ok s
      → (s.url ≡ url) × Offered s
  on_discovery-ok url none s d h =
      subst (λ (t : Session). (t.url ≡ url) × Offered t) (ok-injective h)
        (refl, inl (d, (refl, refl)))
  on_discovery-ok url (some e) s d h =
      let (same, found) = classic_login-ok url e s h in
      (same, inr (e, (ap (λ u. S.discover u (callback_uri port)) same ∙ d, found)))

  on_instance-ok :
      (url : String) (r : Result (Option String) String) (s : Session)
      → S.resolve_server_instance url ≡ r
      → on_instance S url port r ≡ ok s
      → Resolved url s × (Offered s × (S.start_pkce_flow ≡ none))
  on_instance-ok url (ok none) s w h =
      let (pkce, h1) = with_pkce-ok _ s h in
      let (same, found) = on_discovery-ok url _ s refl h1 in (inl (w, same), (found, pkce))
  on_instance-ok url (ok (some instance_url)) s w h =
      let (pkce, h1) = with_pkce-ok _ s h in
      let (same, found) = on_discovery-ok instance_url _ s refl h1 in
      (inr (w ∙ ap (λ u. ok (some u)) (sym same)), (found, pkce))
  on_instance-ok url (err e) s w h = absurd (cc h)

  -- A login comes to the browser only with a URL that parses, at the instance that WebFinger names or, if
  -- it names none, at that URL, and with a PKCE flow that could be set up. Either the discovery at that
  -- server succeeded and the login has its endpoints and the callback 127.0.0.1; or it failed, the server
  -- answered status.php as an ownCloud does, and the login has that server's two OAuth2 endpoints and
  -- the callback localhost, with which the setup succeeded.
  pub login-Offered :
      (url : String) (s : Session)
      → login S url port ≡ ok s
      → (S.parse_url url ≡ none) × (Resolved url s × (Offered s × (S.start_pkce_flow ≡ none)))
  unfolding login
  login-Offered url s h =
      let (parsed, h1) = fails-ok _ _ _ s h in (parsed, on_instance-ok url _ s refl h1)
