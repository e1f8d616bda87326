-- ===== src/Daemon/SpacePoller/Dismissed.antt =====
-- crates/daemon/src/space_poller.rs and gui_ipc/handler.rs: what a dismissed space is announced as.
use owncloud_sync_client.Common.{
  ◌≡◌, ◌∙◌, refl, String, ◌<>◌, true, false, not, ◌&&◌, Option, none, some, List, [], ◌∷◌, map,
  contains, ◌==◌, string_eq, number_eq, arith, count-append, Bool-cases, inl, inr, subst,
}
use owncloud_sync_client.SyncEngine.Types.{Uuid}
use owncloud_sync_client.Daemon.Ipc.{DaemonEvent}
use owncloud_sync_client.Daemon.Config.{AccountConfig, AppConfig, find_account}
use owncloud_sync_client.Daemon.Handler.{Outside, Context, dismiss_space, dismiss}
use owncloud_sync_client.Daemon.Handler.Accounts.{dismiss_space-found, dismissed-contains}
use owncloud_sync_client.Daemon.SpacePoller.{
  Space, Poller, Paths, space_ids, announce_one, announce, forget, remove_folders, removed_of,
  removed_event, missing_ids, suggested_root, on_listing, poll_once,
}
use owncloud_sync_client.Daemon.SpacePoller.Announced.{is_discovery, announcements, removed-count}

module _ (P : Paths) (x : String) where
  announce_one-dismissed :
      (local dismissed : List String) (root : String) (s : Space) (p : Poller)
      → contains dismissed x ≡ true
      → announcements x (announce_one P local dismissed root s p) ≡ announcements x p
  unfolding announce_one
  announce_one-dismissed local dismissed root s p h =
      let event = DaemonEvent.space_discovered p.account_id s.id s.name (root <> ("/" <> s.name)) in
      elim (Bool-cases (s.id == x)) [
        | inl same ↦
            let eq : x ≡ s.id = ground arith in
            let gone : contains dismissed s.id ≡ true =
              subst (λ y. contains dismissed y ≡ true) eq h in
            let shut : (not (contains local s.id)
                  && (not (contains dismissed s.id) && not (contains p.emitted_discoveries s.id)))
                ≡ false =
              ground arith in
            rw shut refl
        | inr differ ↦
            elim (Bool-cases (
              not (contains local s.id)
              && (not (contains dismissed s.id) && not (contains p.emitted_discoveries s.id)))) [
                | inl e ↦
                    rw (e, count-append (is_discovery x) p.broadcast (event ∷ []), differ)
                      (omega arith)
                | inr e ↦ rw e refl
              ]
      ]

  announce-dismissed :
      (local dismissed : List String) (root : String) (spaces : List Space) (p : Poller)
      → contains dismissed x ≡ true
      → announcements x (announce P local dismissed root spaces p) ≡ announcements x p
  unfolding announce
  announce-dismissed local dismissed root [] p h = refl
  announce-dismissed local dismissed root (s ∷ spaces) p h =
      announce-dismissed local dismissed root spaces (announce_one P local dismissed root s p) h
      ∙ announce_one-dismissed local dismissed root s p h

  remove_folders-announcements :
      (ids : List Uuid) (p : Poller) → announcements x (remove_folders P ids p) ≡ announcements x p
  unfolding remove_folders
  remove_folders-announcements [] p = refl
  remove_folders-announcements (id ∷ ids) p =
      let gone = removed_of P (find_account p.account_id p.config) (id ∷ ids) in
      omega (
        arith,
        count-append (is_discovery x) p.broadcast (map (removed_event P p.account_id) gone),
        removed-count P x p.account_id gone,
      )

  on_listing-dismissed :
      (answer : Option (List Space)) (a : AccountConfig) (between : AppConfig → AppConfig)
      (p : Poller)
      → contains a.dismissed_spaces x ≡ true
      → announcements x (on_listing P answer a between p) ≡ announcements x p
  unfolding forget
  on_listing-dismissed none a between p h = refl
  on_listing-dismissed (some spaces) a between p h =
      let announced =
        announce P (space_ids a.folder) a.dismissed_spaces (suggested_root P a.folder) spaces p in
      let forgotten = forget P (space_ids a.folder) a.dismissed_spaces announced in
      remove_folders-announcements (missing_ids P spaces a.folder)
        (record forgotten { config = between announced.config })
      ∙ announce-dismissed (space_ids a.folder) a.dismissed_spaces (suggested_root P a.folder)
          spaces p h

  -- Once the user has dismissed a space of a configured account, a poll that sees that configuration
  -- does not announce it, whatever the server answers, even if it was not announced before.
  pub poll_once-dismissed :
      (O : Outside) (a : AccountConfig) (ctx : Context) (list_spaces : String → Option (List Space))
      (between : AppConfig → AppConfig) (p : Poller)
      → find_account p.account_id ctx.config ≡ some a
      → let seen = record p { config = (dismiss_space O p.account_id x ctx).config } in
        announcements x (poll_once P list_spaces between seen) ≡ announcements x p
  unfolding poll_once
  poll_once-dismissed O a ctx list_spaces between p found =
      let b = dismiss O x a in
      rw (dismiss_space-found O p.account_id x a ctx found) (
        on_listing-dismissed (list_spaces b.url) b between
          (record p { config = (dismiss_space O p.account_id x ctx).config })
          (dismissed-contains O x a))
