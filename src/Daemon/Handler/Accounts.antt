-- ===== src/Daemon/Handler/Accounts.antt =====
-- crates/daemon/src/gui_ipc/handler.rs: the removal of an account, and spaces that are dismissed.
use owncloud_sync_client.Common.{
  ◌≡◌, ◌∙◌, refl, ap, inl, inr, String, true, some, List, [], ◌∷◌, Option-cases, Bool-cases,
  contains, contains-append_last, string_eq, number_eq, ◌==◌, eq_self, any, find,
}
use owncloud_sync_client.Common.Dict.{map_some}
use owncloud_sync_client.SyncEngine.Types.{Uuid}
use owncloud_sync_client.Daemon.Config.{AccountConfig, find_account, change_account}
use owncloud_sync_client.Daemon.Config.Laws.{find_account-change_account}
use owncloud_sync_client.Daemon.Handler.{Outside, Context, dismiss_space, dismiss, save_config}

module _ (O : Outside) where
  has_account-found :
      (id : Uuid) (accounts : List AccountConfig) (a : AccountConfig)
      → find (λ (b : AccountConfig). b.id == id) accounts ≡ some a
      → any (λ (b : AccountConfig). b.id == id) accounts ≡ true
  has_account-found id [] a h = absurd (cc h)
  has_account-found id (b ∷ accounts) a h = elim (Bool-cases (b.id == id)) [
    | inl e ↦ rw e refl
    | inr e ↦
        let h' : find (λ (c : AccountConfig). c.id == id) accounts ≡ some a = rw e at h in
        rw e (has_account-found id accounts a h')
  ]

  pub dismissed-contains :
      (space : String) (a : AccountConfig)
      → contains (dismiss O space a).dismissed_spaces space ≡ true
  dismissed-contains space a = elim (Bool-cases (contains a.dismissed_spaces space)) [
    | inl e ↦ rw (e, e) refl
    | inr e ↦ rw (e, contains-append_last a.dismissed_spaces space space, e, eq_self space) refl
  ]

  dismiss-same_id : (space : String) (a : AccountConfig) → (dismiss O space a).id ≡ a.id
  dismiss-same_id space a = elim (Bool-cases (contains a.dismissed_spaces space)) [
    | inl e ↦ rw e refl
    | inr e ↦ rw e refl
  ]

  pub dismiss_space-found :
      (account : Uuid) (space : String) (a : AccountConfig) (ctx : Context)
      → find_account account ctx.config ≡ some a
      → find_account account (dismiss_space O account space ctx).config ≡ some (dismiss O space a)
  unfolding dismiss_space save_config
  dismiss_space-found account space a ctx found =
      let cfg = change_account account (dismiss O space) ctx.config in
      let changed : find_account account cfg ≡ some (dismiss O space a) =
        find_account-change_account account (dismiss O space) (dismiss-same_id space) ctx.config
        ∙ ap (map_some (dismiss O space)) found in
      elim (Option-cases (O.save cfg)) [
        | inl e ↦ rw (has_account-found account ctx.config.account a found, e) changed
        | inr (reason, e) ↦ rw (has_account-found account ctx.config.account a found, e) changed
      ]
