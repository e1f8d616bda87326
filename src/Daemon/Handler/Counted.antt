-- ===== src/Daemon/Handler/Counted.antt =====
-- crates/daemon/src/gui_ipc/handler.rs, `SetAccountFolders`: one event for each space.
use owncloud_sync_client.Common.{
  ◌≡◌, ◌+◌, refl, ap, ◌∙◌, suc, inl, inr, String, some, List, [], ◌∷◌, ◌++◌, length, length-append,
  Option-cases, arith,
}
use owncloud_sync_client.SyncEngine.Types.{Uuid}
use owncloud_sync_client.Daemon.Ipc.{DaemonEvent, SpaceSelection}
use owncloud_sync_client.Daemon.Config.{FolderConfig, AccountConfig, find_account, change_account}
use owncloud_sync_client.Daemon.Config.Laws.{find_account-change_account}
use owncloud_sync_client.Common.Dict.{map_some}
use owncloud_sync_client.Daemon.Handler.{
  Outside, Context, new_folder, registered, register, add_space, add_spaces, save_config,
  push_folder,
}

module _ (O : Outside) where
  -- The account is configured, and one more event was sent.
  abbrev OneMore : Uuid → Context → Context → Type 0
  OneMore account old new =
      ((a : AccountConfig) × (find_account account new.config ≡ some a))
      × (length new.broadcast ≡ suc (length old.broadcast))

  one_more :
      (old : List DaemonEvent) (event : DaemonEvent) → length (old ++ event ∷ []) ≡ suc (length old)
  one_more old event = omega (arith, length-append old (event ∷ []))

  registered-OneMore :
      (f : FolderConfig) (a : AccountConfig) (account : Uuid) (ctx : Context)
      → find_account account ctx.config ≡ some a
      → OneMore account ctx (registered O f account ctx)
  unfolding registered save_config
  registered-OneMore f a account ctx found =
      let cfg = change_account account (push_folder f) ctx.config in
      let still : find_account account cfg ≡ some (push_folder f a) =
        find_account-change_account account (push_folder f) (λ b. refl) ctx.config
        ∙ ap (map_some (push_folder f)) found in
      elim (Option-cases (O.save cfg)) [
        | inl e ↦ rw e ((push_folder f a, still), one_more ctx.broadcast _)
        | inr (reason, e) ↦ rw e ((push_folder f a, still), one_more ctx.broadcast _)
      ]

  add_space-OneMore :
      (account : Uuid) (local_path space_id display_name : String) (a : AccountConfig)
      (ctx : Context)
      → find_account account ctx.config ≡ some a
      → OneMore account ctx (add_space O account local_path space_id display_name ctx)
  unfolding add_space register
  add_space-OneMore account local_path space_id display_name a ctx found =
      let f = new_folder (O.new_v4 ctx.drawn) local_path space_id display_name in
      elim (Option-cases (O.create_dir_all local_path)) [
        | inr (reason, e) ↦ rw e ((a, found), one_more ctx.broadcast _)
        | inl e ↦
            rw (e, found)
              (elim (Option-cases (O.open_folder f a)) [
                | inl e2 ↦
                    rw e2
                      (registered-OneMore f a account (record ctx { drawn = suc ctx.drawn }) found)
                | inr (reason, e2) ↦ rw e2 ((a, found), one_more ctx.broadcast _)
              ])
      ]

  -- Where the account is configured, the loop over the chosen spaces sends one event for each, whatever
  -- fails in between.
  pub add_spaces-length :
      (account : Uuid) (root : String) (selections : List SpaceSelection) (a : AccountConfig)
      (ctx : Context)
      → find_account account ctx.config ≡ some a
      → length (add_spaces O account root selections ctx).broadcast
        ≡ length ctx.broadcast + length selections
  unfolding add_spaces
  add_spaces-length account root [] a ctx found = omega arith
  add_spaces-length account root (s ∷ selections) a ctx found =
      let ((b, still), more) =
        add_space-OneMore account (O.join root s.display_name) s.space_id s.display_name a ctx
          found in
      omega (
        arith,
        more,
        add_spaces-length account root selections b
            (add_space O account (O.join root s.display_name) s.space_id s.display_name ctx) still,
      )
