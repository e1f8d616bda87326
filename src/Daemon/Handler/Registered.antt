-- ===== src/Daemon/Handler/Registered.antt =====
-- crates/daemon/src/gui_ipc/handler.rs: a space that is added is added everywhere or nowhere.
use owncloud_sync_client.Common.{
  ◌≡◌, ◌⊎◌, ◌∙◌, refl, ap, inl, inr, String, none, some, [], ◌∷◌, ◌++◌, Option-cases, true, suc,
  eq_self, number_eq,
}
use owncloud_sync_client.Common.Dict
use owncloud_sync_client.Common.Dict.{map_some}
use owncloud_sync_client.SyncEngine.Types.{Uuid}
use owncloud_sync_client.Daemon.Ipc.{DaemonEvent}
use owncloud_sync_client.Daemon.Config.{FolderConfig, AccountConfig, find_account, change_account}
use owncloud_sync_client.Daemon.Config.Laws.{find_account-change_account}
use owncloud_sync_client.Daemon.Scheduler.{
  SyncScheduler, requested, fresh, add_folder, request_sync,
}
use owncloud_sync_client.Daemon.Handler.{
  push_folder, Outside, Context, new_folder, registered, register, add_space, save_config,
}

-- Only the events differ, by one failure.
abbrev pub Failed : Uuid → Context → Context → Type 0
Failed account old new =
    ((reason : String) × (new.broadcast
        ≡ old.broadcast ++ DaemonEvent.account_space_failed account reason ∷ []))
    × ((new.config ≡ old.config)
        × ((new.file ≡ old.file)
            × ((new.scheduler ≡ old.scheduler)
                × ((new.engines ≡ old.engines) × (new.live_folder_ids ≡ old.live_folder_ids)))))

-- The folder is in the account, has an engine, waits for its first sync, and is announced.
abbrev pub Added : FolderConfig → AccountConfig → Uuid → Context → Context → Type 0
Added f a account old new =
    (new.broadcast
      ≡ old.broadcast
        ++ DaemonEvent.account_folder_added account f.id f.space_id f.local_path f.display_name
          ∷ [])
    × ((find_account account new.config ≡ some (record a { folder = a.folder ++ f ∷ [] }))
        × ((Dict.get f.id new.scheduler ≡ some (record fresh { pending = true }))
            × ((new.engines ≡ old.engines ++ f.id ∷ [])
                × (new.live_folder_ids ≡ old.live_folder_ids ++ f.id ∷ []))))

module _ (O : Outside) where
  added_fresh :
      (id : Uuid) (S : SyncScheduler)
      → Dict.get id S ≡ none
      → add_folder id S ≡ Dict.insert id fresh S
  unfolding add_folder
  added_fresh id S new = rw (add_folder, new) refl

  first_sync :
      (id : Uuid) (S : SyncScheduler)
      → Dict.get id S ≡ none
      → Dict.get id (request_sync id (add_folder id S)) ≡ some (record fresh { pending = true })
  unfolding request_sync
  first_sync id S new =
      ap (λ (T : SyncScheduler). Dict.get id (request_sync id T)) (added_fresh id S new)
      ∙ Dict.get-modify id id requested (Dict.insert id fresh S)
      ∙ rw (eq_self id, Dict.get-insert_self) refl

  registered-Added :
      (f : FolderConfig) (a : AccountConfig) (account : Uuid) (ctx : Context)
      → find_account account ctx.config ≡ some a
      → Dict.get f.id ctx.scheduler ≡ none
      → Added f a account ctx (registered O f account ctx)
  unfolding registered save_config
  registered-Added f a account ctx found new =
      let cfg = change_account account (push_folder f) ctx.config in
      let config_same : find_account account cfg ≡ some (record a { folder = a.folder ++ f ∷ [] }) =
        find_account-change_account account (push_folder f) (λ b. refl) ctx.config
        ∙ ap (map_some (push_folder f)) found in
      elim (Option-cases (O.save cfg)) [
        | inl e ↦ rw e (refl, (config_same, (first_sync f.id ctx.scheduler new, (refl, refl))))
        | inr (reason, e) ↦
            rw e (refl, (config_same, (first_sync f.id ctx.scheduler new, (refl, refl))))
      ]

  -- Where the account is configured, and the next id is new to the scheduler, adding a space has one of
  -- two results. Either the folder is in the configuration, has an engine, waits for its first sync,
  -- and is announced; or one failure is announced, and the configuration, its file, the scheduler, the
  -- engines and the live folders are as before.
  pub add_space-atomic :
      (account : Uuid) (local_path space_id display_name : String) (a : AccountConfig)
      (ctx : Context)
      → find_account account ctx.config ≡ some a
      → Dict.get (O.new_v4 ctx.drawn) ctx.scheduler ≡ none
      → Added
          (new_folder (O.new_v4 ctx.drawn) local_path space_id display_name)
          a
          account
          ctx
          (add_space O account local_path space_id display_name ctx)
        ⊎ Failed account ctx (add_space O account local_path space_id display_name ctx)
  unfolding add_space register
  add_space-atomic account local_path space_id display_name a ctx found new =
      let f = new_folder (O.new_v4 ctx.drawn) local_path space_id display_name in
      elim (Option-cases (O.create_dir_all local_path)) [
        | inr (reason, e) ↦ rw e (inr ((_, refl), (refl, (refl, (refl, (refl, refl))))))
        | inl e ↦
            rw (e, found)
              (elim (Option-cases (O.open_folder f a)) [
                | inl e2 ↦ rw e2 (
                    inl (
                      registered-Added f a account (record ctx { drawn = suc ctx.drawn }) found
                        new))
                | inr (reason, e2) ↦ rw e2 (inr ((_, refl), (refl, (refl, (refl, (refl, refl))))))
              ])
      ]
