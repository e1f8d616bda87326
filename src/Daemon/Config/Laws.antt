-- ===== src/Daemon/Config/Laws.antt =====
-- crates/daemon/src/config.rs: accounts found after a change of one of them.
use owncloud_sync_client.Common.{
  ◌≡◌, none, List, [], ◌∷◌, find, modify_first, keep, ◌==◌, ◌!=◌, number_eq, if◌then◌else◌, arith,
}
use owncloud_sync_client.Common.Dict.{map_some}
use owncloud_sync_client.SyncEngine.Types.{Uuid}
use owncloud_sync_client.Daemon.Config.{AccountConfig, AppConfig, find_account, change_account}

module _ (id j : Uuid) (f : AccountConfig → AccountConfig)
    (same_id : (a : AccountConfig) → (f a).id ≡ a.id) where
  pub find-modify_first :
      (accounts : List AccountConfig)
      → find
          (λ (a : AccountConfig). a.id == j)
          (modify_first (λ (a : AccountConfig). a.id == id) f accounts)
        ≡ (if j == id
            then map_some f (find (λ (a : AccountConfig). a.id == j) accounts)
            else find (λ (a : AccountConfig). a.id == j) accounts)
  find-modify_first [] = ground arith
  find-modify_first (a ∷ accounts) = ground (arith, find-modify_first accounts, same_id a)

pub find_account-change_account :
    (id : Uuid) (f : AccountConfig → AccountConfig)
    (same_id : (a : AccountConfig) → (f a).id ≡ a.id) (cfg : AppConfig)
    → find_account id (change_account id f cfg) ≡ map_some f (find_account id cfg)
find_account-change_account id f same_id cfg =
    ground (arith, find-modify_first id id f same_id cfg.account)

pub find_account-keep :
    (j id : Uuid) (accounts : List AccountConfig)
    → find (λ (a : AccountConfig). a.id == j) (keep (λ (a : AccountConfig). a.id != id) accounts)
      ≡ (if j == id then none else find (λ (a : AccountConfig). a.id == j) accounts)
find_account-keep j id [] = ground arith
find_account-keep j id (a ∷ accounts) = ground (arith, find_account-keep j id accounts)
