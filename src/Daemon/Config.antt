-- ===== src/Daemon/Config.antt =====
-- crates/daemon/src/config.rs: the configuration of accounts and folders.
pub mod Laws
use owncloud_sync_client.Common.{
  ℕ, String, Bool, true, false, Option, List, find, modify_first, any, ◌==◌, number_eq,
}
use owncloud_sync_client.SyncEngine.Types.{Uuid}

-- `ServerType` of crates/ocis-client/src/lib.rs
pub data ServerType : Type 0 where
  ocis classic : ServerType

pub record GeneralConfig : Type 0 where
  pub log_level : String
  pub notification_enabled : Bool
  pub poll_interval_secs : ℕ
  pub space_poll_interval_secs : ℕ
  pub insecure : Bool

pub record FolderConfig : Type 0 where
  pub id : Uuid
  pub local_path : String
  pub space_id : String
  pub display_name : String
  pub selective_sync_excluded : List String
  pub vfs_mode : String
  pub paused : Bool

pub record AccountConfig : Type 0 where
  pub id : Uuid
  pub url : String
  pub user_id : String
  pub username : String
  pub display_name : String
  pub server_type : ServerType
  pub folder : List FolderConfig
  pub dismissed_spaces : List String

pub record AppConfig : Type 0 where
  pub general : GeneralConfig
  pub account : List AccountConfig

-- `GeneralConfig::default`
abbrev pub default_general : GeneralConfig
default_general = record {
  log_level = "info";
  notification_enabled = true;
  poll_interval_secs = 30;
  space_poll_interval_secs = 300;
  insecure = false;
}

abbrev pub classic_space_id : String
classic_space_id = "00000000-0000-0000-0000-000000000000"

-- `cfg.account.iter().find(|a| a.id == account_id)`, its test, and its change in place.
abbrev pub find_account : Uuid → AppConfig → Option AccountConfig
find_account id cfg = find (λ (a : AccountConfig). a.id == id) cfg.account

abbrev pub has_account : Uuid → AppConfig → Bool
has_account id cfg = any (λ (a : AccountConfig). a.id == id) cfg.account

abbrev pub change_account : Uuid → (AccountConfig → AccountConfig) → AppConfig → AppConfig
change_account id f cfg = record cfg {
  account = modify_first (λ (a : AccountConfig). a.id == id) f cfg.account;
}
