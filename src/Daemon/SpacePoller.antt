-- ===== src/Daemon/SpacePoller.antt =====
-- crates/daemon/src/space_poller.rs: what a poll of the spaces of an account announces and removes.
pub mod Announced
pub mod Dismissed
pub mod Removed
mod Tests
use owncloud_sync_client.Common.{
  ℕ, String, ◌<>◌, Bool, true, false, not, ◌&&◌, Option, none, some, List, [], ◌∷◌, ◌++◌, map, keep,
  contains, is_empty, ◌==◌, string_eq, number_eq, if◌then◌else◌,
}
use owncloud_sync_client.SyncEngine.Types.{Uuid}
use owncloud_sync_client.Daemon.Ipc.{DaemonEvent}
use owncloud_sync_client.Daemon.Config.{
  FolderConfig, AccountConfig, AppConfig, find_account, change_account,
}

-- A space of the answer of the Graph API.
pub record Space : Type 0 where
  pub id : String
  pub name : String
  pub drive_type : String

-- The poller of one account with the configuration that it shares, and the events that were
-- broadcast. Writing the configuration to its file, whose failure is only logged, is left out.
pub record Poller : Type 0 where
  pub account_id : Uuid
  pub emitted_discoveries : List String
  pub config : AppConfig
  pub broadcast : List DaemonEvent

-- The parent of a path, and the home directory.
pub record Paths : Type 0 where
  pub parent : String → Option String
  pub home_dir : Option String

abbrev pub space_ids : List FolderConfig → List String
space_ids folders = map (λ (f : FolderConfig). f.space_id) folders

module _ (P : Paths) where
  abbrev or_empty : Option String → String
  or_empty none = ""
  or_empty (some s) = s

  abbrev parent_or_home : Option String → String
  parent_or_home none = or_empty P.home_dir
  parent_or_home (some path) = path

  unfoldable pub suggested_root : List FolderConfig → String
  suggested_root [] = or_empty P.home_dir
  suggested_root (f ∷ folders) = parent_or_home (P.parent f.local_path)

  unfoldable pub announce_one : List String → List String → String → Space → Poller → Poller
  announce_one local dismissed root s p =
      if not (contains local s.id)
        && (not (contains dismissed s.id) && not (contains p.emitted_discoveries s.id))
      then record p {
        broadcast =
            p.broadcast
            ++ DaemonEvent.space_discovered p.account_id s.id s.name (root <> ("/" <> s.name)) ∷ [];
        emitted_discoveries = p.emitted_discoveries ++ s.id ∷ [];
      }
      else p

  unfoldable pub announce : List String → List String → String → List Space → Poller → Poller
  unfolding announce_one
  announce local dismissed root [] p = p
  announce local dismissed root (s ∷ spaces) p =
      announce local dismissed root spaces (announce_one local dismissed root s p)

  unfoldable pub forget : List String → List String → Poller → Poller
  forget local dismissed p = record p {
    emitted_discoveries =
        keep (λ id. not (contains local id) && not (contains dismissed id)) p.emitted_discoveries;
  }

  abbrev pub removed_event : Uuid → FolderConfig → DaemonEvent
  removed_event account f = DaemonEvent.space_removed account f.id f.display_name f.local_path

  abbrev pub removed_of : Option AccountConfig → List Uuid → List FolderConfig
  removed_of none ids = []
  removed_of (some a) ids = keep (λ (f : FolderConfig). contains ids f.id) a.folder

  -- The second look at the configuration: the folders with one of the ids go.
  unfoldable pub remove_folders : List Uuid → Poller → Poller
  remove_folders ids p = if is_empty ids then p else record p {
    broadcast =
        p.broadcast
        ++ map (removed_event p.account_id) (removed_of (find_account p.account_id p.config) ids);
    config =
        change_account p.account_id
          (λ a. record a { folder = keep (λ (f : FolderConfig). not (contains ids f.id)) a.folder })
          p.config;
  }

  abbrev pub missing_ids : List Space → List FolderConfig → List Uuid
  missing_ids spaces folders =
      map (λ (f : FolderConfig). f.id)
        (keep (λ (f : FolderConfig). not (contains (map (λ (s : Space). s.id) spaces) f.space_id))
          folders)

  -- `between` is what the rest of the daemon does to the configuration before the second look at it.
  abbrev pub on_spaces : List Space → AccountConfig → (AppConfig → AppConfig) → Poller → Poller
  on_spaces spaces a between p =
      let local = space_ids a.folder in
      let announced =
        forget local a.dismissed_spaces
          (announce local a.dismissed_spaces (suggested_root a.folder) spaces p) in
      remove_folders (missing_ids spaces a.folder)
        (record announced { config = between announced.config })

  abbrev pub on_listing :
      Option (List Space) → AccountConfig → (AppConfig → AppConfig) → Poller → Poller
  on_listing none a between p = record p { config = between p.config }
  on_listing (some spaces) a between p = on_spaces spaces a between p

  abbrev pub on_account :
      Option AccountConfig
      → (String → Option (List Space))
      → (AppConfig → AppConfig)
      → Poller
      → Poller
  on_account none list_spaces between p = p
  on_account (some a) list_spaces between p = on_listing (list_spaces a.url) a between p

  -- `list_spaces` is the answer for a server's URL; none stands for a URL that cannot be parsed and for
  -- a request that fails.
  unfoldable pub poll_once :
      (String → Option (List Space)) → (AppConfig → AppConfig) → Poller → Poller
  unfolding announce forget remove_folders suggested_root
  poll_once list_spaces between p =
      on_account (find_account p.account_id p.config) list_spaces between p
