-- ===== src/Daemon/SpacePoller/Removed.antt =====
-- crates/daemon/src/space_poller.rs: which folders a poll takes out of the configuration.
use owncloud_sync_client.Common.{
  String, ◌≡◌, refl, ap, ◌∙◌, Bool, true, false, not, ◌&&◌, Option, none, some, List, [], ◌∷◌, map,
  keep, any, contains, ◌==◌, string_eq, number_eq, if◌then◌else◌, Option-cases, arith, Bool-cases,
  inl, inr,
}
use owncloud_sync_client.Common.Dict.{map_some}
use owncloud_sync_client.SyncEngine.Types.{Uuid}
use owncloud_sync_client.Daemon.Config.{FolderConfig, AccountConfig, AppConfig, find_account}
use owncloud_sync_client.Daemon.Config.Laws.{find-modify_first}
use owncloud_sync_client.Daemon.SpacePoller.{
  Space, Poller, Paths, space_ids, announce, announce_one, forget, remove_folders, missing_ids,
  suggested_root, poll_once,
}

abbrev has_id : Uuid → List FolderConfig → Bool
has_id id folders = any (λ (f : FolderConfig). f.id == id) folders

-- Whether an account has a folder of that id.
abbrev pub has_folder : Uuid → Option AccountConfig → Bool
has_folder id none = false
has_folder id (some a) = has_id id a.folder

-- Whether some folder of that id has a space that the answer does not name.
abbrev pub is_missing : List Space → Uuid → List FolderConfig → Bool
is_missing spaces id folders =
    any
      (λ (f : FolderConfig).
        f.id == id && not (contains (map (λ (s : Space). s.id) spaces) f.space_id))
      folders

has_id-keep :
    (ids : List Uuid) (id : Uuid) (folders : List FolderConfig)
    → has_id id (keep (λ (f : FolderConfig). not (contains ids f.id)) folders)
      ≡ (has_id id folders && not (contains ids id))
has_id-keep ids id [] = refl
has_id-keep ids id (f ∷ folders) = ground (arith, has_id-keep ids id folders)

contains-missing_ids :
    (P : Paths) (spaces : List Space) (id : Uuid) (folders : List FolderConfig)
    → contains (missing_ids P spaces folders) id ≡ is_missing spaces id folders
contains-missing_ids P spaces id [] = refl
contains-missing_ids P spaces id (f ∷ folders) =
    ground (arith, contains-missing_ids P spaces id folders)

module _ (P : Paths) where
  -- What an announcement leaves alone.
  abbrev shared : Poller → Uuid × AppConfig
  shared p = (p.account_id, p.config)

  announce-shared :
      (local dismissed : List String) (root : String) (spaces : List Space) (p : Poller)
      → shared (announce P local dismissed root spaces p) ≡ shared p
  unfolding announce announce_one
  announce-shared local dismissed root [] p = refl
  announce-shared local dismissed root (s ∷ spaces) p =
      announce-shared local dismissed root spaces (announce_one P local dismissed root s p)
      ∙ (elim (Bool-cases (
          not (contains local s.id)
          && (not (contains dismissed s.id) && not (contains p.emitted_discoveries s.id)))) [
            | inl e ↦ rw e refl
            | inr e ↦ rw e refl
          ])

  without_folders : List Uuid → AccountConfig → AccountConfig
  without_folders ids a = record a {
    folder = keep (λ (f : FolderConfig). not (contains ids f.id)) a.folder;
  }

  has_folder-without :
      (ids : List Uuid) (id : Uuid) (o : Option AccountConfig)
      → has_folder id (map_some (without_folders ids) o)
        ≡ (has_folder id o && not (contains ids id))
  unfolding without_folders
  has_folder-without ids id none = refl
  has_folder-without ids id (some a) = has_id-keep ids id a.folder

  and_true : (b : Bool) → b ≡ (b && true)
  and_true true = refl
  and_true false = refl

  remove_folders-has_folder :
      (ids : List Uuid) (j id : Uuid) (p : Poller)
      → has_folder id (find_account j (remove_folders P ids p).config) ≡ (
          if j == p.account_id
          then has_folder id (find_account j p.config) && not (contains ids id)
          else has_folder id (find_account j p.config))
  unfolding remove_folders without_folders
  remove_folders-has_folder [] j id p = elim (Bool-cases (j == p.account_id)) [
    | inl e ↦ rw e (and_true (has_folder id (find_account j p.config)))
    | inr e ↦ rw e refl
  ]
  remove_folders-has_folder (i ∷ ids) j id p =
      let changed =
        find-modify_first p.account_id j (without_folders (i ∷ ids)) (λ a. refl) p.config.account in
      elim (Bool-cases (j == p.account_id)) [
        | inl e ↦ rw (changed, e) (has_folder-without (i ∷ ids) id (find_account j p.config))
        | inr e ↦ rw (changed, e) refl
      ]

  -- After a poll that gets an answer, the account has the folders that it has at the poll's second look
  -- at the configuration, without those ids that a folder of the first look has whose space the answer
  -- does not name. The folders of the other accounts are those of the second look.
  pub poll_once-has_folder :
      (j id : Uuid) (spaces : List Space) (a : AccountConfig)
      (list_spaces : String → Option (List Space)) (between : AppConfig → AppConfig) (p : Poller)
      → find_account p.account_id p.config ≡ some a
      → list_spaces a.url ≡ some spaces
      → has_folder id (find_account j (poll_once P list_spaces between p).config) ≡ (
          if j == p.account_id
          then has_folder id (find_account j (between p.config))
            && not (is_missing spaces id a.folder)
          else has_folder id (find_account j (between p.config)))
  unfolding poll_once forget
  poll_once-has_folder j id spaces a list_spaces between p found answer =
      let announced =
        announce P (space_ids a.folder) a.dismissed_spaces (suggested_root P a.folder) spaces p in
      let same =
        announce-shared (space_ids a.folder) a.dismissed_spaces (suggested_root P a.folder) spaces
          p in
      let kept : Uuid × AppConfig → Bool → Bool = λ s missing.
        if j == s.0
        then has_folder id (find_account j (between s.1)) && not missing
        else has_folder id (find_account j (between s.1)) in
      rw (found, answer)
        (remove_folders-has_folder (missing_ids P spaces a.folder) j id
            (record (forget P (space_ids a.folder) a.dismissed_spaces announced) {
              config = between announced.config;
            })
          ∙ ap (λ s. kept s (contains (missing_ids P spaces a.folder) id)) same
          ∙ ap (kept (p.account_id, p.config)) (contains-missing_ids P spaces id a.folder))

  -- A poll whose request fails, or whose account is not configured, announces nothing and takes no
  -- folder out of the configuration.
  pub poll_once-unanswered :
      (list_spaces : String → Option (List Space)) (p : Poller)
      → ((a : AccountConfig)
          → find_account p.account_id p.config ≡ some a
          → list_spaces a.url ≡ none)
      → poll_once P list_spaces (λ cfg. cfg) p ≡ p
  unfolding poll_once
  poll_once-unanswered list_spaces p failing =
      elim (Option-cases (find_account p.account_id p.config)) [
        | inl e ↦ rw e refl
        | inr (a, e) ↦ rw (e, failing a e) refl
      ]
