-- ===== src/SocketApi/StatusResolver.antt =====
-- crates/socket-api/src/status_resolver.rs: the status that a plug-in shows for a path.
-- `Utf8Path::starts_with` is a parameter.
pub mod Laws
pub mod Roots
mod Tests
use owncloud_sync_client.Common.{
  ℕ, String, Bool, true, false, Option, none, some, List, [], ◌∷◌, ltb, length, keep, number_eq,
  string_eq, if◌then◌else◌,
}
use owncloud_sync_client.Common.Dict
use owncloud_sync_client.Common.Dict.{Dict}
use owncloud_sync_client.SyncEngine.Types.{FilePath, Uuid}
use owncloud_sync_client.SyncEngine.State.{FileStatus, SyncState}

-- The texts that the resolver returns: "NONE", "OK", "EXCLUDED", "SYNC", "ERROR".
pub data StatusTag : Type 0 where
  none_tag ok_tag excluded_tag sync_tag error_tag : StatusTag

abbrev pub tag_text : StatusTag → String
tag_text none_tag = "NONE"
tag_text ok_tag = "OK"
tag_text excluded_tag = "EXCLUDED"
tag_text sync_tag = "SYNC"
tag_text error_tag = "ERROR"

abbrev pub priority : StatusTag → ℕ
priority error_tag = 3
priority sync_tag = 2
priority excluded_tag = 1
priority _ = 0

unfoldable pub worse_status : StatusTag → StatusTag → StatusTag
worse_status a b = if ltb (priority a) (priority b) then b else a

abbrev pub tag_of : FileStatus → StatusTag
tag_of FileStatus.ok = ok_tag
tag_of FileStatus.syncing = sync_tag
tag_of (FileStatus.error e) = error_tag
tag_of FileStatus.excluded = excluded_tag

-- The length of a text in bytes.
pub record Paths : Type 0 where
  pub starts_with : FilePath → FilePath → Bool
  pub len : FilePath → ℕ

pub record StatusResolver : Type 0 where
  pub sync_states : Dict Uuid SyncState
  pub folder_roots : List (FilePath × Uuid)

module _ (P : Paths) where
  -- `max_by_key`: the last of the longest.
  unfoldable pub longest : List (FilePath × Uuid) → Option (FilePath × Uuid)
  longest [] = none
  longest (r ∷ rs) = elim (longest rs) [
    | none ↦ some r
    | some best ↦ if ltb (P.len best.0) (P.len r.0) then some r else some best
  ]

  unfoldable pub find_folder_for_path : StatusResolver → FilePath → Option Uuid
  find_folder_for_path s path =
      Dict.map_some (λ (r : FilePath × Uuid). r.1)
        (longest (keep (λ (r : FilePath × Uuid). P.starts_with path r.0) s.folder_roots))

  abbrev file_tag : Option FileStatus → StatusTag
  file_tag none = ok_tag
  file_tag (some status) = tag_of status

  -- The state of the folder that holds a path, if both exist.
  unfoldable pub state_for_path : StatusResolver → FilePath → Option SyncState
  state_for_path s path = elim (find_folder_for_path s path) [
    | none ↦ none
    | some folder_id ↦ Dict.get folder_id s.sync_states
  ]

  unfoldable pub resolve_file : StatusResolver → FilePath → StatusTag
  resolve_file s path = elim (state_for_path s path) [
    | none ↦ none_tag
    | some state ↦ file_tag (Dict.get path state.file_statuses)
  ]

  -- The loop of `resolve_folder`, from the worst status so far.
  unfoldable pub worst_below : FilePath → StatusTag → Dict FilePath FileStatus → StatusTag
  worst_below prefix worst [] = worst
  worst_below prefix worst ((file_path, status) ∷ statuses) =
      let next =
        if P.starts_with file_path prefix then worse_status worst (tag_of status) else worst in
      worst_below prefix next statuses

  unfoldable pub resolve_folder : StatusResolver → FilePath → StatusTag
  unfolding worst_below
  resolve_folder s path = elim (state_for_path s path) [
    | none ↦ none_tag
    | some state ↦ worst_below path ok_tag state.file_statuses
  ]
