-- ===== src/SyncEngine/Engine/Plan.antt =====
-- Phase 2 of `run_sync`: the entries by path, one decision for each path, and the counts.
use owncloud_sync_client.Common.{
  ℕ, suc, String, Bool, true, false, not, Option, none, some, List, [], ◌∷◌, ◌++◌, Result, ok, err,
  contains, string_eq, keep, count, if◌then◌else◌,
}
use owncloud_sync_client.Common.Dict
use owncloud_sync_client.Common.Dict.{Dict}
use owncloud_sync_client.Common.Int.{as_u64}
use owncloud_sync_client.SyncDb.Models.{JournalEntry}
use owncloud_sync_client.SyncDb.Db.{SyncJournalDb, get_entry}
use owncloud_sync_client.SyncEngine.Types.{
  FilePath, LocalEntry, RemoteEntry, SyncInstruction, upload, download, delete_local, delete_remote,
  conflict, ignore, ConflictStrategy,
}
use owncloud_sync_client.SyncEngine.Reconcile.{JournalBaseline, reconcile}
use owncloud_sync_client.SyncEngine.Host.{Host}
use owncloud_sync_client.SyncEngine.Engine.Context.{Planned}

-- The tests `*i == SyncInstruction::X` and `instr != SyncInstruction::Ignore`.
abbrev pub is_ignore : SyncInstruction → Bool
is_ignore ignore = true
is_ignore _ = false

abbrev pub is_download : SyncInstruction → Bool
is_download download = true
is_download _ = false

abbrev pub is_upload : SyncInstruction → Bool
is_upload upload = true
is_upload _ = false

abbrev pub is_conflict : SyncInstruction → Bool
is_conflict conflict = true
is_conflict _ = false

abbrev pub is_delete_local : SyncInstruction → Bool
is_delete_local delete_local = true
is_delete_local _ = false

abbrev pub is_delete_remote : SyncInstruction → Bool
is_delete_remote delete_remote = true
is_delete_remote _ = false

-- `collect` into a `HashMap`: a later entry replaces an earlier one of the same key.
unfoldable pub collect : {V : Type 0} → (V → FilePath) → List V → Dict FilePath V → Dict FilePath V
collect key [] d = d
collect key (v ∷ vs) d = collect key vs (Dict.insert (key v) v d)

-- `e.path.strip_prefix(local_root).unwrap_or(&e.path)`
abbrev pub or_whole : FilePath → Option FilePath → FilePath
or_whole path none = path
or_whole path (some rel) = rel

-- The keys of both maps, each once.
unfoldable pub union_keys : List FilePath → List FilePath → List FilePath
union_keys locals remotes = locals ++ keep (λ p. not (contains locals p)) remotes

-- The etag and the size of a row, if the query succeeds and both columns are set.
unfoldable pub baseline : Result (Option JournalEntry) String → Option JournalBaseline
baseline (err e) = none
baseline (ok none) = none
baseline (ok (some e)) = elim e.etag [
  | none ↦ none
  | some etag ↦ elim e.size [ none ↦ none | some size ↦ some (etag, as_u64 size) ]
]

-- From the local entry if there is one, else from the remote entry.
abbrev pub entry_is_dir : Option LocalEntry → Option RemoteEntry → Bool
entry_is_dir (some l) rem = l.is_dir
entry_is_dir none (some r) = r.is_dir
entry_is_dir none none = false

-- The end of a round: the item is kept, or counted as ignored, in front of the later rounds' result.
unfoldable pub add_item : {W : Type 0} → Planned → List Planned × ℕ × W → List Planned × ℕ × W
add_item item (items, ignored, w) =
    if is_ignore item.instruction then (items, suc ignored, w) else (item ∷ items, ignored, w)

module _ (H : Host) (strategy : ConflictStrategy) (db : SyncJournalDb) where
  module _ (local_map : Dict FilePath LocalEntry) (remote_map : Dict FilePath RemoteEntry) where
    -- One round of the loop, up to the test for `Ignore`; `fault` is SQLite's answer to the query.
    unfoldable pub plan_path : Option String → FilePath → Planned
    plan_path fault path =
        let loc = Dict.get path local_map in
        let rem = Dict.get path remote_map in
        record {
          path = path;
          instruction = reconcile loc rem (baseline (get_entry fault db path)) strategy;
          rem = rem;
          is_dir = entry_is_dir loc rem;
        }

    -- The loop: `instructions`, `n_ignored`, and the outside after the queries.
    unfoldable pub plan_paths : List FilePath → H.World → List Planned × ℕ × H.World
    plan_paths [] w = ([], 0, w)
    plan_paths (path ∷ paths) w =
        let (fault, w1) = H.statement w in add_item (plan_path fault path) (plan_paths paths w1)

-- `instructions.iter().filter(|(_, i, _, _)| *i == X).count()`
abbrev pub tally : (SyncInstruction → Bool) → List Planned → ℕ
tally test = count (λ (item : Planned). test item.instruction)

-- The two sides of `partition`.
abbrev pub dirs_of : List Planned → List Planned
dirs_of = keep (λ (item : Planned). item.is_dir)

abbrev pub files_of : List Planned → List Planned
files_of = keep (λ (item : Planned). not item.is_dir)
