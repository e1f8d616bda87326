-- ===== src/SyncEngine/Reconcile.antt =====
-- crates/sync-engine/src/reconcile.rs: what to do with one path.
pub mod Laws
mod Tests
use owncloud_sync_client.Common.{
  ℕ, String, Bool, true, false, Option, none, some, ◌!=◌, string_eq, number_eq,
}
use owncloud_sync_client.SyncEngine.Types.{
  LocalEntry, RemoteEntry, SyncInstruction, upload, download, delete_local, delete_remote, conflict,
  ignore, ConflictStrategy, keep_both, keep_remote, keep_local,
}

-- The etag and the size after the last successful sync of the path.
abbrev pub JournalBaseline : Type 0
JournalBaseline = String × ℕ

-- Both sides differ from the baseline.
unfoldable pub resolve : ConflictStrategy → SyncInstruction
resolve keep_both = conflict
resolve keep_remote = download
resolve keep_local = upload

-- The inner match on `(local_changed, remote_changed)`.
unfoldable pub reconcile_changes : Bool → Bool → ConflictStrategy → SyncInstruction
unfolding resolve
reconcile_changes false false strategy = ignore
reconcile_changes true false strategy = upload
reconcile_changes false true strategy = download
reconcile_changes true true strategy = resolve strategy

unfoldable pub reconcile :
    Option LocalEntry
    → Option RemoteEntry
    → Option JournalBaseline
    → ConflictStrategy
    → SyncInstruction
unfolding reconcile_changes
reconcile none none journal strategy = ignore
reconcile (some loc) none none strategy = upload
reconcile (some loc) none (some base) strategy = delete_local
reconcile none (some rem) none strategy = download
reconcile none (some rem) (some base) strategy = delete_remote
reconcile (some loc) (some rem) none strategy = conflict
reconcile (some loc) (some rem) (some (j_etag, j_size)) strategy =
    reconcile_changes (loc.size != j_size) (rem.etag != j_etag) strategy
