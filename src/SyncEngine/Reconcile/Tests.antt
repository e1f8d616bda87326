-- ===== src/SyncEngine/Reconcile/Tests.antt =====
-- The theorems about `reconcile` at concrete entries.
use owncloud_sync_client.Common.{ℕ, String, ◌≡◌, refl, false, none, some, string_eq, number_eq}
use owncloud_sync_client.SyncEngine.Types.{
  LocalEntry, RemoteEntry, delete_local, delete_remote, download, keep_both,
}
use owncloud_sync_client.SyncEngine.Reconcile.{reconcile}
use owncloud_sync_client.SyncEngine.Reconcile.Laws.{PathState, decide}

abbrev here : ℕ → LocalEntry
here size = record {
  path = "a";
  mtime = 0;
  size = size;
  inode = 1;
  is_virtual = false;
  is_dir = false;
}

abbrev there : String → RemoteEntry
there etag = record {
  path = "a";
  etag = etag;
  mtime = 0;
  size = 3;
  file_id = "f";
  permissions = 0;
  is_dir = false;
}

-- Both sides changed since ("e1", 3).
abbrev both : PathState
both = record { loc = some (here 4); rem = some (there "e2"); journal = some ("e1", 3) }

abbrev remote_lost : PathState
remote_lost = record { loc = some (here 4); rem = none; journal = some ("e1", 3) }

abbrev local_lost : PathState
local_lost = record { loc = none; rem = some (there "e2"); journal = some ("e1", 3) }

-- A local edit is deleted when the server has deleted the file, and the other way round.
remote_lost_test : decide remote_lost keep_both ≡ delete_local
unfolding reconcile
remote_lost_test = refl

local_lost_test : decide local_lost keep_both ≡ delete_remote
unfolding reconcile
local_lost_test = refl

-- A local edit of the same size is not seen: it is overwritten by the server's change.
same_size_test : decide (record both { loc = some (here 3) }) keep_both ≡ download
unfolding reconcile string_eq number_eq
same_size_test = refl
