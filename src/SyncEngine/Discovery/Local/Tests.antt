-- ===== src/SyncEngine/Discovery/Local/Tests.antt =====
-- crates/sync-engine/src/discovery/local.rs: two small trees.
use owncloud_sync_client.Common.{◌≡◌, refl, some, List, [], ◌∷◌, String, ok}
use mathlib.Core.List.{Perm, filter_map}
use owncloud_sync_client.SyncEngine.Types.{LocalEntry}
use owncloud_sync_client.SyncEngine.Host.Memory.{missing}
use owncloud_sync_client.SyncEngine.Discovery.Local.{Meta, Node, Listing, walk}
use owncloud_sync_client.SyncEngine.Discovery.Local.Laws.{
  walk-files, walk-unreadable, IsIoError, file_of, regular,
}

abbrev meta : String → Meta
meta path = record { path = path; modified = some 5; len = 3; inode = 9 }

-- A folder with a file in it, beside a file.
abbrev tree : Listing
tree =
    Listing.next (Node.dir (meta "/r/d") (Listing.next (Node.file (meta "/r/d/a")) Listing.end))
      (Listing.next (Node.file (meta "/r/b")) Listing.end)

walk-files_example :
    (es : List LocalEntry) × (walk tree ≡ ok es)
    × Perm (filter_map file_of es) (regular (meta "/r/d/a") ∷ regular (meta "/r/b") ∷ [])
walk-files_example = walk-files tree refl

abbrev locked_tree : Listing
locked_tree =
    Listing.next (Node.dir (meta "/r/d") (Listing.denied missing))
      (Listing.next (Node.file (meta "/r/b")) Listing.end)

walk-unreadable_example : IsIoError (walk locked_tree)
walk-unreadable_example = walk-unreadable locked_tree refl
