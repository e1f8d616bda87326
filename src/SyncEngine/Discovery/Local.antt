-- ===== src/SyncEngine/Discovery/Local.antt =====
-- crates/sync-engine/src/discovery/local.rs: the walk over a folder on disk. What the file system answers
-- is a tree: for a directory the result of `read_dir` with its entries, for an entry that of `metadata`.
pub mod Laws
mod Tests
use owncloud_sync_client.Common.{
  ℕ, String, Option, none, some, true, false, List, [], ◌∷◌, ◌++◌, Result, ok, err,
}
use owncloud_sync_client.SyncEngine.Types.{FilePath, SystemTime, IoError, SyncError, io, LocalEntry}

-- The metadata of one entry; `none` stands for a file system without modification times.
pub record Meta : Type 0 where
  pub path : FilePath
  pub modified : Option SystemTime
  pub len : ℕ
  pub inode : ℕ

mutual
  -- An entry that cannot be read or whose metadata cannot, a directory, a file, or anything else.
  pub data Node : Type 0 where
    unreadable : IoError → Node
    dir : Meta → Listing → Node
    file : Meta → Node
    special : Meta → Node

  -- The answer to `read_dir`: an error, or the entries in its order.
  pub data Listing : Type 0 where
    denied : IoError → Listing
    end : Listing
    next : Node → Listing → Listing

abbrev pub or_epoch : Option SystemTime → SystemTime
or_epoch none = 0
or_epoch (some t) = t

unfoldable pub dir_entry : Meta → LocalEntry
dir_entry m = record {
  path = m.path;
  mtime = or_epoch m.modified;
  size = 0;
  inode = m.inode;
  is_virtual = false;
  is_dir = true;
}

unfoldable pub file_entry : Meta → LocalEntry
file_entry m = record {
  path = m.path;
  mtime = or_epoch m.modified;
  size = m.len;
  inode = m.inode;
  is_virtual = false;
  is_dir = false;
}

-- The loop over one listing: the entries so far with those it adds.
unfoldable pub read_listing : Listing → List LocalEntry → Result (List LocalEntry) SyncError
unfolding dir_entry file_entry
read_listing (Listing.denied e) entries = err (io e)
read_listing Listing.end entries = ok entries
read_listing (Listing.next (Node.unreadable e) more) entries = err (io e)
read_listing (Listing.next (Node.dir m sub) more) entries =
    read_listing more (entries ++ dir_entry m ∷ [])
read_listing (Listing.next (Node.file m) more) entries =
    read_listing more (entries ++ file_entry m ∷ [])
read_listing (Listing.next (Node.special m) more) entries = read_listing more entries

abbrev after :
    Result (List LocalEntry) SyncError
    → (List LocalEntry → Result (List LocalEntry) SyncError)
    → Result (List LocalEntry) SyncError
after (ok entries) f = f entries
after (err e) f = err e

-- The second loop, over the directories of a listing; each of them is walked as `walk_dir` does.
unfoldable pub walk_subdirs : Listing → List LocalEntry → Result (List LocalEntry) SyncError
unfolding read_listing
walk_subdirs (Listing.denied e) entries = ok entries
walk_subdirs Listing.end entries = ok entries
walk_subdirs (Listing.next (Node.unreadable e) more) entries = walk_subdirs more entries
walk_subdirs (Listing.next (Node.dir m sub) more) entries =
    after (after (read_listing sub entries) (walk_subdirs sub)) (walk_subdirs more)
walk_subdirs (Listing.next (Node.file m) more) entries = walk_subdirs more entries
walk_subdirs (Listing.next (Node.special m) more) entries = walk_subdirs more entries

unfoldable pub walk_dir : Listing → List LocalEntry → Result (List LocalEntry) SyncError
unfolding read_listing walk_subdirs
walk_dir listing entries = after (read_listing listing entries) (walk_subdirs listing)

unfoldable pub walk : Listing → Result (List LocalEntry) SyncError
unfolding walk_dir
walk root = walk_dir root []
