-- ===== src/SyncDb/Db/Tests.antt =====
-- Runs of the journal's statements, and its theorems at concrete rows.
use mathlib.Core.List.{Mem}
use owncloud_sync_client.Common.{String, ◌≡◌, refl, ◌↔◌, none, some, [], ◌∷◌, ok, string_eq}
use owncloud_sync_client.Common.Dict
use owncloud_sync_client.SyncDb.Models.{JournalEntry, new_entry}
use owncloud_sync_client.SyncDb.Db.{
  SyncJournalDb, empty, get_entry, inserted, upsert_entry, delete_entry, list_entries,
}
use owncloud_sync_client.SyncDb.Db.Listing.{IsOrdered, sort_rows, values, path_le}
use owncloud_sync_client.SyncDb.Db.Laws.{IsKeyed, get_entry-written, list_entries-get_entry}

abbrev row : String → JournalEntry
row path = record {
  path = path;
  etag = some "e1";
  mtime = none;
  size = none;
  inode = none;
  file_id = none;
  checksum = none;
  is_virtual = (new_entry path).is_virtual;
}

filled : SyncJournalDb
unfolding upsert_entry inserted new_entry Dict.insert Dict.get string_eq
filled = (upsert_entry none (upsert_entry none empty (row "b.txt")).1 (row "a.txt")).1

listed : list_entries none filled ≡ ok (row "a.txt" ∷ row "b.txt" ∷ [])
unfolding filled list_entries sort_rows values path_le inserted Dict.get
listed = refl

filled-IsKeyed : IsKeyed filled.metadata
unfolding filled Dict.get inserted
filled-IsKeyed = (refl, refl, (refl, refl, tt))

abbrev changed : JournalEntry
changed = record (row "a.txt") { etag = some "e2"; checksum = some "c" }

get_entry-written_example :
    (get_entry none (upsert_entry none filled changed).1 "a.txt" ≡ ok (some changed))
    × (get_entry none (delete_entry none filled "a.txt").1 "a.txt" ≡ ok none)
unfolding string_eq
get_entry-written_example = get_entry-written none filled changed "a.txt" "a.txt"

list_entries-get_entry_example :
    IsOrdered (row "a.txt" ∷ row "b.txt" ∷ [])
    × ((e : JournalEntry)
        → Mem e (row "a.txt" ∷ row "b.txt" ∷ []) ↔ (get_entry none filled e.path ≡ ok (some e)))
list_entries-get_entry_example =
    list_entries-get_entry filled (row "a.txt" ∷ row "b.txt" ∷ []) filled-IsKeyed listed
