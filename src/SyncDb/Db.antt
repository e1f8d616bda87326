-- ===== src/SyncDb/Db.antt =====
-- crates/sync-db/src/db.rs: the statements, over tables keyed by `path`, the primary key.
-- Each call takes what SQLite reports for its statement: `none`, or the error with which it fails.
pub mod Listing
pub mod Laws
mod Tests
use owncloud_sync_client.Common.{
  String, Option, none, some, List, [], ◌∷◌, Result, ok, err, string_eq, if◌then◌else◌,
}
use owncloud_sync_client.Common.Dict
use owncloud_sync_client.Common.Dict.{Dict}
use owncloud_sync_client.SyncDb.Models.{JournalEntry, UploadInfo, ErrorBlacklistEntry}
use Listing.{sort_rows, values}

pub record SyncJournalDb : Type 0 where
  pub metadata : Dict String JournalEntry
  pub upload_info : Dict String UploadInfo
  pub error_blacklist : Dict String ErrorBlacklistEntry

-- The tables after the migrations, in a new file.
abbrev pub empty : SyncJournalDb
empty = record { metadata = []; upload_info = []; error_blacklist = [] }

abbrev pub Fault : Type 0
Fault = Option String

-- A query: the rows that it reads, or the error.
abbrev query {ℓ} : {A : Type ℓ} → Fault → A → Result A String
query none rows = ok rows
query (some e) rows = err e

-- A statement: a failing one leaves the tables as they were.
abbrev execute : Fault → SyncJournalDb → SyncJournalDb → Result (Unit {0}) String × SyncJournalDb
execute none db db' = (ok tt, db')
execute (some e) db db' = (err e, db)

unfoldable pub get_entry : Fault → SyncJournalDb → String → Result (Option JournalEntry) String
get_entry fault db path = query fault (Dict.get path db.metadata)

-- `ON CONFLICT(path) DO UPDATE SET`, column by column; the two rows have the same path.
abbrev set_entry : JournalEntry → JournalEntry → JournalEntry
set_entry excluded row = record row {
  path = excluded.path;
  etag = excluded.etag;
  mtime = excluded.mtime;
  size = excluded.size;
  inode = excluded.inode;
  file_id = excluded.file_id;
  checksum = excluded.checksum;
  is_virtual = excluded.is_virtual;
}

-- `INSERT`: the new row, or the one in place with its columns set.
unfoldable pub inserted : JournalEntry → Option JournalEntry → JournalEntry
inserted entry none = entry
inserted entry (some row) = set_entry entry row

unfoldable pub upsert_entry :
    Fault → SyncJournalDb → JournalEntry → Result (Unit {0}) String × SyncJournalDb
upsert_entry fault db entry =
    let row = inserted entry (Dict.get entry.path db.metadata) in
    execute fault db (record db { metadata = Dict.insert entry.path row db.metadata })

unfoldable pub delete_entry :
    Fault → SyncJournalDb → String → Result (Unit {0}) String × SyncJournalDb
delete_entry fault db path =
    execute fault db (record db { metadata = Dict.remove path db.metadata })

unfoldable pub list_entries : Fault → SyncJournalDb → Result (List JournalEntry) String
list_entries fault db = query fault (sort_rows (values db.metadata))

unfoldable pub get_upload_info : Fault → SyncJournalDb → String → Result (Option UploadInfo) String
get_upload_info fault db path = query fault (Dict.get path db.upload_info)

abbrev inserted_upload : UploadInfo → Option UploadInfo → UploadInfo
inserted_upload info none = info
inserted_upload info (some row) = record row {
  path = info.path;
  upload_id = info.upload_id;
  offset = info.offset;
  size = info.size;
}

unfoldable pub set_upload_info :
    Fault → SyncJournalDb → UploadInfo → Result (Unit {0}) String × SyncJournalDb
set_upload_info fault db info =
    let row = inserted_upload info (Dict.get info.path db.upload_info) in
    execute fault db (record db { upload_info = Dict.insert info.path row db.upload_info })

unfoldable pub clear_upload_info :
    Fault → SyncJournalDb → String → Result (Unit {0}) String × SyncJournalDb
clear_upload_info fault db path =
    execute fault db (record db { upload_info = Dict.remove path db.upload_info })

abbrev inserted_error : ErrorBlacklistEntry → Option ErrorBlacklistEntry → ErrorBlacklistEntry
inserted_error entry none = entry
inserted_error entry (some row) = record row {
  path = entry.path;
  error_count = entry.error_count;
  last_error = entry.last_error;
  retry_after = entry.retry_after;
}

unfoldable pub add_blacklist :
    Fault → SyncJournalDb → ErrorBlacklistEntry → Result (Unit {0}) String × SyncJournalDb
add_blacklist fault db entry =
    let row = inserted_error entry (Dict.get entry.path db.error_blacklist) in
    execute fault db (record db { error_blacklist = Dict.insert entry.path row db.error_blacklist })

unfoldable pub get_blacklist :
    Fault → SyncJournalDb → String → Result (Option ErrorBlacklistEntry) String
get_blacklist fault db path = query fault (Dict.get path db.error_blacklist)

unfoldable pub clear_blacklist :
    Fault → SyncJournalDb → String → Result (Unit {0}) String × SyncJournalDb
clear_blacklist fault db path =
    execute fault db (record db { error_blacklist = Dict.remove path db.error_blacklist })
