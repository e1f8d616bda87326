-- ===== src/SyncDb/Models.antt =====
-- crates/sync-db/src/models.rs: the rows of the journal's tables.
use owncloud_sync_client.Common.{zero, String, Bool, true, false, Option, none}
use owncloud_sync_client.Common.Int.{ℤ, pos, negsuc}

-- A row of `metadata`.
pub record JournalEntry : Type 0 where
  pub path : String
  pub etag : Option String
  pub mtime : Option ℤ
  pub size : Option ℤ
  pub inode : Option ℤ
  pub file_id : Option String
  pub checksum : Option String
  pub is_virtual : ℤ

-- `JournalEntry::new`
unfoldable pub new_entry : String → JournalEntry
new_entry path = record {
  path = path;
  etag = none;
  mtime = none;
  size = none;
  inode = none;
  file_id = none;
  checksum = none;
  is_virtual = pos 0;
}

unfoldable pub is_virtual_file : JournalEntry → Bool
is_virtual_file e = elim e.is_virtual [
  | pos n ↦ elim n [ zero ↦ false | _ ↦ true ]
  | negsuc n ↦ true
]

-- A row of `upload_info`.
pub record UploadInfo : Type 0 where
  pub path : String
  pub upload_id : String
  pub offset : ℤ
  pub size : ℤ

-- `UploadInfo::new`
unfoldable pub new_upload : String → String → ℤ → UploadInfo
new_upload path upload_id size = record {
  path = path;
  upload_id = upload_id;
  offset = pos 0;
  size = size;
}

-- A row of `error_blacklist`.
pub record ErrorBlacklistEntry : Type 0 where
  pub path : String
  pub error_count : ℤ
  pub last_error : String
  pub retry_after : ℤ

-- `ErrorBlacklistEntry::new`
unfoldable pub new_blacklist : String → ℤ → String → ℤ → ErrorBlacklistEntry
new_blacklist path error_count last_error retry_after = record {
  path = path;
  error_count = error_count;
  last_error = last_error;
  retry_after = retry_after;
}
