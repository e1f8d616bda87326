-- ===== src/SyncEngine/Propagate/Ops.antt =====
-- crates/sync-engine/src/propagate/ops.rs: deletions, MKCOL and MOVE.
use owncloud_sync_client.Common.{
  ℕ, String, ◌<>◌, Bool, ◌||◌, [], ◌∷◌, Result, ok, err, ◌==◌, number_eq, if◌then◌else◌,
}
use owncloud_sync_client.SyncEngine.Types.{FilePath, IoError, http}
use owncloud_sync_client.SyncEngine.Host.{Host, Response, Exec, fs_result, send, pure, raise, ◌>>=◌}

-- `.bearer_auth(token)`
abbrev pub bearer : String → String × String
bearer token = ("Authorization", "Bearer " <> token)

-- An error of kind `NotFound` counts as success.
abbrev pub tolerate_missing : Result (Unit {0}) IoError → Result (Unit {0}) IoError
tolerate_missing (ok u) = ok u
tolerate_missing (err e) = if e.not_found then ok tt else err e

abbrev tolerate : {W : Type 0} → Result (Unit {0}) IoError × W → Result (Unit {0}) IoError × W
tolerate (r, w) = (tolerate_missing r, w)

abbrev pub accepts_delete : ℕ → Bool
accepts_delete status = status == 204 || (status == 200 || status == 404)

abbrev pub accepts_mkcol : ℕ → Bool
accepts_mkcol status = status == 201 || (status == 200 || status == 405)

abbrev pub accepts_move : ℕ → Bool
accepts_move status = status == 201 || status == 204

module _ (H : Host) where
  unfoldable pub delete_local : FilePath → Exec H (Unit {0})
  delete_local path n = fs_result H n.events (tolerate (H.remove_file path n.world))

  unfoldable pub delete_local_dir : FilePath → Exec H (Unit {0})
  delete_local_dir path n = fs_result H n.events (tolerate (H.remove_dir_all path n.world))

  -- The last part of `delete_remote`, `mkdir_remote` and `rename_remote`.
  unfoldable pub expect_status : Bool → Response → String → Exec H (Unit {0})
  expect_status accepted resp message =
      if accepted then pure tt else raise (http resp.status message)

  unfoldable pub delete_remote : H.Url → String → Exec H (Unit {0})
  unfolding expect_status
  delete_remote url bearer_token = do
    resp ← send H (record {
      method = "DELETE";
      url = H.as_str url;
      headers = bearer bearer_token ∷ [];
      body = [];
    })
    expect_status (accepts_delete resp.status) resp ("DELETE failed: " <> resp.status_text)

  unfoldable pub mkdir_remote : H.Url → String → Exec H (Unit {0})
  unfolding expect_status
  mkdir_remote url bearer_token = do
    resp ← send H (record {
      method = "MKCOL";
      url = H.as_str url;
      headers = bearer bearer_token ∷ [];
      body = [];
    })
    expect_status (accepts_mkcol resp.status) resp "MKCOL failed"

  unfoldable pub rename_remote : H.Url → H.Url → Exec H (Unit {0})
  unfolding expect_status
  rename_remote from_url to_url = do
    resp ← send H (record {
      method = "MOVE";
      url = H.as_str from_url;
      headers = ("Destination", H.as_str to_url) ∷ ("Overwrite", "T") ∷ [];
      body = [];
    })
    expect_status (accepts_move resp.status) resp ("MOVE failed: " <> resp.status_text)
