-- ===== src/SyncEngine/Propagate/Download/Atomic.antt =====
-- crates/sync-engine/src/propagate/download.rs: the destination and the other files after a download.
use owncloud_sync_client.Common.{
  String, ◌≡◌, ◌≢◌, refl, sym, subst, ◌∙◌, Option, some, Result, ok, err,
}
use owncloud_sync_client.SyncEngine.Types.{FilePath, IoError, SyncError}
use owncloud_sync_client.SyncEngine.Host.{Host, Bytes, Response, Net, fs_result}
use owncloud_sync_client.SyncEngine.Propagate.Download.{
  DownloadRequest, get_request, tmp_path, rename_tmp, clean_up, propagate_download, or_empty,
}
use owncloud_sync_client.SyncEngine.Propagate.Download.Contents.{FileLaws, Post}
use owncloud_sync_client.SyncEngine.Propagate.Download.Laws.{
  Kept, Written, Fetched, propagate_download-Post,
}

module _ (H : Host) (F : FileLaws H) (req : DownloadRequest H) where
  -- The end of a download: the destination holds the body of a response with status 200 and the result
  -- is its etag, or the result is an error and the destination is as it was.
  pub data Delivered (n : Net H) : Result String SyncError × Net H → Type 0 where
    replaced :
        (resp : Response) (bytes : Bytes) (m : Net H)
        → (H.send (get_request H req) n.world).0 ≡ ok resp
        → resp.status ≡ 200
        → resp.body ≡ ok bytes
        → F.content req.local_dest m.world ≡ some bytes
        → Delivered n (ok (or_empty resp.etag), m)
    kept :
        (e : SyncError) (m : Net H)
        → F.content req.local_dest m.world ≡ F.content req.local_dest n.world
        → Delivered n (err e, m)

  abbrev tmp : FilePath
  tmp = tmp_path H req

  -- What the clean-up keeps, of a file `q` that is not the temporary one.
  clean_up-Post :
      (Final : Net H → Type 0) (q : FilePath) (old : Option Bytes) (apart : q ≢ tmp) (n : Net H)
      (r : Result (Unit {0}) IoError) (w : H.World)
      → (r ≡ ok tt → Final (record { world = w; events = n.events }))
      → ((x : IoError) → r ≡ err x → F.content q w ≡ old)
      → Post
          (λ (u : Unit {0}) m. Final m)
          (Kept H F req q old apart)
          (clean_up H tmp n (fs_result H n.events (r, w)))
  clean_up-Post Final q old apart n (ok u) w done failed = done refl
  clean_up-Post Final q old apart n (err x) w done failed =
      F.remove_file-content_ne q tmp w apart ∙ failed x refl

  abbrev Replaced : Bytes → Net H → Type 0
  Replaced b m = F.content req.local_dest m.world ≡ some b

  rename_tmp-Replaced :
      (old : Option Bytes) (apart : req.local_dest ≢ tmp) (b : Bytes) (n : Net H)
      → Written H F req req.local_dest old apart b n
      → Post
          (λ (u : Unit {0}) m. Replaced b m)
          (Kept H F req req.local_dest old apart)
          (rename_tmp H tmp req.local_dest n)
  unfolding rename_tmp
  rename_tmp-Replaced old apart b n written =
      clean_up-Post (Replaced b) req.local_dest old apart n (H.rename tmp req.local_dest n.world).0
        (H.rename tmp req.local_dest n.world).1
        (λ done. F.rename-content tmp req.local_dest n.world done ∙ written.1)
        (λ x failed.
          F.rename-content_failed req.local_dest tmp req.local_dest n.world x failed ∙ written.0)

  Delivered-of_Post :
      (apart : req.local_dest ≢ tmp) (n : Net H) (o : Result String SyncError × Net H)
      → let old = F.content req.local_dest n.world in
        Post
          (Fetched H F req req.local_dest old apart Replaced (rename_tmp-Replaced old apart) n)
          (Kept H F req req.local_dest old apart)
          o
        → Delivered n o
  Delivered-of_Post apart n (ok etag, m) (resp, sent, status, (same, (bytes, body, held))) =
      subst (λ (e : String). Delivered n (ok e, m)) (sym same)
        (Delivered.replaced resp bytes m sent status body held)
  Delivered-of_Post apart n (err e, m) same = Delivered.kept e m same

  -- If the temporary path is not the destination itself, a download with which no other task runs either
  -- fails and leaves the destination as it was, or returns the etag of a response with status 200 and
  -- leaves that response's body at the destination, whatever the server and the file system answer;
  -- bytes given to a file count as its contents only after a flush that succeeds.
  pub propagate_download-Delivered :
      req.local_dest ≢ tmp → (n : Net H) → Delivered n (propagate_download H req n)
  propagate_download-Delivered apart n =
      let old = F.content req.local_dest n.world in
      Delivered-of_Post apart n (propagate_download H req n) (
        propagate_download-Post H F req req.local_dest old apart Replaced
          (rename_tmp-Replaced old apart) n refl)

  module _ (q : FilePath) (apart : q ≢ tmp) (other : q ≢ req.local_dest) where
    rename_tmp-others :
        (old : Option Bytes) (b : Bytes) (n : Net H)
        → Written H F req q old apart b n
        → Post
            (λ (u : Unit {0}) m. Kept H F req q old apart m)
            (Kept H F req q old apart)
            (rename_tmp H tmp req.local_dest n)
    unfolding rename_tmp
    rename_tmp-others old b n written =
        clean_up-Post (Kept H F req q old apart) q old apart n
          (H.rename tmp req.local_dest n.world).0 (H.rename tmp req.local_dest n.world).1
          (λ done. F.rename-content_ne q tmp req.local_dest n.world apart other ∙ written.0)
          (λ x failed. F.rename-content_ne q tmp req.local_dest n.world apart other ∙ written.0)

    same-of_Post :
        (n : Net H) (o : Result String SyncError × Net H)
        → let old = F.content q n.world in
          Post
            (Fetched H F req q old apart
              (λ b m. Kept H F req q old apart m)
              (rename_tmp-others old)
              n)
            (Kept H F req q old apart)
            o
          → F.content q o.1.world ≡ old
    same-of_Post n (ok etag, m) (resp, sent, status, (same, (bytes, body, held))) = held
    same-of_Post n (err e, m) same = same

    -- A download changes no file but its destination and the temporary path beside it, whether it
    -- succeeds or fails.
    pub propagate_download-others :
        (n : Net H) → F.content q (propagate_download H req n).1.world ≡ F.content q n.world
    propagate_download-others n =
        let old = F.content q n.world in
        same-of_Post n (propagate_download H req n) (
          propagate_download-Post H F req q old apart (λ b m. Kept H F req q old apart m)
            (rename_tmp-others old) n refl)
