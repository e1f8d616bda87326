-- ===== src/SyncEngine/Propagate/Download/Laws.antt =====
-- crates/sync-engine/src/propagate/download.rs, step by step: what is known of a file after each step.
use owncloud_sync_client.Common.{
  ℕ, String, ◌≡◌, ◌≢◌, refl, ◌∙◌, Option, none, some, List, [], ◌++◌, ap, Result, ok, err, ◌!=◌,
  number_eq, string_eq, Bool-cases, Result-cases, inl, inr, arith, if◌then◌else◌,
}
use owncloud_sync_client.Common.Texts.{trim_matches}
use owncloud_sync_client.SyncEngine.Types.{FilePath, IoError, HttpEvent}
use owncloud_sync_client.SyncEngine.Host.{
  Host, Bytes, Response, Net, fs, fs_result, send, send_result, read_body,
}
use owncloud_sync_client.SyncEngine.Propagate.Download.{
  DownloadRequest, get_request, tmp_path, create_parent, check_etag, rename_tmp, write_file,
  receive, reject, propagate_download, or_empty,
}
use owncloud_sync_client.SyncEngine.Propagate.Download.Contents.{
  FileLaws, Post, Post-bind, Post-map,
}

module _ (H : Host) (F : FileLaws H) where
  pub fs-Post :
      (Good Bad : Net H → Type 0) (events : List HttpEvent) (r : Result (Unit {0}) IoError)
      (w : H.World)
      → (r ≡ ok tt → Good (record { world = w; events = events }))
      → ((e : IoError) → r ≡ err e → Bad (record { world = w; events = events }))
      → Post (λ (u : Unit {0}) n. Good n) Bad (fs_result H events (r, w))
  fs-Post Good Bad events (ok u) w h k = h refl
  fs-Post Good Bad events (err e) w h k = k e refl

  -- The steps before the file is renamed, followed for a file `q` that is not the temporary one.
  module _ (req : DownloadRequest H) (q : FilePath) (old : Option Bytes)
      (apart : q ≢ tmp_path H req) where
    abbrev pub Kept : Net H → Type 0
    Kept n = F.content q n.world ≡ old

    create_parent-Post :
        (parent : Option FilePath) (n : Net H)
        → Kept n
        → Post (λ (u : Unit {0}) m. Kept m) Kept (create_parent H parent n)
    unfolding create_parent
    create_parent-Post none n kept = kept
    create_parent-Post (some p) n kept =
        fs-Post Kept Kept n.events _ _ (λ _. F.create_dir_all-content q p n.world ∙ kept)
          (λ e _. F.create_dir_all-content q p n.world ∙ kept)

    read_body-Post :
        (resp : Response) (n : Net H)
        → Kept n
        → Post (λ (b : Bytes) m. (resp.body ≡ ok b) × Kept m) Kept (read_body H resp n)
    read_body-Post resp n kept = elim (Result-cases resp.body) [
      | inl (b, e) ↦ rw e (refl, kept)
      | inr (x, e) ↦ rw e kept
    ]

    check_etag-Post :
        (expected : Option String) (etag : String) (n : Net H)
        → Kept n
        → Post (λ (u : Unit {0}) m. Kept m) Kept (check_etag H expected etag n)
    unfolding check_etag
    check_etag-Post none etag n kept = kept
    check_etag-Post (some x) etag n kept =
        elim (Bool-cases (trim_matches b'"' etag != trim_matches b'"' x)) [
          | inl e ↦ rw e kept
          | inr e ↦ rw e kept
        ]

    send_result-Post :
        (events : List HttpEvent) (r : Result Response String) (w : H.World)
        → F.content q w ≡ old
        → Post (λ (resp : Response) m. (r ≡ ok resp) × Kept m) Kept (send_result H events (r, w))
    send_result-Post events (ok resp) w kept = (refl, kept)
    send_result-Post events (err e) w kept = kept

    abbrev pub Written : Bytes → Net H → Type 0
    Written b m = Kept m × (F.content (tmp_path H req) m.world ≡ some b)

    -- The bytes are given to the open file, and need not have reached it.
    abbrev Given : Bytes → Net H → Type 0
    Given b m = Kept m × (F.written (tmp_path H req) m.world ≡ b)

    write_file-Post :
        (b : Bytes) (n : Net H)
        → Kept n
        → Post (λ (u : Unit {0}) m. Written b m) Kept (write_file H (tmp_path H req) b n)
    unfolding write_file
    write_file-Post b n kept =
        let tmp = tmp_path H req in
        Post-bind (λ (u : Unit {0}) m. Given [] m) (λ (u : Unit {0}) m. Written b m) Kept
          (fs H (H.create tmp) n) _
          (fs-Post (Given []) Kept n.events _ _
            (λ done.
              (F.create-content_ne q tmp n.world apart ∙ kept, F.create-written tmp n.world done))
            (λ e _. F.create-content_ne q tmp n.world apart ∙ kept))
          (λ _ n1 k1.
            Post-bind (λ (u : Unit {0}) m. Given b m) (λ (u : Unit {0}) m. Written b m) Kept
              (fs H (H.write_all tmp b) n1) _
              (fs-Post (Given b) Kept n1.events _ _
                (λ done. (
                  F.write_all-content_ne q tmp b n1.world apart ∙ k1.0,
                  F.write_all-written tmp b n1.world done ∙ ap (λ front. front ++ b) k1.1,
                ))
                (λ e _. F.write_all-content_ne q tmp b n1.world apart ∙ k1.0))
              (λ _ n2 k2.
                fs-Post (Written b) Kept n2.events _ _
                  (λ done. (
                    F.flush-content_ne q tmp n2.world apart ∙ k2.0,
                    F.flush-content tmp n2.world done ∙ ap some k2.1,
                  ))
                  (λ e _. F.flush-content_ne q tmp n2.world apart ∙ k2.0))
              n1)
          n

    send-Post :
        (n : Net H)
        → Kept n
        → Post
            (λ (resp : Response) m. ((H.send (get_request H req) n.world).0 ≡ ok resp) × Kept m)
            Kept
            (send H (get_request H req) n)
    send-Post n kept =
        send_result-Post n.events (H.send (get_request H req) n.world).0
          (H.send (get_request H req) n.world).1
          (F.send-content q (get_request H req) n.world ∙ kept)

    -- What a response with a body leaves: its bytes, with the etag of the response.
    abbrev pub Received : (Bytes → Net H → Type 0) → Response → String → Net H → Type 0
    Received Final resp etag m =
        (etag ≡ or_empty resp.etag) × ((b : Bytes) × (resp.body ≡ ok b) × Final b m)

    module _ (Final : Bytes → Net H → Type 0)
        (rename-Post : (b : Bytes) (m : Net H)
          → Written b m
          → Post
              (λ (u : Unit {0}) m'. Final b m')
              Kept
              (rename_tmp H (tmp_path H req) req.local_dest m)) where
      receive-Post :
          (t0 : ℕ) (resp : Response) (n : Net H)
          → Kept n
          → Post (Received Final resp) Kept (receive H req t0 resp n)
      unfolding receive
      receive-Post t0 resp n kept =
          Post-bind (λ (u : Unit {0}) m. Kept m) (Received Final resp) Kept
            (create_parent H (H.parent req.local_dest) n) _
            (create_parent-Post (H.parent req.local_dest) n kept)
            (λ _ n1 k1.
              Post-bind (λ (b : Bytes) m. (resp.body ≡ ok b) × Kept m) (Received Final resp) Kept
                (read_body H resp n1) _ (read_body-Post resp n1 k1)
                (λ b n2 k2.
                  Post-bind (λ (u : Unit {0}) m. Kept m) (Received Final resp) Kept
                    (check_etag H req.expected_etag (or_empty resp.etag) _) _
                    (check_etag-Post req.expected_etag (or_empty resp.etag) _ k2.1)
                    (λ _ n3 k3.
                      Post-bind (λ (u : Unit {0}) m. Written b m) (Received Final resp) Kept
                        (write_file H (tmp_path H req) b n3) _ (write_file-Post b n3 k3)
                        (λ _ n4 k4.
                          Post-bind (λ (u : Unit {0}) m. Final b m) (Received Final resp) Kept
                            (rename_tmp H (tmp_path H req) req.local_dest n4) _
                            (rename-Post b n4 k4) (λ _ n5 k5. (refl, (b, k2.0, k5))) n4)
                        n3)
                    n2)
                n1)
            n

      abbrev pub Fetched : Net H → String → Net H → Type 0
      Fetched n etag m =
          (resp : Response) × ((H.send (get_request H req) n.world).0 ≡ ok resp)
          × (resp.status ≡ 200)
          × Received Final resp etag m

      status-Post :
          (n : Net H) (t0 : ℕ) (resp : Response) (n1 : Net H)
          → (H.send (get_request H req) n.world).0 ≡ ok resp
          → Kept n1
          → Post
              (Fetched n)
              Kept
              ((if resp.status != 200 then reject H req t0 resp else receive H req t0 resp) n1)
      status-Post n t0 resp n1 sent k1 = elim (Bool-cases (resp.status != 200)) [
        | inl e ↦ rw e (unfold reject in k1)
        | inr e ↦ rw e (
            Post-map (Received Final resp) (Fetched n) Kept
              (λ etag m received. (resp, sent, ground (arith, e), received))
              (receive H req t0 resp n1) (receive-Post t0 resp n1 k1))
      ]

      pub propagate_download-Post :
          (n : Net H) → Kept n → Post (Fetched n) Kept (propagate_download H req n)
      unfolding propagate_download
      propagate_download-Post n kept =
          Post-bind
            (λ (resp : Response) m. ((H.send (get_request H req) n.world).0 ≡ ok resp) × Kept m)
            (Fetched n) Kept (send H (get_request H req) n) _ (send-Post n kept)
            (λ resp n1 k1. status-Post n (H.millis n.world) resp n1 k1.0 k1.1) n
