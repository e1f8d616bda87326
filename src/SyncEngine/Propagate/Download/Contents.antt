-- ===== src/SyncEngine/Propagate/Download/Contents.antt =====
-- What `tokio::fs` does to the contents of files, and how to follow a function of the engine step by
-- step: what holds after a step that succeeds, and after one that fails.
use owncloud_sync_client.Common.{◌≡◌, ◌≢◌, Option, some, [], ◌++◌, Result, ok, err}
use owncloud_sync_client.SyncEngine.Types.{FilePath, IoError, SyncError}
use owncloud_sync_client.SyncEngine.Host.{Host, Bytes, Request, ◌>>=◌}

-- The documented behaviour of the calls: each changes only the files that it names, a failing `rename`
-- changes none, and requests and `create_dir_all` leave the contents alone. `written` is what the file
-- opened at a path has been given; that it has reached the contents is only known once `flush` succeeds.
pub record FileLaws (H : Host) : Type 0 where
  pub content : FilePath → H.World → Option Bytes
  pub written : FilePath → H.World → Bytes
  pub send-content :
      (q : FilePath) (r : Request) (w : H.World) → content q (H.send r w).1 ≡ content q w
  pub create_dir_all-content :
      (q p : FilePath) (w : H.World) → content q (H.create_dir_all p w).1 ≡ content q w
  pub create-content_ne :
      (q p : FilePath) (w : H.World) → q ≢ p → content q (H.create p w).1 ≡ content q w
  pub create-written :
      (p : FilePath) (w : H.World) → (H.create p w).0 ≡ ok tt → written p (H.create p w).1 ≡ []
  pub write_all-content_ne :
      (q p : FilePath) (b : Bytes) (w : H.World)
      → q ≢ p
      → content q (H.write_all p b w).1 ≡ content q w
  pub write_all-written :
      (p : FilePath) (b : Bytes) (w : H.World)
      → (H.write_all p b w).0 ≡ ok tt
      → written p (H.write_all p b w).1 ≡ written p w ++ b
  pub flush-content_ne :
      (q p : FilePath) (w : H.World) → q ≢ p → content q (H.flush p w).1 ≡ content q w
  pub flush-content :
      (p : FilePath) (w : H.World)
      → (H.flush p w).0 ≡ ok tt
      → content p (H.flush p w).1 ≡ some (written p w)
  pub remove_file-content_ne :
      (q p : FilePath) (w : H.World) → q ≢ p → content q (H.remove_file p w).1 ≡ content q w
  pub rename-content_ne :
      (q a b : FilePath) (w : H.World) → q ≢ a → q ≢ b → content q (H.rename a b w).1 ≡ content q w
  pub rename-content :
      (a b : FilePath) (w : H.World)
      → (H.rename a b w).0 ≡ ok tt
      → content b (H.rename a b w).1 ≡ content a w
  pub rename-content_failed :
      (q a b : FilePath) (w : H.World) (e : IoError)
      → (H.rename a b w).0 ≡ err e
      → content q (H.rename a b w).1 ≡ content q w

module _ {S : Type 0} where
  -- What holds of a result and of the state after it.
  abbrev pub Post : {A : Type 0} → (A → S → Type 0) → (S → Type 0) → Result A SyncError × S → Type 0
  Post Good Bad (ok a, s) = Good a s
  Post Good Bad (err e, s) = Bad s

  pub Post-bind :
      {A B : Type 0} (Good : A → S → Type 0) (Next : B → S → Type 0) (Bad : S → Type 0)
      (o : Result A SyncError × S) (f : A → S → Result B SyncError × S)
      → Post Good Bad o
      → ((a : A) (s : S) → Good a s → Post Next Bad (f a s))
      → (s : S) → Post Next Bad (((λ _. o) >>= f) s)
  Post-bind Good Next Bad (ok a, s) f h k _ = k a s h
  Post-bind Good Next Bad (err e, s) f h k _ = h

  pub Post-map :
      {A : Type 0} (Good Next : A → S → Type 0) (Bad : S → Type 0)
      (f : (a : A) (s : S) → Good a s → Next a s) (o : Result A SyncError × S)
      → Post Good Bad o
      → Post Next Bad o
  Post-map Good Next Bad f (ok a, s) h = f a s h
  Post-map Good Next Bad f (err e, s) h = h
