-- ===== src/SyncEngine/Host.antt =====
-- What the engine calls outside the repository: reqwest, `tokio::fs`, the crates `url` and `camino`,
-- the clocks, and SQLite's answer to a statement. A client takes it as a parameter.
-- `Exec` is an async function of the engine that may fail, with the HTTP events that it records.
pub mod Memory
use owncloud_sync_client.Common.{
  ℕ, ◌-◌, String, Bool, Option, none, some, List, [], ◌∷◌, ◌++◌, Result, ok, err,
}
use owncloud_sync_client.SyncDb.Db.{Fault}
use owncloud_sync_client.SyncEngine.Types.{
  FilePath, SystemTime, IoError, SyncError, http, io, HttpEvent,
}

abbrev pub Bytes : Type 0
Bytes = List ℕ

pub record Request : Type 0 where
  pub method : String
  pub url : String
  pub headers : List (String × String)
  pub body : Bytes

-- A response: its status with the text of `StatusCode`, the headers that the engine reads where they
-- are readable texts, and what reading the body gives.
pub record Response : Type 0 where
  pub status : ℕ
  pub status_text : String
  pub etag : Option String
  pub location : Option String
  pub body : Result Bytes String

pub record Host : Type 1 where
  pub World : Type 0
  -- `url::Url`
  pub Url : Type 0
  pub as_str : Url → String
  pub url_path : Url → String
  pub can_be_a_base : Url → Bool
  pub pop_if_empty : Url → Url
  pub push_segment : Url → String → Url
  pub join_url : Url → String → Result Url String
  pub parse_url : String → Result Url String
  pub set_path : Url → String → Url
  pub without_query : Url → Url
  pub without_fragment : Url → Url
  pub scheme : Url → String
  pub host_str : Url → Option String
  pub port : Url → Option ℕ
  -- `Utf8Path`
  pub join_path : FilePath → FilePath → FilePath
  pub parent : FilePath → Option FilePath
  pub with_extension : FilePath → String → FilePath
  pub file_stem : FilePath → Option String
  pub extension : FilePath → Option String
  pub strip_prefix : FilePath → FilePath → Option FilePath
  -- reqwest: the error is its text
  pub send : Request → World → Result Response String × World
  -- `tokio::fs`
  pub create_dir_all : FilePath → World → Result (Unit {0}) IoError × World
  pub remove_file : FilePath → World → Result (Unit {0}) IoError × World
  pub remove_dir_all : FilePath → World → Result (Unit {0}) IoError × World
  pub rename : FilePath → FilePath → World → Result (Unit {0}) IoError × World
  pub read : FilePath → World → Result Bytes IoError × World
  pub create : FilePath → World → Result (Unit {0}) IoError × World
  pub write_all : FilePath → Bytes → World → Result (Unit {0}) IoError × World
  pub flush : FilePath → World → Result (Unit {0}) IoError × World
  pub file_len : FilePath → World → Result ℕ IoError × World
  -- the monotonic clock in milliseconds, and the system's clock
  pub millis : World → ℕ
  pub now : World → SystemTime
  -- SQLite
  pub statement : World → Fault × World

module _ {S A B : Type 0} where
  infixl 5 ◌>>=◌ ◌>>◌
  abbrev bind : Result A SyncError × S → (A → S → Result B SyncError × S) → Result B SyncError × S
  bind (ok a, s) f = f a s
  bind (err e, s) f = (err e, s)

  -- `?` in a function that changes a state: an error ends the function and keeps the state.
  abbrev pub ◌>>=◌ :
      (S → Result A SyncError × S) → (A → S → Result B SyncError × S) → S → Result B SyncError × S
  ◌>>=◌ m f s = bind (m s) f

  abbrev pub ◌>>◌ :
      (S → Result A SyncError × S) → (S → Result B SyncError × S) → S → Result B SyncError × S
  ◌>>◌ m k s = bind (m s) (λ _. k)

module _ {S A : Type 0} where
  abbrev pub pure : A → S → Result A SyncError × S
  pure a s = (ok a, s)

  abbrev pub raise : SyncError → S → Result A SyncError × S
  raise e s = (err e, s)

module _ (H : Host) where
  -- The outside, and the events recorded so far.
  pub record Net : Type 0 where
    pub world : H.World
    pub events : List HttpEvent

  abbrev pub Exec : Type 0 → Type 0
  Exec A = Net → Result A SyncError × Net

  -- A call of `tokio::fs` under `?`.
  abbrev pub fs_result :
      {A : Type 0} → List HttpEvent → Result A IoError × H.World → Result A SyncError × Net
  fs_result events (ok a, w) = (ok a, record { world = w; events = events })
  fs_result events (err e, w) = (err (io e), record { world = w; events = events })

  abbrev pub fs : {A : Type 0} → (H.World → Result A IoError × H.World) → Exec A
  fs call n = fs_result n.events (call n.world)

  abbrev pub send_result :
      List HttpEvent → Result Response String × H.World → Result Response SyncError × Net
  send_result events (ok r, w) = (ok r, record { world = w; events = events })
  send_result events (err e, w) = (err (http 0 e), record { world = w; events = events })

  -- `send().await` under `map_err(|e| SyncError::Http { status: 0, .. })?`
  abbrev pub send : Request → Exec Response
  send r n = send_result n.events (H.send r n.world)

  -- `resp.bytes().await` under the same
  abbrev pub read_body : Response → Exec Bytes
  read_body r n = elim r.body [ ok bytes ↦ (ok bytes, n) | err e ↦ (err (http 0 e), n) ]

  abbrev pub millis : Exec ℕ
  millis n = (ok (H.millis n.world), n)

  -- `http_events.push`, for a request that was started at `t0`
  abbrev pub push_event : String → String → ℕ → ℕ → ℕ → Exec (Unit {0})
  push_event method url status t0 bytes n = (
    ok tt,
    record n {
      events =
          n.events
          ++ record {
            method = method;
            url = url;
            status = status;
            duration_ms = H.millis n.world - t0;
            bytes = bytes;
          }
            ∷ [];
    },
  )
