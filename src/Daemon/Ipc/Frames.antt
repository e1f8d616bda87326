-- ===== src/Daemon/Ipc/Frames.antt =====
-- crates/daemon/src/gui_ipc/protocol.rs: messages on the socket, a length of four bytes and then JSON.
-- A stream is the list of the bytes that it still gives before it is closed. The JSON of serde_json is a
-- parameter.
pub mod Laws
mod Tests
use owncloud_sync_client.Common.{
  ℕ, zero, suc, ◌+◌, ◌*◌, ◌/◌, ◌%◌, ◌^◌, String, Option, none, some, List, [], ◌∷◌, ◌++◌, Result,
  ok, err, ltb, length, if◌then◌else◌,
}
use owncloud_sync_client.Daemon.Ipc.{DaemonCommand, DaemonEvent}

abbrev pub Bytes : Type 0
Bytes = List ℕ

-- `serde_json::to_vec` and `from_slice` on one type.
pub record Json (M : Type 0) : Type 0 where
  pub to_vec : M → Bytes
  pub from_slice : Bytes → Option M

pub data FrameError : Type 0 where
  unexpected_eof : FrameError
  too_large : ℕ → FrameError
  invalid : FrameError

-- `(n as u32).to_be_bytes()`
unfoldable pub to_be_bytes : ℕ → Bytes
to_be_bytes n = n / 2 ^ 24 % 256 ∷ n / 2 ^ 16 % 256 ∷ n / 2 ^ 8 % 256 ∷ n % 256 ∷ []

abbrev pub from_be_bytes : ℕ → ℕ → ℕ → ℕ → ℕ
from_be_bytes a b c d = a * 2 ^ 24 + b * 2 ^ 16 + c * 2 ^ 8 + d

-- `read_exact` into a buffer of `n` bytes: the bytes, and what is left of the stream.
unfoldable pub read_exact : ℕ → Bytes → Option (Bytes × Bytes)
read_exact zero s = some ([], s)
read_exact (suc n) [] = none
read_exact (suc n) (b ∷ s) = elim (read_exact n s) [
  | none ↦ none
  | some (taken, rest) ↦ some (b ∷ taken, rest)
]

abbrev pub max_len : ℕ
max_len = 4 * 1024 * 1024

module _ {M : Type 0} (J : Json M) where
  unfoldable pub write_frame : M → Bytes
  unfolding to_be_bytes
  write_frame m = let json = J.to_vec m in to_be_bytes (length json) ++ json

  abbrev parsed : Bytes → Option M → Result (M × Bytes) FrameError
  parsed rest none = err invalid
  parsed rest (some m) = ok (m, rest)

  abbrev decoded : Option (Bytes × Bytes) → Result (M × Bytes) FrameError
  decoded none = err unexpected_eof
  decoded (some (json, rest)) = parsed rest (J.from_slice json)

  abbrev read_body : ℕ → Bytes → Result (M × Bytes) FrameError
  read_body len s = if ltb max_len len then err (too_large len) else decoded (read_exact len s)

  unfoldable pub read_frame : Bytes → Result (M × Bytes) FrameError
  unfolding read_exact
  read_frame (a ∷ b ∷ c ∷ d ∷ s) = read_body (from_be_bytes a b c d) s
  read_frame s = err unexpected_eof

-- The daemon writes events and reads commands; the GUI does the reverse.
unfoldable pub write_message : Json DaemonEvent → DaemonEvent → Bytes
unfolding write_frame
write_message J event = write_frame J event

unfoldable pub read_message : Json DaemonCommand → Bytes → Result (DaemonCommand × Bytes) FrameError
unfolding read_frame
read_message J s = read_frame J s

unfoldable pub write_command : Json DaemonCommand → DaemonCommand → Bytes
unfolding write_frame
write_command J cmd = write_frame J cmd

unfoldable pub read_event : Json DaemonEvent → Bytes → Result (DaemonEvent × Bytes) FrameError
unfolding read_frame
read_event J s = read_frame J s
