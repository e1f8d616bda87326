-- ===== src/Daemon/Ipc/Frames/Tests.antt =====
-- crates/daemon/src/gui_ipc/protocol.rs: frames of a format in which a message is its own text.
use owncloud_sync_client.Common.{◌≡◌, refl, ◌++◌, some, [], ◌∷◌, ok, arith}
use owncloud_sync_client.Daemon.Ipc.Frames.{Bytes, Json, read_frame}
use owncloud_sync_client.Daemon.Ipc.Frames.Laws.{
  read_frame-bounded, AtMost, read_many-write_all, read_many, write_all,
}

abbrev plain : Json Bytes
plain = record { to_vec = λ m. m; from_slice = some }

read_many-write_all_example :
    read_many plain 2 (write_all plain ((7 ∷ 8 ∷ []) ∷ (9 ∷ []) ∷ []) ++ 1 ∷ [])
    ≡ ok ((7 ∷ 8 ∷ []) ∷ (9 ∷ []) ∷ [], 1 ∷ [])
read_many-write_all_example =
    read_many-write_all plain ((7 ∷ 8 ∷ []) ∷ (9 ∷ []) ∷ []) (1 ∷ []) (λ m. refl)
      (omega arith, (omega arith, tt))

read_frame_test : read_frame plain (0 ∷ 0 ∷ 0 ∷ 1 ∷ 5 ∷ 6 ∷ []) ≡ ok (5 ∷ [], 6 ∷ [])
unfolding read_frame
read_frame_test = refl

read_frame-bounded_example :
    AtMost plain (0 ∷ 0 ∷ 0 ∷ 1 ∷ 5 ∷ 6 ∷ []) (read_frame plain (0 ∷ 0 ∷ 0 ∷ 1 ∷ 5 ∷ 6 ∷ []))
read_frame-bounded_example = read_frame-bounded plain (0 ∷ 0 ∷ 0 ∷ 1 ∷ 5 ∷ 6 ∷ [])
