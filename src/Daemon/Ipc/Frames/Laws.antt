-- ===== src/Daemon/Ipc/Frames/Laws.antt =====
-- crates/daemon/src/gui_ipc/protocol.rs: what a reader gets from what a writer sent, and the limit.
use owncloud_sync_client.Common.{
  ℕ, zero, suc, ◌≡◌, refl, sym, ap, ◌+◌, ◌/◌, ◌%◌, ◌^◌, ◌≤◌, ◌<◌, false, Option, none, some, List,
  [], ◌∷◌, ◌++◌, Result, ok, err, ltb, length, arith, Option-cases, All, length-append, Bool-cases,
  inl, inr, lt→ltb,
}
use mathlib.Core.List.{append_assoc}
use owncloud_sync_client.Daemon.Ipc.Frames.{
  Bytes, Json, FrameError, too_large, to_be_bytes, from_be_bytes, read_exact, max_len, write_frame,
  read_frame,
}

from_be_bytes-to_be_bytes :
    (n : ℕ)
    → from_be_bytes (n / 2 ^ 24 % 256) (n / 2 ^ 16 % 256) (n / 2 ^ 8 % 256) (n % 256) ≡ n % 2 ^ 32
from_be_bytes-to_be_bytes n = omega arith

read_exact-append : (xs rest : Bytes) → read_exact (length xs) (xs ++ rest) ≡ some (xs, rest)
unfolding read_exact
read_exact-append [] rest = refl
read_exact-append (x ∷ xs) rest = rw (read_exact-append xs rest) refl

abbrev taken_of : Option (Bytes × Bytes) → Bytes
taken_of none = []
taken_of (some (taken, rest)) = taken

abbrev rest_of : Option (Bytes × Bytes) → Bytes
rest_of none = []
rest_of (some (taken, rest)) = rest

-- The bytes taken and those left are the stream.
read_exact-split :
    (n : ℕ) (s taken rest : Bytes)
    → read_exact n s ≡ some (taken, rest)
    → (s ≡ taken ++ rest) × (length taken ≡ n)
unfolding read_exact
read_exact-split zero s taken rest h = rw (sym (ap taken_of h), sym (ap rest_of h)) (refl, refl)
read_exact-split (suc n) [] taken rest h = absurd (cc h)
read_exact-split (suc n) (b ∷ s) taken rest h = elim (Option-cases (read_exact n s)) [
  | inl e ↦
      absurd
        (let h' : ◌≡◌ {A = Option (Bytes × Bytes)} none (some (taken, rest)) = rw e at h in cc h')
  | inr ((t, r), e) ↦
      let h' : some (b ∷ t, r) ≡ some (taken, rest) = rw e at h in
      let parts = read_exact-split n s t r e in
      rw (sym (ap taken_of h'), sym (ap rest_of h')) (ap (λ xs. b ∷ xs) parts.0, ap suc parts.1)
]

module _ {M : Type 0} (J : Json M) where
  -- serde_json reads back what it wrote.
  abbrev pub IsFaithful : Type 0
  IsFaithful = (m : M) → J.from_slice (J.to_vec m) ≡ some m

  -- A message of at most 4 MiB, written to a stream, is read from it again, and what follows it is left.
  pub read_frame-write_frame :
      (m : M) (rest : Bytes)
      → IsFaithful
      → length (J.to_vec m) ≤ max_len
      → read_frame J (write_frame J m ++ rest) ≡ ok (m, rest)
  unfolding read_frame write_frame to_be_bytes
  read_frame-write_frame m rest faithful small =
      let n = length (J.to_vec m) in
      let same : from_be_bytes (n / 2 ^ 24 % 256) (n / 2 ^ 16 % 256) (n / 2 ^ 8 % 256) (n % 256)
          ≡ n =
        omega (arith, from_be_bytes-to_be_bytes n) in
      let fits : ltb max_len n ≡ false = ground arith in
      rw (same, fits, read_exact-append (J.to_vec m) rest, faithful m) refl

  -- A message of more than 4 MiB is written all the same, and refused by its reader; from 4 GiB on the
  -- reader takes the length for its remainder modulo 2 ^ 32.
  pub read_frame-large :
      (m : M) (rest : Bytes)
      → max_len < length (J.to_vec m) % 2 ^ 32
      → read_frame J (write_frame J m ++ rest) ≡ err (too_large (length (J.to_vec m) % 2 ^ 32))
  unfolding read_frame write_frame to_be_bytes
  read_frame-large m rest large =
      let n = length (J.to_vec m) in
      rw (from_be_bytes-to_be_bytes n, lt→ltb max_len (n % 2 ^ 32) large) refl

  -- One after the other, the messages on a stream are those that were written to it.
  abbrev pub write_all : List M → Bytes
  write_all [] = []
  write_all (m ∷ ms) = write_frame J m ++ write_all ms

  abbrev and_then :
      Result (M × Bytes) FrameError
      → (Bytes → Result (List M × Bytes) FrameError)
      → Result (List M × Bytes) FrameError
  and_then (err e) f = err e
  and_then (ok (m, rest)) f = elim (f rest) [ err e ↦ err e | ok (ms, left) ↦ ok (m ∷ ms, left) ]

  abbrev pub read_many : ℕ → Bytes → Result (List M × Bytes) FrameError
  read_many zero s = ok ([], s)
  read_many (suc n) s = and_then (read_frame J s) (read_many n)

  pub read_many-write_all :
      (ms : List M) (rest : Bytes)
      → IsFaithful
      → All (λ m. length (J.to_vec m) ≤ max_len) ms
      → read_many (length ms) (write_all ms ++ rest) ≡ ok (ms, rest)
  read_many-write_all [] rest faithful small = refl
  read_many-write_all (m ∷ ms) rest faithful (first, more) =
      rw
        (
          append_assoc (write_frame J m) (write_all ms) rest,
          read_frame-write_frame m (write_all ms ++ rest) faithful first,
          read_many-write_all ms rest faithful more,
        )
        refl

  abbrev pub AtMost : Bytes → Result (M × Bytes) FrameError → Type 0
  AtMost s (err e) = Unit
  AtMost s (ok (m, rest)) =
      (json : Bytes) × (length json ≤ max_len)
      × (J.from_slice json ≡ some m)
      × (length s ≡ 4 + length json + length rest)

  -- A message that is read comes from at most 4 MiB of JSON, and reading it takes that JSON and the
  -- four bytes before it from the stream, no more.
  pub read_frame-bounded : (s : Bytes) → AtMost s (read_frame J s)
  unfolding read_frame
  read_frame-bounded [] = tt
  read_frame-bounded (a ∷ []) = tt
  read_frame-bounded (a ∷ b ∷ []) = tt
  read_frame-bounded (a ∷ b ∷ c ∷ []) = tt
  read_frame-bounded (a ∷ b ∷ c ∷ d ∷ s) = elim (Bool-cases (ltb max_len (from_be_bytes a b c d))) [
    | inl e ↦ rw e tt
    | inr e ↦ rw e (elim (Option-cases (read_exact (from_be_bytes a b c d) s)) [
      | inl none_left ↦ rw none_left tt
      | inr ((json, rest), e2) ↦
          let parts = read_exact-split (from_be_bytes a b c d) s json rest e2 in
          rw e2 (elim (Option-cases (J.from_slice json)) [
            | inl e3 ↦ rw e3 tt
            | inr (m, e3) ↦
                rw e3 (
                  json,
                  ground arith,
                  e3,
                  omega (arith, length-append json rest, ap length parts.0),
                )
          ])
    ])
  ]
