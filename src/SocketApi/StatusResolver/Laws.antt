-- ===== src/SocketApi/StatusResolver/Laws.antt =====
-- crates/socket-api/src/status_resolver.rs: the status of a folder and of the files below it.
use owncloud_sync_client.Common.{
  ◌≤◌, ◌≡◌, ◌⊎◌, refl, sym, ◌∙◌, true, some, [], ◌∷◌, All, Any, ltb, inl, inr, arith, Bool-cases,
  number_eq, string_eq, if◌then◌else◌,
}
use owncloud_sync_client.Common.Dict.{Dict}
use owncloud_sync_client.SyncEngine.Types.{FilePath}
use owncloud_sync_client.SyncEngine.State.{FileStatus, SyncState}
use owncloud_sync_client.SocketApi.StatusResolver.{
  StatusTag, ok_tag, priority, worse_status, tag_of, Paths, StatusResolver, state_for_path,
  worst_below, resolve_folder,
}

worse_status-left : (a b : StatusTag) → priority a ≤ priority (worse_status a b)
unfolding worse_status
worse_status-left a b = ground arith

worse_status-right : (a b : StatusTag) → priority b ≤ priority (worse_status a b)
unfolding worse_status
worse_status-right a b = ground arith

worse_status-cases : (a b : StatusTag) → (worse_status a b ≡ a) ⊎ (worse_status a b ≡ b)
unfolding worse_status
worse_status-cases a b = elim (Bool-cases (ltb (priority a) (priority b))) [
  | inl e ↦ inr (rw e refl)
  | inr e ↦ inl (rw e refl)
]

module _ (P : Paths) (prefix : FilePath) where
  -- An entry below the folder, whose tag is at most as bad as `tag`.
  abbrev pub AtMost : StatusTag → FilePath × FileStatus → Type 0
  AtMost tag entry = P.starts_with entry.0 prefix ≡ true → priority (tag_of entry.1) ≤ priority tag

  abbrev pub Has : StatusTag → FilePath × FileStatus → Type 0
  Has tag entry = (P.starts_with entry.0 prefix ≡ true) × (tag_of entry.1 ≡ tag)

  abbrev next : StatusTag → FilePath → FileStatus → StatusTag
  next worst path status =
      if P.starts_with path prefix then worse_status worst (tag_of status) else worst

  next-above :
      (worst : StatusTag) (path : FilePath) (status : FileStatus)
      → priority worst ≤ priority (next worst path status)
  next-above worst path status = elim (Bool-cases (P.starts_with path prefix)) [
    | inl e ↦ rw e (worse_status-left worst (tag_of status))
    | inr e ↦ rw e (omega arith)
  ]

  worst_below-above :
      (worst : StatusTag) (statuses : Dict FilePath FileStatus)
      → priority worst ≤ priority (worst_below P prefix worst statuses)
  unfolding worst_below
  worst_below-above worst [] = omega arith
  worst_below-above worst ((path, status) ∷ rest) =
      omega (arith, next-above worst path status, worst_below-above (next worst path status) rest)

  worst_below-AtMost :
      (worst : StatusTag) (statuses : Dict FilePath FileStatus)
      → All (AtMost (worst_below P prefix worst statuses)) statuses
  unfolding worst_below
  worst_below-AtMost worst [] = tt
  worst_below-AtMost worst ((path, status) ∷ rest) = (
    (λ below.
        let here : priority (tag_of status) ≤ priority (next worst path status) =
          rw below (worse_status-right worst (tag_of status)) in
        omega (arith, here, worst_below-above (next worst path status) rest)),
    worst_below-AtMost (next worst path status) rest,
  )

  worst_below-Has :
      (worst : StatusTag) (statuses : Dict FilePath FileStatus)
      → (worst_below P prefix worst statuses ≡ worst)
        ⊎ Any (Has (worst_below P prefix worst statuses)) statuses
  unfolding worst_below
  worst_below-Has worst [] = inl refl
  worst_below-Has worst ((path, status) ∷ rest) =
      elim (worst_below-Has (next worst path status) rest) [
        | inr found ↦ inr (inr found)
        | inl e ↦ elim (Bool-cases (P.starts_with path prefix)) [
          | inr above ↦ inl (e ∙ rw above refl)
          | inl below ↦ elim (worse_status-cases worst (tag_of status)) [
            | inl same ↦ inl (e ∙ rw (below, same) refl)
            | inr taken ↦ inr (inl (below, sym (e ∙ rw (below, taken) refl)))
          ]
        ]
      ]

-- What the resolver says of a folder: no file below it has a worse status, and some file below it
-- has this one, unless it is "OK".
pub record IsWorst (P : Paths) (prefix : FilePath) (tag : StatusTag)
    (statuses : Dict FilePath FileStatus) : Type 0 where
  pub bound : All (AtMost P prefix tag) statuses
  pub attained : (tag ≡ ok_tag) ⊎ Any (Has P prefix tag) statuses

-- For a path in a synced folder whose state is known, in whatever order the map of statuses is read,
-- `resolve_folder` gives the worst status of the files below the path, and "OK" if there is none.
pub resolve_folder-IsWorst :
    (P : Paths) (s : StatusResolver) (path : FilePath) (state : SyncState)
    → state_for_path P s path ≡ some state
    → IsWorst P path (resolve_folder P s path) state.file_statuses
unfolding resolve_folder
resolve_folder-IsWorst P s path state found =
    rw (found, resolve_folder)
      (record {
        bound = worst_below-AtMost P path ok_tag state.file_statuses;
        attained = worst_below-Has P path ok_tag state.file_statuses;
      })
