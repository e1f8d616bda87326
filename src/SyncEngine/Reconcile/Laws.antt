-- ===== src/SyncEngine/Reconcile/Laws.antt =====
-- crates/sync-engine/src/reconcile.rs: where the strategy matters.
use owncloud_sync_client.Common.{◌≢◌, Option, none, some, string_eq, number_eq}
use owncloud_sync_client.SyncEngine.Types.{
  LocalEntry, RemoteEntry, SyncInstruction, ConflictStrategy,
}
use owncloud_sync_client.SyncEngine.Reconcile.{JournalBaseline, reconcile}

-- One path as the two sides and the journal hold it.
pub record PathState : Type 0 where
  pub loc : Option LocalEntry
  pub rem : Option RemoteEntry
  pub journal : Option JournalBaseline

abbrev pub decide : PathState → ConflictStrategy → SyncInstruction
decide s strategy = reconcile s.loc s.rem s.journal strategy

-- A side that differs from the journal's baseline, or that exists without one.
abbrev pub LocalChanged : PathState → Type 0
LocalChanged s = elim s.loc [
  | none ↦ ⊥
  | some loc ↦ elim s.journal [ none ↦ Unit | some (etag, size) ↦ loc.size ≢ size ]
]

abbrev pub RemoteChanged : PathState → Type 0
RemoteChanged s = elim s.rem [
  | none ↦ ⊥
  | some rem ↦ elim s.journal [ none ↦ Unit | some (etag, size) ↦ rem.etag ≢ etag ]
]
