-- ===== src/SyncEngine/Engine/Counts.antt =====
-- crates/sync-engine/src/engine.rs: the counters of the report and the paths that were found.
use owncloud_sync_client.Common.{
  ℕ, ◌+◌, ◌≡◌, refl, sym, ◌∙◌, suc, ap, subst, Bool, true, false, Option, none, some, List, [], ◌∷◌,
  Result, ok, err, arith, length, count, Bool-cases, inl, inr,
}
use owncloud_sync_client.Common.Dict.{Dict}
use owncloud_sync_client.SyncDb.Db.{SyncJournalDb}
use owncloud_sync_client.SyncEngine.Types.{
  FilePath, LocalEntry, RemoteEntry, SyncInstruction, ConflictStrategy, SyncError, SyncReport,
}
use owncloud_sync_client.SyncEngine.Reconcile.{JournalBaseline, reconcile, reconcile_changes}
use owncloud_sync_client.SyncEngine.Host.{Host}
use owncloud_sync_client.SyncEngine.Engine.Context.{
  Planned, Job, EngineConfig, Discovery, EngineState,
}
use owncloud_sync_client.SyncEngine.Engine.Plan.{
  is_ignore, is_download, is_upload, is_conflict, is_delete_local, is_delete_remote, dirs_of,
  add_item, plan_path, plan_paths, tally,
}
use owncloud_sync_client.SyncEngine.Engine.Dirs.{Progress, process_dirs}
use owncloud_sync_client.SyncEngine.Engine.Run.{
  Found, begin, discover, local_map, remote_map, all_paths, reconcile_all, propagate, run_sync,
  transfer_files, make_report, after_discover, after_dirs, after_spawn,
}

abbrev weight : Bool → ℕ
weight true = 1
weight false = 0

count-cons {ℓ} :
    {A : Type ℓ} (p : A → Bool) (x : A) (xs : List A) → count p (x ∷ xs) ≡ weight (p x) + count p xs
count-cons p x xs = ground arith

-- What `reconcile` can decide: one of the five counted instructions, or `Ignore`.
abbrev weights : SyncInstruction → ℕ
weights i =
    weight (is_download i)
    + weight (is_upload i)
    + weight (is_conflict i)
    + weight (is_delete_local i)
    + weight (is_delete_remote i)
    + weight (is_ignore i)

weights-reconcile_changes :
    (l r : Bool) (strategy : ConflictStrategy) → weights (reconcile_changes l r strategy) ≡ 1
unfolding reconcile_changes
weights-reconcile_changes l r strategy = ground arith

weights-reconcile :
    (loc : Option LocalEntry) (rem : Option RemoteEntry) (journal : Option JournalBaseline)
    (strategy : ConflictStrategy)
    → weights (reconcile loc rem journal strategy) ≡ 1
unfolding reconcile
weights-reconcile none none journal strategy = refl
weights-reconcile none (some r) none strategy = refl
weights-reconcile none (some r) (some b) strategy = refl
weights-reconcile (some l) none none strategy = refl
weights-reconcile (some l) none (some b) strategy = refl
weights-reconcile (some l) (some r) none strategy = refl
weights-reconcile (some l) (some r) (some b) strategy = weights-reconcile_changes _ _ strategy

abbrev pub total : List Planned → ℕ
total items =
    tally is_download items
    + tally is_upload items
    + tally is_conflict items
    + tally is_delete_local items
    + tally is_delete_remote items

total-cons :
    (item : Planned) (items : List Planned)
    → total (item ∷ items) + weight (is_ignore item.instruction)
      ≡ weights item.instruction + total items
total-cons item items = omega (
  arith,
  count-cons (λ (x : Planned). is_download x.instruction) item items,
  count-cons (λ (x : Planned). is_upload x.instruction) item items,
  count-cons (λ (x : Planned). is_conflict x.instruction) item items,
  count-cons (λ (x : Planned). is_delete_local x.instruction) item items,
  count-cons (λ (x : Planned). is_delete_remote x.instruction) item items,
)

add_item-total :
    {W : Type 0} (item : Planned) (items : List Planned) (ignored : ℕ) (w : W)
    → weights item.instruction ≡ 1
    → total (add_item item (items, ignored, w)).0 + (add_item item (items, ignored, w)).1
      ≡ suc (total items + ignored)
unfolding add_item
add_item-total item items ignored w h = elim (Bool-cases (is_ignore item.instruction)) [
  | inl e ↦ rw e (omega arith)
  | inr e ↦ rw e (omega (arith, total-cons item items, ap weight e))
]

module _ (H : Host) (strategy : ConflictStrategy) (db : SyncJournalDb)
    (local_map : Dict FilePath LocalEntry) (remote_map : Dict FilePath RemoteEntry) where
  plan_paths-total :
      (paths : List FilePath) (w : H.World)
      → let (items, ignored, w') = plan_paths H strategy db local_map remote_map paths w in
        total items + ignored ≡ length paths
  unfolding plan_paths plan_path
  plan_paths-total [] w = refl
  plan_paths-total (path ∷ paths) w =
      let w1 = (H.statement w).1 in
      add_item-total (plan_path H strategy db local_map remote_map (H.statement w).0 path)
        (plan_paths H strategy db local_map remote_map paths w1).0
        (plan_paths H strategy db local_map remote_map paths w1).1
        (plan_paths H strategy db local_map remote_map paths w1).2
        (weights-reconcile _ _ _ strategy)
      ∙ ap suc (plan_paths-total paths w1)

-- The sum of the report's counters, the ignored paths included.
abbrev pub accounted : SyncReport → ℕ
accounted r = r.downloads + r.uploads + r.conflicts + r.deletes_local + r.deletes_remote + r.ignored

abbrev Accounts : ℕ → Result SyncReport SyncError → Type 0
Accounts n (ok r) = accounted r ≡ n
Accounts n (err e) = Unit

module _ (H : Host) (cfg : EngineConfig H) (D : Discovery H) where
  module _ (found : Found H) (items : List Planned) (ignored t_start : ℕ) where
    after_spawn-Accounts :
        (p : Progress H) (jobs : Result (List (Job H)) SyncError)
        → Accounts
            (total items + ignored)
            (after_spawn H cfg D found items ignored t_start p jobs).0
    unfolding after_spawn transfer_files make_report
    after_spawn-Accounts p (ok jobs) = refl
    after_spawn-Accounts p (err e) = tt

    after_dirs-Accounts :
        (r : Result (Unit {0}) SyncError) (p : Progress H)
        → Accounts (total items + ignored) (after_dirs H cfg D found items ignored t_start (r, p)).0
    unfolding after_dirs
    after_dirs-Accounts (ok u) p = after_spawn-Accounts p _
    after_dirs-Accounts (err e) p = tt

    propagate-Accounts :
        (st : EngineState H)
        → Accounts (total items + ignored) (propagate H cfg D found items ignored t_start st).0
    unfolding propagate
    propagate-Accounts st =
        let start : Progress H = record { had_error = false; error_messages = []; engine = st } in
        let after = process_dirs H cfg found.bearer_token (dirs_of items) start in
        after_dirs-Accounts after.0 after.1

  after_discover-Accounts :
      (t_start : ℕ) (found : Found H) (st : EngineState H)
      → Accounts
          (length (all_paths H cfg D found))
          (after_discover H cfg D t_start (ok found, st)).0
  unfolding after_discover reconcile_all
  after_discover-Accounts t_start found st =
      let planned = reconcile_all H cfg D found st in
      let st' : EngineState H = record st { world = planned.2 } in
      subst (λ (n : ℕ). Accounts n (propagate H cfg D found planned.0 planned.1 t_start st').0)
        (plan_paths-total H cfg.conflict_strategy st.db (local_map H cfg D found.locals)
          (remote_map H cfg D found.remotes) (all_paths H cfg D found) st.world)
        (propagate-Accounts found planned.0 planned.1 t_start st')

  -- If discovery succeeds and the sync gives a report, the downloads, uploads, conflicts, deletions
  -- and ignored paths of the report add up to the number of paths that discovery found.
  pub run_sync-accounted :
      (before st st1 : EngineState H) (found : Found H) (r : SyncReport)
      → discover H cfg D (begin H before) ≡ (ok found, st1)
      → run_sync H cfg D before ≡ (ok r, st)
      → accounted r ≡ length (all_paths H cfg D found)
  unfolding run_sync
  run_sync-accounted before st st1 found r d run =
      subst
        (λ (o : Result SyncReport SyncError × EngineState H).
          Accounts (length (all_paths H cfg D found)) o.0)
        (sym (ap (after_discover H cfg D (H.millis before.world)) d) ∙ run)
        (after_discover-Accounts (H.millis before.world) found st1)
