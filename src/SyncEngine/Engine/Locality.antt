-- ===== src/SyncEngine/Engine/Locality.antt =====
-- crates/sync-engine/src/engine.rs: a path that discovery does not find, through a whole sync.
use owncloud_sync_client.Common.{
  ℕ, String, ◌≡◌, refl, sym, subst, ◌≢◌, Bool, false, List, [], ◌∷◌, Result, ok, err, All, keep,
  Bool-cases, inl, inr,
}
use owncloud_sync_client.Common.Dict.{Dict}
use owncloud_sync_client.SyncDb.Db.{SyncJournalDb}
use owncloud_sync_client.SyncEngine.Types.{
  FilePath, LocalEntry, RemoteEntry, ConflictStrategy, SyncError,
}
use owncloud_sync_client.SyncEngine.State.{mark_complete}
use owncloud_sync_client.SyncEngine.Host.{Host, Net}
use owncloud_sync_client.SyncEngine.Engine.Context.{
  Planned, Job, EngineConfig, Discovery, EngineState,
}
use owncloud_sync_client.SyncEngine.Engine.Plan.{
  dirs_of, files_of, is_ignore, add_item, plan_path, plan_paths,
}
use owncloud_sync_client.SyncEngine.Engine.Dirs.{Progress, process_dirs}
use owncloud_sync_client.SyncEngine.Engine.Files.{spawn, add_job, run_tasks}
use owncloud_sync_client.SyncEngine.Engine.Run.{
  Found, begin, finish, discover, local_map, remote_map, all_paths, reconcile_all, propagate,
  run_sync, transfer_files, after_token, after_local, after_remote, after_discover, after_dirs,
  after_spawn,
}
use owncloud_sync_client.SyncEngine.Engine.Frame.{
  Untouched, Untouched-refl, Untouched-trans, process_dirs-Untouched, run_tasks-Untouched,
}

All-keep {ℓ κ} :
    {A : Type ℓ} (P : A → Type κ) (test : A → Bool) (xs : List A) → All P xs → All P (keep test xs)
All-keep P test [] h = tt
All-keep P test (x ∷ xs) h = elim (Bool-cases (test x)) [
  | inl e ↦ rw e (h.0, All-keep P test xs h.1)
  | inr e ↦ rw e (All-keep P test xs h.1)
]

module _ (H : Host) (q : FilePath) where
  add_item-Elsewhere :
      {W : Type 0} (item : Planned) (items : List Planned) (ignored : ℕ) (w : W)
      → q ≢ item.path
      → All (λ (x : Planned). q ≢ x.path) items
      → All (λ (x : Planned). q ≢ x.path) (add_item item (items, ignored, w)).0
  unfolding add_item
  add_item-Elsewhere item items ignored w ne h = elim (Bool-cases (is_ignore item.instruction)) [
    | inl e ↦ rw e h
    | inr e ↦ rw e (ne, h)
  ]

  module _ (strategy : ConflictStrategy) (db : SyncJournalDb) (locals : Dict FilePath LocalEntry)
      (remotes : Dict FilePath RemoteEntry) where
    plan_paths-Elsewhere :
        (paths : List FilePath) (w : H.World)
        → All (λ (p : FilePath). q ≢ p) paths
        → All (λ (x : Planned). q ≢ x.path) (plan_paths H strategy db locals remotes paths w).0
    unfolding plan_paths plan_path
    plan_paths-Elsewhere [] w h = tt
    plan_paths-Elsewhere (path ∷ paths) w h =
        let rest = plan_paths H strategy db locals remotes paths (H.statement w).1 in
        add_item-Elsewhere (plan_path H strategy db locals remotes (H.statement w).0 path) rest.0
          rest.1 rest.2 h.0 (plan_paths-Elsewhere paths (H.statement w).1 h.1)

  module _ (cfg : EngineConfig H) (D : Discovery H) where
    AllJobs : Result (List (Job H)) SyncError → Type 0
    AllJobs (ok jobs) = All (λ (job : Job H). q ≢ job.item.path) jobs
    AllJobs (err e) = Unit

    add_job-AllJobs :
        (token : String) (item : Planned) (u : Result H.Url String)
        (rest : Result (List (Job H)) SyncError)
        → q ≢ item.path
        → AllJobs rest
        → AllJobs (add_job H cfg token item u rest)
    unfolding AllJobs
    add_job-AllJobs token item (err e) rest ne h = tt
    add_job-AllJobs token item (ok url) (err e) ne h = tt
    add_job-AllJobs token item (ok url) (ok jobs) ne h = (ne, h)

    spawn-AllJobs :
        (token : String) (items : List Planned)
        → All (λ (x : Planned). q ≢ x.path) items
        → AllJobs (spawn H cfg token items)
    unfolding spawn
    spawn-AllJobs token [] h = unfold AllJobs in tt
    spawn-AllJobs token (item ∷ items) h =
        add_job-AllJobs token item _ _ h.0 (spawn-AllJobs token items h.1)

    module _
        (reorders : (jobs : List (Job H))
          → All (λ (job : Job H). q ≢ job.item.path) jobs
          → All (λ (job : Job H). q ≢ job.item.path) (D.task_order jobs))
        (found : Found H) (items : List Planned) (ignored t_start : ℕ)
        (elsewhere : All (λ (x : Planned). q ≢ x.path) items) where
      finish-Untouched : (p : Progress H) → Untouched H q p.engine (finish H p)
      unfolding finish mark_complete
      finish-Untouched p = elim (Bool-cases p.had_error) [
        | inl e ↦ rw (e, finish) (record { row = refl; status = refl })
        | inr e ↦ rw (e, finish) (record { row = refl; status = refl })
      ]

      after_spawn-Untouched :
          (p : Progress H) (jobs : Result (List (Job H)) SyncError)
          → AllJobs jobs
          → Untouched H q p.engine (after_spawn H cfg D found items ignored t_start p jobs).1
      unfolding after_spawn transfer_files AllJobs
      after_spawn-Untouched p (ok jobs) h =
          Untouched-trans H q
            (run_tasks-Untouched H q cfg found.bearer_token (D.task_order jobs) found.events p
              (reorders jobs h))
            (finish-Untouched
              (run_tasks H cfg found.bearer_token (D.task_order jobs) found.events p).1)
      after_spawn-Untouched p (err e) h = Untouched-refl H q p.engine

      after_dirs-Untouched :
          (r : Result (Unit {0}) SyncError) (p : Progress H)
          → Untouched H q p.engine (after_dirs H cfg D found items ignored t_start (r, p)).1
      unfolding after_dirs
      after_dirs-Untouched (ok u) p =
          after_spawn-Untouched p _
            (spawn-AllJobs found.bearer_token (files_of items) (All-keep _ _ items elsewhere))
      after_dirs-Untouched (err e) p = Untouched-refl H q p.engine

      propagate-Untouched :
          (st : EngineState H)
          → Untouched H q st (propagate H cfg D found items ignored t_start st).1
      unfolding propagate
      propagate-Untouched st =
          let start : Progress H = record { had_error = false; error_messages = []; engine = st } in
          let after = process_dirs H cfg found.bearer_token (dirs_of items) start in
          Untouched-trans H q
            (process_dirs-Untouched H q cfg found.bearer_token (dirs_of items) start
              (All-keep _ _ items elsewhere))
            (after_dirs-Untouched after.0 after.1)

    -- Phase 1 changes neither the journal nor the statuses of files.
    after_remote-Untouched :
        (token : String) (locals : List LocalEntry) (st : EngineState H)
        (r : Result (List RemoteEntry) SyncError) (n : Net H)
        → Untouched H q st (after_remote H cfg D token locals st (r, n)).1
    unfolding after_remote
    after_remote-Untouched token locals st (ok remotes) n = record { row = refl; status = refl }
    after_remote-Untouched token locals st (err e) n = record { row = refl; status = refl }

    after_local-Untouched :
        (token : String) (st : EngineState H) (r : Result (List LocalEntry) SyncError) (w : H.World)
        → Untouched H q st (after_local H cfg D token st (r, w)).1
    unfolding after_local
    after_local-Untouched token st (ok locals) w = after_remote-Untouched token locals st _ _
    after_local-Untouched token st (err e) w = record { row = refl; status = refl }

    after_token-Untouched :
        (st : EngineState H) (r : Result String String) (w : H.World)
        → Untouched H q st (after_token H cfg D st (r, w)).1
    unfolding after_token
    after_token-Untouched st (ok token) w =
        let u =
          after_local-Untouched token (record st { world = w })
            (D.discover_local cfg.local_root w).0 (D.discover_local cfg.local_root w).1 in
        record { row = u.row; status = u.status }
    after_token-Untouched st (err e) w = record { row = refl; status = refl }

    after_discover-Untouched :
        (t_start : ℕ) (found : Found H) (st : EngineState H)
        → ((jobs : List (Job H))
            → All (λ (job : Job H). q ≢ job.item.path) jobs
            → All (λ (job : Job H). q ≢ job.item.path) (D.task_order jobs))
        → All (λ (p : FilePath). q ≢ p) (all_paths H cfg D found)
        → Untouched H q st (after_discover H cfg D t_start (ok found, st)).1
    unfolding after_discover reconcile_all
    after_discover-Untouched t_start found st reorders elsewhere =
        let planned = reconcile_all H cfg D found st in
        let st' : EngineState H = record st { world = planned.2 } in
        let u =
          propagate-Untouched reorders found planned.0 planned.1 t_start
            (plan_paths-Elsewhere cfg.conflict_strategy st.db (local_map H cfg D found.locals)
              (remote_map H cfg D found.remotes) (all_paths H cfg D found) st.world elsewhere)
            st' in
        record { row = u.row; status = u.status }

    discover-Untouched : (st : EngineState H) → Untouched H q st (discover H cfg D st).1
    unfolding discover
    discover-Untouched st =
        after_token-Untouched st (D.get_valid_token st.world).0 (D.get_valid_token st.world).1

    begin-Untouched :
        (st after : EngineState H) → Untouched H q (begin H st) after → Untouched H q st after
    begin-Untouched st after u = record { row = u.row; status = u.status }

    -- Where discovery succeeds and does not find the path `q`, a sync leaves the row of `q` in the
    -- journal and its status as they were, however the sync ends. The order in which the tasks run
    -- may be any that brings in no further task for `q`.
    pub run_sync-Untouched :
        (before st1 : EngineState H) (found : Found H)
        → ((jobs : List (Job H))
            → All (λ (job : Job H). q ≢ job.item.path) jobs
            → All (λ (job : Job H). q ≢ job.item.path) (D.task_order jobs))
        → discover H cfg D (begin H before) ≡ (ok found, st1)
        → All (λ (p : FilePath). q ≢ p) (all_paths H cfg D found)
        → Untouched H q before (run_sync H cfg D before).1
    unfolding run_sync
    run_sync-Untouched before st1 found reorders d elsewhere =
        let D0 = discover-Untouched (begin H before) in
        Untouched-trans H q
          (begin-Untouched before st1 (
            subst
              (λ (o : Result (Found H) SyncError × EngineState H).
                Untouched H q (begin H before) o.1)
              d D0))
          (subst
            (λ (o : Result (Found H) SyncError × EngineState H).
              Untouched H q st1 (after_discover H cfg D (H.millis before.world) o).1)
            (sym d) (after_discover-Untouched (H.millis before.world) found st1 reorders elsewhere))
