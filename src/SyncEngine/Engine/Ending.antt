-- ===== src/SyncEngine/Engine/Ending.antt =====
-- How `run_sync` can end, and the folder's status that each ending leaves.
use owncloud_sync_client.Common.{
  ℕ, String, ◌≡◌, refl, sym, ◌∙◌, ◌≢◌, inl, inr, true, false, not, some, List, [], ◌∷◌, Result, ok,
  err, is_empty, Bool-cases,
}
use owncloud_sync_client.SyncEngine.Types.{LocalEntry, RemoteEntry, SyncError, SyncReport}
use owncloud_sync_client.SyncEngine.State.{FolderStatus, mark_complete}
use owncloud_sync_client.SyncEngine.Host.{Host, Net}
use owncloud_sync_client.SyncEngine.Engine.Context.{
  Planned, Job, EngineConfig, Discovery, EngineState,
}
use owncloud_sync_client.SyncEngine.Engine.Plan.{dirs_of}
use owncloud_sync_client.SyncEngine.Engine.Dirs.{Progress}
use owncloud_sync_client.SyncEngine.Engine.Run.{
  Found, begin, finish, discover, propagate, run_sync, transfer_files, make_report, after_token,
  after_local, after_remote, after_discover, after_dirs, after_spawn,
}
use owncloud_sync_client.SyncEngine.Engine.Status.{
  SameStatus, Extends, process_dirs-Extends, run_tasks-Extends,
}

module _ (H : Host) where
  -- How a sync ends: with an error, and the folder is still shown as syncing; with a report that
  -- lists errors, and the folder shows an error and keeps its time of the last sync; or with a
  -- report without errors, and the folder is idle and was last synced at the present time.
  pub data Ended (before : EngineState H)
      : Result SyncReport SyncError × EngineState H → Type 0 where
    aborted :
        (e : SyncError) (st : EngineState H)
        → st.state.status ≡ FolderStatus.syncing
        → st.state.last_sync ≡ before.state.last_sync
        → Ended before (err e, st)
    with_errors :
        (r : SyncReport) (st : EngineState H)
        → r.errors ≢ []
        → st.state.status ≡ FolderStatus.error
        → st.state.last_sync ≡ before.state.last_sync
        → Ended before (ok r, st)
    completed :
        (r : SyncReport) (st : EngineState H)
        → r.errors ≡ []
        → st.state.status ≡ FolderStatus.idle
        → st.state.last_sync ≡ some (H.now st.world)
        → Ended before (ok r, st)

  -- A point of the run: the folder shows as syncing, and the flag says whether there are messages.
  record Running (before : EngineState H) (p : Progress H) : Type 0 where
    same : SameStatus (begin H before).state p.engine.state
    flagged : p.had_error ≡ not (is_empty p.error_messages)

  Running-Extends :
      {before : EngineState H} {p q : Progress H}
      → Running before p
      → Extends H p q
      → Running before q
  Running-Extends r e = record {
    same = record {
      status = r.same.status ∙ e.same.status;
      last_sync = r.same.last_sync ∙ e.same.last_sync;
    };
    flagged = e.flagged r.flagged;
  }

  empty_of_not : (xs : List String) → not (is_empty xs) ≡ false → xs ≡ []
  empty_of_not [] h = refl
  empty_of_not (x ∷ xs) h = absurd (cc h)

  ne_of_not : (xs : List String) → not (is_empty xs) ≡ true → xs ≢ []
  ne_of_not [] h = absurd (cc h)
  ne_of_not (x ∷ xs) h = λ e. cc e

  module _ (cfg : EngineConfig H) (D : Discovery H) (before : EngineState H) where
    finish-Ended :
        (r : SyncReport) (q : Progress H)
        → r.errors ≡ q.error_messages
        → Running before q
        → Ended before (ok r, finish H q)
    unfolding finish mark_complete
    finish-Ended r q listed running = elim (Bool-cases q.had_error) [
      | inl e ↦
          rw (e, finish)
            (Ended.with_errors r _
              (rw listed (ne_of_not q.error_messages (sym running.flagged ∙ e))) refl
              (sym running.same.last_sync))
      | inr e ↦
          rw (e, finish)
            (Ended.completed r _ (listed ∙ empty_of_not q.error_messages (sym running.flagged ∙ e))
              refl refl)
    ]

    aborted-Ended :
        (e : SyncError) (st : EngineState H)
        → SameStatus (begin H before).state st.state
        → Ended before (err e, st)
    aborted-Ended e st same = Ended.aborted e st (sym same.status) (sym same.last_sync)

    transfer_files-Ended :
        (found : Found H) (items : List Planned) (ignored t_start : ℕ) (jobs : List (Job H))
        (p : Progress H)
        → Running before p
        → Ended before (transfer_files H cfg D found items ignored t_start jobs p)
    unfolding transfer_files make_report
    transfer_files-Ended found items ignored t_start jobs p running = finish-Ended _ _ refl (
        Running-Extends running
          (run_tasks-Extends H cfg found.bearer_token (D.task_order jobs) found.events p))

    after_spawn-Ended :
        (found : Found H) (items : List Planned) (ignored t_start : ℕ) (p : Progress H)
        (jobs : Result (List (Job H)) SyncError)
        → Running before p
        → Ended before (after_spawn H cfg D found items ignored t_start p jobs)
    unfolding after_spawn
    after_spawn-Ended found items ignored t_start p (ok jobs) running =
        transfer_files-Ended found items ignored t_start jobs p running
    after_spawn-Ended found items ignored t_start p (err e) running =
        aborted-Ended e p.engine running.same

    after_dirs-Ended :
        (found : Found H) (items : List Planned) (ignored t_start : ℕ)
        (r : Result (Unit {0}) SyncError) (p : Progress H)
        → Running before p
        → Ended before (after_dirs H cfg D found items ignored t_start (r, p))
    unfolding after_dirs
    after_dirs-Ended found items ignored t_start (ok u) p running =
        after_spawn-Ended found items ignored t_start p _ running
    after_dirs-Ended found items ignored t_start (err e) p running =
        aborted-Ended e p.engine running.same

    propagate-Ended :
        (found : Found H) (items : List Planned) (ignored t_start : ℕ) (st : EngineState H)
        → SameStatus (begin H before).state st.state
        → Ended before (propagate H cfg D found items ignored t_start st)
    unfolding propagate
    propagate-Ended found items ignored t_start st same =
        let start : Progress H = record { had_error = false; error_messages = []; engine = st } in
        after_dirs-Ended found items ignored t_start _ _ (
          Running-Extends {p = start} (record { same = same; flagged = refl })
            (process_dirs-Extends H cfg found.bearer_token (dirs_of items) start))

    -- Phase 1 leaves the folder's state alone.
    after_remote-same :
        (token : String) (locals : List LocalEntry) (st : EngineState H)
        (r : Result (List RemoteEntry) SyncError) (n : Net H)
        → (after_remote H cfg D token locals st (r, n)).1.state ≡ st.state
    unfolding after_remote
    after_remote-same token locals st (ok remotes) n = refl
    after_remote-same token locals st (err e) n = refl

    after_local-same :
        (token : String) (st : EngineState H) (r : Result (List LocalEntry) SyncError) (w : H.World)
        → (after_local H cfg D token st (r, w)).1.state ≡ st.state
    unfolding after_local
    after_local-same token st (ok locals) w = after_remote-same token locals st _ _
    after_local-same token st (err e) w = refl

    after_token-same :
        (st : EngineState H) (r : Result String String) (w : H.World)
        → (after_token H cfg D st (r, w)).1.state ≡ st.state
    unfolding after_token
    after_token-same st (ok token) w = after_local-same token (record st { world = w }) _ _
    after_token-same st (err e) w = refl

    after_discover-Ended :
        (t_start : ℕ) (r : Result (Found H) SyncError) (st : EngineState H)
        → st.state ≡ (begin H before).state
        → Ended before (after_discover H cfg D t_start (r, st))
    unfolding after_discover
    after_discover-Ended t_start (err e) st same =
        aborted-Ended e st (rw same (record { status = refl; last_sync = refl }))
    after_discover-Ended t_start (ok found) st same =
        propagate-Ended found _ _ t_start _ (rw same (record { status = refl; last_sync = refl }))

    -- Every sync, whatever the server, the file system and SQLite answer, ends in one of the three
    -- ways that `Ended` lists: the report's errors decide between an error and an idle folder, and a
    -- sync that returns an error leaves the folder shown as syncing.
    pub run_sync-Ended : Ended before (run_sync H cfg D before)
    unfolding run_sync discover
    run_sync-Ended = after_discover-Ended _ _ _ (after_token-same (begin H before) _ _)
