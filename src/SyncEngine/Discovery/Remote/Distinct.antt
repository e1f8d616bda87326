-- ===== src/SyncEngine/Discovery/Remote/Distinct.antt =====
-- crates/sync-engine/src/discovery/remote.rs, `discover_remote`: the paths of the entries it returns.
use owncloud_sync_client.Common.{
  contains-append_last, String, ◌≡◌, refl, ap, false, List, [], ◌∷◌, ◌++◌, contains, string_eq, Eq,
  arith,
}
use owncloud_sync_client.SyncEngine.Types.{RemoteEntry}
use owncloud_sync_client.Common.{
  ℕ, zero, suc, Option, none, some, Result, ok, err, Bool-cases, inl, inr,
}
use owncloud_sync_client.SyncEngine.Types.{SyncError}
use owncloud_sync_client.SyncEngine.Host.{Host, Net}
use owncloud_sync_client.SyncEngine.Discovery.Propfind.{Xml}
use owncloud_sync_client.SyncEngine.Propagate.Download.Contents.{Post, Post-bind}
use owncloud_sync_client.SyncEngine.Discovery.Remote.{
  Search, path_key, add_entry, add_entries, enqueue, enqueue_all, start, visit, take_answer, search,
  discover_remote,
}

module _ {ℓ} {A : Type ℓ} ⦃e : Eq A⦄ where
  -- No element stands at two places.
  abbrev pub IsDistinct : List A → Type 0
  IsDistinct [] = Unit
  IsDistinct (x ∷ xs) = (contains xs x ≡ false) × IsDistinct xs

  pub IsDistinct-append_last :
      (xs : List A) (x : A) → contains xs x ≡ false → IsDistinct xs → IsDistinct (xs ++ x ∷ [])
  IsDistinct-append_last [] x h d = (refl, tt)
  IsDistinct-append_last (z ∷ xs) x h d =
      (ground (arith, contains-append_last xs z x), IsDistinct-append_last xs x (ground arith) d.1)

abbrev paths : List RemoteEntry → List String
paths [] = []
paths (e ∷ es) = e.path ∷ paths es

paths-append_last :
    (es : List RemoteEntry) (e : RemoteEntry) → paths (es ++ e ∷ []) ≡ paths es ++ e.path ∷ []
paths-append_last [] e = refl
paths-append_last (x ∷ es) e = ap (λ ps. x.path ∷ ps) (paths-append_last es e)

module _ (H : Host) where
  -- The set of seen paths is that of the entries found, each once.
  abbrev IsTracked : Search H → Type 0
  IsTracked s = (s.seen ≡ paths s.found) × IsDistinct (paths s.found)

  add_entry-IsTracked : (e : RemoteEntry) (s : Search H) → IsTracked s → IsTracked (add_entry H e s)
  unfolding add_entry
  add_entry-IsTracked e s (same, d) = elim (Bool-cases (contains s.seen e.path)) [
    | inl h ↦ rw h (same, d)
    | inr h ↦
        let h' : contains (paths s.found) e.path ≡ false = rw same at h in
        rw (h, paths-append_last, same) (refl, IsDistinct-append_last (paths s.found) e.path h' d)
  ]

  add_entries-IsTracked :
      (es : List RemoteEntry) (s : Search H) → IsTracked s → IsTracked (add_entries H es s)
  unfolding add_entries
  add_entries-IsTracked [] s h = h
  add_entries-IsTracked (e ∷ es) s h =
      add_entries-IsTracked es (add_entry H e s) (add_entry-IsTracked e s h)

  enqueue_all-IsTracked :
      (ds : List H.Url) (s : Search H) → IsTracked s → IsTracked (enqueue_all H ds s)
  unfolding enqueue_all enqueue
  enqueue_all-IsTracked [] s h = h
  enqueue_all-IsTracked (d ∷ ds) s h =
      enqueue_all-IsTracked ds (enqueue H d s)
        (elim (Bool-cases (contains s.visited (path_key H d))) [ inl e ↦ rw e h | inr e ↦ rw e h ])

module _ (H : Host) (X : Xml) (space_root : H.Url) (bearer_token : String) where
  abbrev pub DistinctResult : Option (List RemoteEntry) → Net H → Type 0
  DistinctResult none n = Unit
  DistinctResult (some es) n = IsDistinct (paths es)

  Post-any : {A : Type 0} (o : Result A SyncError × Net H) → Post (λ _ _. Unit) (λ _. Unit) o
  Post-any (ok a, n) = tt
  Post-any (err e, n) = tt

  search-Distinct :
      (fuel : ℕ) (found : List RemoteEntry) (queue : List H.Url) (visited seen : List String)
      (n : Net H)
      → let s : Search H = record {
        found = found;
        queue = queue;
        visited = visited;
        seen = seen;
      } in
        IsTracked H s
        → Post DistinctResult (λ _. Unit) (search H X space_root bearer_token fuel s n)
  unfolding search
  search-Distinct zero found queue visited seen n h = tt
  search-Distinct (suc fuel) found [] visited seen n h = h.1
  search-Distinct (suc fuel) found (url ∷ queue) visited seen n h =
      let s : Search H = record { found = found; queue = queue; visited = visited; seen = seen } in
      Post-bind (λ _ _. Unit) DistinctResult (λ _. Unit) (visit H X space_root bearer_token url n) _
        (Post-any (visit H X space_root bearer_token url n))
        (λ answer m _.
          let t = take_answer H X space_root bearer_token s answer in
          search-Distinct fuel t.found t.queue t.visited t.seen m (
            enqueue_all-IsTracked H answer.1 (add_entries H answer.0 s)
              (add_entries-IsTracked H answer.0 s h)))
        n

  -- Where `discover_remote` returns entries, no two of them have the same path.
  pub discover_remote-Distinct :
      (fuel : ℕ) (n : Net H)
      → Post DistinctResult (λ _. Unit) (discover_remote H X space_root bearer_token fuel n)
  unfolding discover_remote start
  discover_remote-Distinct fuel n =
      search-Distinct fuel [] (space_root ∷ []) (path_key H space_root ∷ []) [] n (refl, tt)
