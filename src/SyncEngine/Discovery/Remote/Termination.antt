-- ===== src/SyncEngine/Discovery/Remote/Termination.antt =====
-- crates/sync-engine/src/discovery/remote.rs, `discover_remote`: how many rounds its loop takes.
use owncloud_sync_client.Common.{
  contains-append_last, ℕ, zero, suc, String, ◌≡◌, ◌+◌, ◌≤◌, ◌<◌, refl, ◌∙◌, true, false, Option,
  none, some, List, [], ◌∷◌, ◌++◌, Result, ok, err, contains, Bool-cases, inl, inr, string_eq,
  arith, length, ◌!=◌, number_eq, if◌then◌else◌, not, count, All, length-append,
}
use owncloud_sync_client.SyncEngine.Types.{RemoteEntry, HttpEvent, SyncError}
use owncloud_sync_client.SyncEngine.Host.{Host, send_result, Bytes, Response, Net, ◌>>=◌}
use owncloud_sync_client.SyncEngine.Discovery.Propfind.{Xml, parse_propfind}
use owncloud_sync_client.SyncEngine.Propagate.Download.Contents.{Post, Post-bind}
use owncloud_sync_client.SyncEngine.Discovery.Remote.{
  Search, path_key, add_entry, add_entries, enqueue, enqueue_all, start, propfind_request, receive,
  reject, visit, take_answer, search, discover_remote,
}

-- How many of the known keys are not visited yet.
abbrev left : List String → List String → ℕ
left known visited = count (λ k. not (contains visited k)) known

left-append_last :
    (known visited : List String) (k : String) → left known (visited ++ k ∷ []) ≤ left known visited
left-append_last [] visited k = omega arith
left-append_last (j ∷ known) visited k =
    ground (arith, contains-append_last visited j k, left-append_last known visited k)

left-append_last_new :
    (known visited : List String) (k : String)
    → contains known k ≡ true
    → contains visited k ≡ false
    → left known (visited ++ k ∷ []) < left known visited
left-append_last_new [] visited k h new = absurd (ground arith)
left-append_last_new (j ∷ known) visited k h new = ground (
  arith,
  contains-append_last visited j k,
  left-append_last known visited k,
  left-append_last_new known visited k,
)

module _ (H : Host) (known : List String) where
  -- A bound on the rounds that a search still takes.
  abbrev rounds : Search H → ℕ
  rounds s = length s.queue + left known s.visited

  abbrev pub IsKnown : H.Url → Type 0
  IsKnown url = contains known (path_key H url) ≡ true

  enqueue-rounds : (url : H.Url) (s : Search H) → IsKnown url → rounds (enqueue H url s) ≤ rounds s
  unfolding enqueue
  enqueue-rounds url s h = elim (Bool-cases (contains s.visited (path_key H url))) [
    | inl e ↦ rw e (omega arith)
    | inr e ↦ rw e (
        omega (
          arith,
          length-append s.queue (url ∷ []),
          left-append_last_new known s.visited (path_key H url) h e,
        ))
  ]

  enqueue_all-rounds :
      (urls : List H.Url) (s : Search H)
      → All IsKnown urls
      → rounds (enqueue_all H urls s) ≤ rounds s
  unfolding enqueue_all
  enqueue_all-rounds [] s h = omega arith
  enqueue_all-rounds (url ∷ urls) s h =
      omega (arith, enqueue_all-rounds urls (enqueue H url s) h.1, enqueue-rounds url s h.0)

  add_entries-rounds :
      (es : List RemoteEntry) (s : Search H) → rounds (add_entries H es s) ≡ rounds s
  unfolding add_entries add_entry
  add_entries-rounds [] s = refl
  add_entries-rounds (e ∷ es) s =
      add_entries-rounds es (add_entry H e s)
      ∙ (elim (Bool-cases (contains s.seen e.path)) [ inl h ↦ rw h refl | inr h ↦ rw h refl ])

module _ (H : Host) (X : Xml) (space_root : H.Url) (bearer_token : String)
    (known : List String) where
  abbrev NamesKnown : H.Url → Response → Type 0
  NamesKnown url resp =
      (bytes : Bytes) (files : List RemoteEntry) (dirs : List H.Url)
      → resp.body ≡ ok bytes
      → parse_propfind H X space_root url (X.text_of bytes) ≡ ok (files, dirs)
      → All (IsKnown H known) dirs

  -- The collections that the server names are among the known ones, whatever happens in between.
  abbrev pub ServesKnown : Type 0
  ServesKnown =
      (url : H.Url) (w : H.World) (resp : Response)
      → (H.send (propfind_request H X space_root bearer_token url) w).0 ≡ ok resp
      → NamesKnown url resp

  abbrev KnownAnswer : List RemoteEntry × List H.Url → Net H → Type 0
  KnownAnswer answer n = All (IsKnown H known) answer.1

  abbrev KnownPost : Result (List RemoteEntry × List H.Url) SyncError × Net H → Type 0
  KnownPost = Post KnownAnswer (λ _. Unit)

  answered-Known :
      (o : Result (List RemoteEntry × List H.Url) SyncError) (n : Net H)
      → ((files : List RemoteEntry) (dirs : List H.Url)
          → o ≡ ok (files, dirs)
          → All (IsKnown H known) dirs)
      → KnownPost (o, n)
  answered-Known (ok (files, dirs)) n h = h files dirs refl
  answered-Known (err e) n h = tt

  received-Known :
      (url : H.Url) (t0 : ℕ) (status : ℕ) (status_text : String) (etag location : Option String)
      (body : Result Bytes String) (n : Net H)
      → let resp : Response = record {
        status = status;
        status_text = status_text;
        etag = etag;
        location = location;
        body = body;
      } in
        NamesKnown url resp → KnownPost (receive H X space_root bearer_token url t0 resp n)
  unfolding receive
  received-Known url t0 status status_text etag location (ok bytes) n h =
      answered-Known _ _ (λ files dirs. h bytes files dirs refl)
  received-Known url t0 status status_text etag location (err e) n h = tt

  replied-Known :
      (url : H.Url) (t0 : ℕ) (o : Result Response String × H.World) (events : List HttpEvent)
      → ((resp : Response) → o.0 ≡ ok resp → NamesKnown url resp)
      → (n : Net H)
      → KnownPost (
          ((λ _. send_result H events o) >>= λ resp.
          if resp.status != 207
          then reject H X space_root bearer_token url t0 resp
          else receive H X space_root bearer_token url t0 resp)
            n)
  unfolding reject
  replied-Known url t0 (ok resp, w) events h n = elim (Bool-cases (resp.status != 207)) [
    | inl e ↦ rw e tt
    | inr e ↦ rw e (
        received-Known url t0 resp.status resp.status_text resp.etag resp.location resp.body _
          (h resp refl))
  ]
  replied-Known url t0 (err e, w) events h n = tt

  visit-Known :
      ServesKnown → (url : H.Url) (n : Net H) → KnownPost (visit H X space_root bearer_token url n)
  unfolding visit
  visit-Known h url n =
      replied-Known url (H.millis n.world)
        (H.send (propfind_request H X space_root bearer_token url) n.world) n.events
        (λ resp sent. h url n.world resp sent) n

  abbrev pub Ended : Option (List RemoteEntry) → Net H → Type 0
  Ended none n = ⊥
  Ended (some es) n = Unit

  search-Ended :
      (fuel : ℕ) (found : List RemoteEntry) (queue : List H.Url) (visited seen : List String)
      (n : Net H)
      → ServesKnown
      → rounds H known (record { found = found; queue = queue; visited = visited; seen = seen })
        < fuel
      → Post Ended
          (λ _. Unit)
          (search H X space_root bearer_token fuel
            (record { found = found; queue = queue; visited = visited; seen = seen })
            n)
  unfolding search
  search-Ended zero found queue visited seen n h enough = omega arith
  search-Ended (suc fuel) found [] visited seen n h enough = tt
  search-Ended (suc fuel) found (url ∷ queue) visited seen n h enough =
      let s : Search H = record { found = found; queue = queue; visited = visited; seen = seen } in
      Post-bind KnownAnswer Ended (λ _. Unit) (visit H X space_root bearer_token url n) _
        (visit-Known h url n)
        (λ answer m named.
          let t = take_answer H X space_root bearer_token s answer in
          search-Ended fuel t.found t.queue t.visited t.seen m h (
            omega (
              arith,
              enqueue_all-rounds H known answer.1 (add_entries H answer.0 s) named,
              add_entries-rounds H known answer.0 s,
            )))
        n

  left-length : (ks visited : List String) → left ks visited ≤ length ks
  left-length [] visited = omega arith
  left-length (k ∷ ks) visited = ground (arith, left-length ks visited)

  -- Where all collections that the server names have their path in a list, two rounds more than the
  -- list has elements end the loop of `discover_remote`: it returns entries or an error.
  pub discover_remote-Ended :
      (fuel : ℕ) (n : Net H)
      → ServesKnown
      → length known + 2 ≤ fuel
      → Post Ended (λ _. Unit) (discover_remote H X space_root bearer_token fuel n)
  unfolding discover_remote start
  discover_remote-Ended fuel n h enough =
      search-Ended fuel [] (space_root ∷ []) (path_key H space_root ∷ []) [] n h
        (omega (arith, left-length known (path_key H space_root ∷ [])))
