-- ===== src/Daemon/SpacePoller/Announced.antt =====
-- crates/daemon/src/space_poller.rs: how often a space is announced.
use owncloud_sync_client.Common.{
  suc, subst, ◌<>◌, ℕ, ◌+◌, ◌≤◌, String, ◌≡◌, refl, Bool, true, false, not, ◌&&◌, Option, none,
  some, List, [], ◌∷◌, ◌++◌, map, count, contains, ◌==◌, string_eq, number_eq, if◌then◌else◌, arith,
  count-append, contains-append_last, contains-keep, Bool-cases, inl, inr,
}
use mathlib.Core.Bool.{cond}
use owncloud_sync_client.SyncEngine.Types.{Uuid}
use owncloud_sync_client.Daemon.Ipc.{DaemonEvent}
use owncloud_sync_client.Daemon.Config.{FolderConfig, AccountConfig, AppConfig, find_account}
use owncloud_sync_client.Daemon.SpacePoller.{
  Space, Poller, Paths, space_ids, announce_one, announce, forget, remove_folders, removed_event,
  missing_ids, suggested_root, on_listing, on_account, removed_of, poll_once,
}

abbrev pub is_discovery : String → DaemonEvent → Bool
is_discovery x (DaemonEvent.space_discovered account space name path) = space == x
is_discovery x event = false

abbrev pub announcements : String → Poller → ℕ
announcements x p = count (is_discovery x) p.broadcast

-- The announcements so far, with one more where the space is not noted as announced.
abbrev allowance : String → Poller → ℕ
allowance x p = announcements x p + (if contains p.emitted_discoveries x then 0 else 1)

counted : (b : Bool) → (if b then 1 else 0) ≡ cond b (suc 0) 0
counted true = refl
counted false = refl

noted-allowance :
    (x y : String) (n : ℕ) (noted : List String)
    → contains noted y ≡ false
    → (n + (if y == x then 1 else 0)) + (if contains (noted ++ y ∷ []) x then 0 else 1)
      ≤ n + (if contains noted x then 0 else 1)
noted-allowance x y n noted h = ground (arith, contains-append_last noted x y)

module _ (P : Paths) (x : String) where
  announce_one-allowance :
      (local dismissed : List String) (root : String) (s : Space) (p : Poller)
      → allowance x (announce_one P local dismissed root s p) ≤ allowance x p
  unfolding announce_one
  announce_one-allowance local dismissed root s p =
      let noted = p.emitted_discoveries in
      let event = DaemonEvent.space_discovered p.account_id s.id s.name (root <> ("/" <> s.name)) in
      elim (Bool-cases (
        not (contains local s.id)
        && (not (contains dismissed s.id) && not (contains noted s.id)))) [
          | inl e ↦
              let fresh : contains noted s.id ≡ false = ground arith in
              rw (e, count-append (is_discovery x) p.broadcast (event ∷ []))
                (subst
                  (λ k.
                    (announcements x p + k) + (if contains (noted ++ s.id ∷ []) x then 0 else 1)
                    ≤ allowance x p)
                  (counted (s.id == x)) (noted-allowance x s.id (announcements x p) noted fresh))
          | inr e ↦ rw e (omega arith)
        ]

  announce-allowance :
      (local dismissed : List String) (root : String) (spaces : List Space) (p : Poller)
      → allowance x (announce P local dismissed root spaces p) ≤ allowance x p
  unfolding announce
  announce-allowance local dismissed root [] p = omega arith
  announce-allowance local dismissed root (s ∷ spaces) p = omega (
    arith,
    announce-allowance local dismissed root spaces (announce_one P local dismissed root s p),
    announce_one-allowance local dismissed root s p,
  )

  forget-allowance :
      (local dismissed : List String) (p : Poller)
      → contains local x ≡ false
      → contains dismissed x ≡ false
      → allowance x (forget P local dismissed p) ≡ allowance x p
  unfolding forget
  forget-allowance local dismissed p here gone =
      let passes : (not (contains local x) && not (contains dismissed x)) ≡ true =
        rw (here, gone) refl in
      rw
        (contains-keep (λ id. not (contains local id) && not (contains dismissed id))
          p.emitted_discoveries x passes)
        refl

  pub removed-count :
      (account : Uuid) (fs : List FolderConfig)
      → count (is_discovery x) (map (removed_event P account) fs) ≡ 0
  removed-count account [] = refl
  removed-count account (f ∷ fs) = removed-count account fs

  remove_folders-allowance :
      (ids : List Uuid) (p : Poller) → allowance x (remove_folders P ids p) ≡ allowance x p
  unfolding remove_folders
  remove_folders-allowance [] p = refl
  remove_folders-allowance (id ∷ ids) p =
      let gone = removed_of P (find_account p.account_id p.config) (id ∷ ids) in
      omega (
        arith,
        count-append (is_discovery x) p.broadcast (map (removed_event P p.account_id) gone),
        removed-count p.account_id gone,
      )

  -- The account has no folder for the space and has not dismissed it.
  abbrev pub IsOpen : Option AccountConfig → Type 0
  IsOpen none = Unit
  IsOpen (some a) =
      (contains (space_ids a.folder) x ≡ false) × (contains a.dismissed_spaces x ≡ false)

  on_listing-allowance :
      (answer : Option (List Space)) (a : AccountConfig) (between : AppConfig → AppConfig)
      (p : Poller)
      → IsOpen (some a)
      → allowance x (on_listing P answer a between p) ≤ allowance x p
  on_listing-allowance none a between p h = omega arith
  on_listing-allowance (some spaces) a between p h =
      let local = space_ids a.folder in
      let root = suggested_root P a.folder in
      let announced = announce P local a.dismissed_spaces root spaces p in
      let kept = forget P local a.dismissed_spaces announced in
      omega (
        arith,
        remove_folders-allowance (missing_ids P spaces a.folder)
            (record kept { config = between kept.config }),
        forget-allowance local a.dismissed_spaces announced h.0 h.1,
        announce-allowance local a.dismissed_spaces root spaces p,
      )

  on_account-allowance :
      (o : Option AccountConfig) (list_spaces : String → Option (List Space))
      (between : AppConfig → AppConfig) (p : Poller)
      → IsOpen o
      → allowance x (on_account P o list_spaces between p) ≤ allowance x p
  on_account-allowance none list_spaces between p h = omega arith
  on_account-allowance (some a) list_spaces between p h =
      on_listing-allowance (list_spaces a.url) a between p h

  -- A poll: what the rest of the daemon did to the configuration before it, the answers, and what it
  -- does to the configuration before the poll looks at it again.
  pub record Poll : Type 0 where
    pub before : AppConfig → AppConfig
    pub list_spaces : String → Option (List Space)
    pub between : AppConfig → AppConfig

  abbrev pub entered : Poll → Poller → Poller
  entered q p = record p { config = q.before p.config }

  unfoldable pub polls : List Poll → Poller → Poller
  polls [] p = p
  polls (q ∷ qs) p = polls qs (poll_once P q.list_spaces q.between (entered q p))

  -- The space is open at the begin of every poll.
  abbrev pub StaysOpen : List Poll → Poller → Type 0
  StaysOpen [] p = Unit
  StaysOpen (q ∷ qs) p =
      IsOpen (find_account p.account_id (q.before p.config))
      × StaysOpen qs (poll_once P q.list_spaces q.between (entered q p))

  polls-allowance :
      (qs : List Poll) (p : Poller) → StaysOpen qs p → allowance x (polls qs p) ≤ allowance x p
  unfolding polls poll_once
  polls-allowance [] p h = omega arith
  polls-allowance (q ∷ qs) p h = omega (
    arith,
    polls-allowance qs (poll_once P q.list_spaces q.between (entered q p)) h.1,
    on_account-allowance (find_account p.account_id (q.before p.config)) q.list_spaces q.between
        (entered q p) h.0,
  )

  -- As long as the account has no folder for a space and has not dismissed it, any number of polls,
  -- with whatever answers and whatever changes of the configuration, announce it at most once more than
  -- it was announced before; and not at all once it is noted as announced.
  pub polls-announcements :
      (qs : List Poll) (p : Poller)
      → StaysOpen qs p
      → (announcements x (polls qs p) ≤ announcements x p + 1)
        × (contains p.emitted_discoveries x ≡ true
            → announcements x (polls qs p) ≤ announcements x p)
  polls-announcements qs p h =
      (ground (arith, polls-allowance qs p h), (λ noted. ground (arith, polls-allowance qs p h)))
