-- ===== src/Gui/Shell/Runs.antt =====
-- crates/gui/src/main.rs and app.rs: every run of the window, whatever messages it gets and however the
-- attempts to connect end.
use owncloud_sync_client.Common.{
  ◌≡◌, ◌≢◌, refl, sym, ap, subst, ℕ, suc, Bool, true, false, Option, none, some, if◌then◌else◌, inl,
  inr, arith,
}
use owncloud_sync_client.Gui.Model.{DaemonConnection, App, Message, sync_tray}
use owncloud_sync_client.Gui.App.{Platform}
use owncloud_sync_client.Gui.App.Kept.{kept}
use owncloud_sync_client.Gui.App.Health.{IsExplained, update-IsExplained}
use owncloud_sync_client.Gui.Shell.{shell_update, attempt, System, after, Step, Reachable}
use owncloud_sync_client.Gui.Shell.Laws.{
  LinkHolds, IsLinked, shown, update-attempts, update-link, shell_update-cases,
}

module _ (P : Platform) where
  attempt-IsLinked :
      (backoff : ℕ) (connecting : Bool) (n : ℕ) (app : App)
      → connecting ≡ app.daemon_connecting
      → LinkHolds n (kept app)
      → IsLinked P (after P (attempt backoff connecting app) n)
  attempt-IsLinked backoff true n app e h = h
  attempt-IsLinked backoff false n app e h =
      let none_left : n ≡ 0 = subst (λ b. n ≡ (if b then 1 else 0)) (sym e) h.0 in
      (ap suc none_left, h.1)

  connected-IsLinked :
      (n : ℕ) (app : App) (connection : Option DaemonConnection)
      → LinkHolds (suc n) (kept app)
      → IsLinked P (after P (shell_update P (Message.daemon_connected connection) app) n)
  unfolding shell_update sync_tray
  connected-IsLinked n app (some connection) h = (ground arith, shown true app.tray)
  connected-IsLinked n app none h = (ground arith, shown false app.tray)

  disconnected-IsLinked :
      (n : ℕ) (app : App)
      → LinkHolds n (kept app)
      → IsLinked P (after P (shell_update P Message.daemon_disconnected app) n)
  unfolding shell_update sync_tray
  disconnected-IsLinked n app h =
      attempt-IsLinked 2000 app.daemon_connecting n _ refl (h.0, shown false app.tray)

  received-IsLinked :
      (m : Message) (n : ℕ) (app : App)
      → ((connection : Option DaemonConnection) → m ≢ Message.daemon_connected connection)
      → LinkHolds n (kept app)
      → IsLinked P (after P (shell_update P m app) n)
  unfolding shell_update
  received-IsLinked m n app other h = elim (shell_update-cases P m app) [
    | inl e ↦ rw (e, update-attempts P m n app) (update-link P m n app h)
    | inr (inl (connection, e)) ↦ absurd (other connection e)
    | inr (inr (inl e)) ↦ rw e (disconnected-IsLinked n app h)
    | inr (inr (inr e)) ↦ rw e (attempt-IsLinked 0 app.daemon_connecting n app refl h)
  ]

  Step-IsLinked : {a b : System P} → Step P a b → IsLinked P a → IsLinked P b
  Step-IsLinked (Step.resolved app n connection) h = connected-IsLinked n app connection h
  Step-IsLinked (Step.received app n m other) h = received-IsLinked m n app other h

  -- In every run, exactly one attempt to connect to the daemon is under way while the app is marked as
  -- connecting, and none otherwise: no event and no click starts a second one. The tray, if there is
  -- one, shows whether the app takes the daemon for running.
  pub Reachable-IsLinked : {s : System P} → Reachable P s → IsLinked P s
  Reachable-IsLinked (Reachable.start true language) = (refl, refl)
  Reachable-IsLinked (Reachable.start false language) = (refl, refl)
  Reachable-IsLinked (Reachable.step before one) = Step-IsLinked one (Reachable-IsLinked before)

  attempt-IsExplained :
      (backoff : ℕ) (connecting : Bool) (app : App)
      → IsExplained app
      → IsExplained (attempt backoff connecting app).0
  attempt-IsExplained backoff true app h = h
  attempt-IsExplained backoff false app h = h

  shell_update-IsExplained :
      (m : Message) (app : App) → IsExplained app → IsExplained (shell_update P m app).0
  unfolding shell_update sync_tray
  shell_update-IsExplained m app h = elim (shell_update-cases P m app) [
    | inl e ↦ rw e (update-IsExplained P m app h)
    | inr (inl (some connection, e)) ↦ rw e h
    | inr (inl (none, e)) ↦ rw e h
    | inr (inr (inl e)) ↦ rw e (attempt-IsExplained 2000 app.daemon_connecting _ h)
    | inr (inr (inr e)) ↦ rw e (attempt-IsExplained 0 app.daemon_connecting app h)
  ]

  -- In every run, each folder that the window shows with an error has an error text.
  pub Reachable-IsExplained : {s : System P} → Reachable P s → IsExplained s.app
  Reachable-IsExplained (Reachable.start tray language) = tt
  Reachable-IsExplained (Reachable.step before (Step.resolved app n connection)) =
      shell_update-IsExplained (Message.daemon_connected connection) app
        (Reachable-IsExplained before)
  Reachable-IsExplained (Reachable.step before (Step.received app n m other)) =
      shell_update-IsExplained m app (Reachable-IsExplained before)
