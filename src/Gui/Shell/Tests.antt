-- ===== src/Gui/Shell/Tests.antt =====
-- crates/gui/src/main.rs: a failed start, and a click on the tray while an attempt is under way.
use owncloud_sync_client.Common.{◌≡◌, refl, true, none, some, [], ◌∷◌}
use owncloud_sync_client.Daemon.Ipc.{DaemonEvent}
use owncloud_sync_client.Gui.Model.{Language, Message}
use owncloud_sync_client.Gui.App.{Platform}
use owncloud_sync_client.Gui.Shell.{System, Reachable, Step, booted, shell_update, after}
use owncloud_sync_client.Gui.Shell.Laws.{IsLinked}
use owncloud_sync_client.Gui.Shell.Runs.{Reachable-IsLinked, Reachable-IsExplained}
use owncloud_sync_client.Gui.App.Health.{IsExplained}

abbrev quiet : Platform
quiet = record {
  translate = λ language key. key;
  trim = λ s. s;
  parent = λ path. none;
  home_root = none;
}

-- The first attempt fails, the user starts the daemon from the tray, and clicks again.
abbrev failed : System quiet
failed =
    after quiet
      (shell_update quiet (Message.daemon_connected none) (booted quiet true Language.en).app) 0

abbrev retried : System quiet
retried = after quiet (shell_update quiet Message.start_daemon failed.app) failed.in_flight

abbrev clicked : System quiet
clicked = after quiet (shell_update quiet Message.start_daemon retried.app) retried.in_flight

clicked-Reachable : Reachable quiet clicked
unfolding shell_update
clicked-Reachable =
    Reachable.step
      (Reachable.step
        (Reachable.step (Reachable.start true Language.en)
          (Step.resolved (booted quiet true Language.en).app 0 none))
        (Step.received failed.app failed.in_flight Message.start_daemon (λ connection e. cc e)))
      (Step.received retried.app retried.in_flight Message.start_daemon (λ connection e. cc e))

Reachable-IsLinked_example : IsLinked quiet clicked
Reachable-IsLinked_example = Reachable-IsLinked quiet clicked-Reachable

clicked_test : clicked.in_flight ≡ 1
unfolding shell_update
clicked_test = refl

abbrev connected : System quiet
connected =
    after quiet
      (shell_update quiet (Message.daemon_connected (some (record { room = 9; sent = [] })))
        (booted quiet true Language.en).app)
      0

abbrev snapshot : Message
snapshot = Message.daemon_event (
    DaemonEvent.account_snapshot (
      record {
        account_id = 1;
        url = "c.example";
        display_name = "A";
        folders =
            record {
              folder_id = 7;
              space_id = "s";
              display_name = "P";
              local_path = "/h/P";
              status = "idle";
            }
            ∷ [];
      }
      ∷ []))

abbrev listed : System quiet
listed = after quiet (shell_update quiet snapshot connected.app) connected.in_flight

abbrev finished : Message
finished = Message.daemon_event (DaemonEvent.sync_finished 7 ("disk full" ∷ []) none)

abbrev in_error : System quiet
in_error = after quiet (shell_update quiet finished listed.app) listed.in_flight

in_error-Reachable : Reachable quiet in_error
unfolding shell_update
in_error-Reachable =
    Reachable.step
      (Reachable.step
        (Reachable.step (Reachable.start true Language.en) (
          Step.resolved (booted quiet true Language.en).app 0
            (some (record { room = 9; sent = [] }))))
        (Step.received connected.app connected.in_flight snapshot (λ connection e. cc e)))
      (Step.received listed.app listed.in_flight finished (λ connection e. cc e))

Reachable-IsExplained_example : IsExplained in_error.app
Reachable-IsExplained_example = Reachable-IsExplained quiet in_error-Reachable
