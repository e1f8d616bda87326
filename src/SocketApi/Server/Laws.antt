-- ===== src/SocketApi/Server/Laws.antt =====
-- crates/socket-api/src/server.rs: the requests to hydrate or dehydrate files.
use owncloud_sync_client.Common.{
  String, ◌<>◌, ◌≡◌, refl, sym, ◌∙◌, Bool, false, ◌||◌, some, List, [], ◌∷◌, ◌++◌, Result, ok, err,
  is_ok, not, if◌then◌else◌, ap, arith,
}
use mathlib.Core.List.{append_assoc, append-nil}
use owncloud_sync_client.SyncEngine.Types.{FilePath}
use owncloud_sync_client.SocketApi.Protocol.{make_available_locally, make_online_only}
use owncloud_sync_client.SocketApi.Protocol.RoundTrip.{print, ArePrintable, parse_command-print}
use owncloud_sync_client.SocketApi.StatusResolver.{Paths, StatusResolver}
use owncloud_sync_client.SocketApi.Server.{
  Vfs, Json, Session, change_all, after_change, handle_make_available_locally,
  handle_make_online_only, respond, dispatch_line,
}

-- What the files of a request answer, one after the other: whether one fails, and the messages.
module _ {V : Type 0} (change : FilePath → V → Result (Unit {0}) String × V) where
  abbrev pub results : List String → V → List (String × Bool)
  results [] v = []
  results (path ∷ paths) v = (path, is_ok (change path v).0) ∷ results paths (change path v).1

abbrev pub messages : List (String × Bool) → List String
messages [] = []
messages ((path, fine) ∷ more) =
    ("STATUS:" <> ((if fine then "OK" else "ERROR") <> (":" <> (path <> "\n")))) ∷ messages more

abbrev pub failed : List (String × Bool) → Bool
failed [] = false
failed ((path, fine) ∷ more) = not fine || failed more

module _ (P : Paths) (debug : String → String) (json : Json) {V : Type 0} (vfs : Vfs V) where
  module _ (change : FilePath → V → Result (Unit {0}) String × V) where
    abbrev round : String → Bool → Session V → Result (Unit {0}) String × V → Bool × Session V
    round path had_error s o = after_change P debug json vfs path had_error s o

    round-failed :
        (path : String) (paths : List String) (had_error : Bool) (s : Session V)
        (o : Result (Unit {0}) String × V)
        → ((round path had_error s o).0
            || failed (results change paths (round path had_error s o).1.vfs_state))
          ≡ (had_error || (not (is_ok o.0) || failed (results change paths o.1)))
    round-failed path paths had_error s (ok u, v) = refl
    round-failed path paths had_error s (err e, v) = ground arith

    round-sent :
        (path : String) (paths : List String) (had_error : Bool) (s : Session V)
        (o : Result (Unit {0}) String × V)
        → (round path had_error s o).1.sent
            ++ messages (results change paths (round path had_error s o).1.vfs_state)
          ≡ s.sent ++ messages ((path, is_ok o.0) ∷ results change paths o.1)
    round-sent path paths had_error s (ok u, v) = append_assoc s.sent _ _
    round-sent path paths had_error s (err e, v) = append_assoc s.sent _ _

    change_all-failed :
        (paths : List String) (had_error : Bool) (s : Session V)
        → (change_all P debug json vfs change paths had_error s).0
          ≡ (had_error || failed (results change paths s.vfs_state))
    unfolding change_all
    change_all-failed [] had_error s = ground arith
    change_all-failed (path ∷ paths) had_error s =
        change_all-failed paths _ _ ∙ round-failed path paths had_error s (change path s.vfs_state)

    change_all-sent :
        (paths : List String) (had_error : Bool) (s : Session V)
        → (change_all P debug json vfs change paths had_error s).1.sent
          ≡ s.sent ++ messages (results change paths s.vfs_state)
    unfolding change_all
    change_all-sent [] had_error s = sym (append-nil s.sent)
    change_all-sent (path ∷ paths) had_error s =
        change_all-sent paths _ _ ∙ round-sent path paths had_error s (change path s.vfs_state)

  dispatch_line-make_available_locally :
      (resolver : StatusResolver) (paths : List String) (s : Session V)
      → ArePrintable paths
      → let o = dispatch_line P debug json vfs resolver (print (make_available_locally paths)) s in
        let r = results vfs.hydrate paths s.vfs_state in
        (o.0
          ≡ some (
              if failed r then "MAKE_AVAILABLE_LOCALLY:ERROR\n" else "MAKE_AVAILABLE_LOCALLY:OK\n"))
        × (o.1.sent ≡ s.sent ++ messages r)
  unfolding dispatch_line respond handle_make_available_locally
  dispatch_line-make_available_locally resolver paths s printable =
      rw (parse_command-print debug (make_available_locally paths) printable) (
        ap
            (λ (b : Bool).
              some (if b then "MAKE_AVAILABLE_LOCALLY:ERROR\n" else "MAKE_AVAILABLE_LOCALLY:OK\n"))
            (change_all-failed vfs.hydrate paths false s),
        change_all-sent vfs.hydrate paths false s,
      )

  dispatch_line-make_online_only :
      (resolver : StatusResolver) (paths : List String) (s : Session V)
      → ArePrintable paths
      → let o = dispatch_line P debug json vfs resolver (print (make_online_only paths)) s in
        let r = results vfs.dehydrate paths s.vfs_state in
        (o.0 ≡ some (if failed r then "MAKE_ONLINE_ONLY:ERROR\n" else "MAKE_ONLINE_ONLY:OK\n"))
        × (o.1.sent ≡ s.sent ++ messages r)
  unfolding dispatch_line respond handle_make_online_only
  dispatch_line-make_online_only resolver paths s printable =
      rw (parse_command-print debug (make_online_only paths) printable) (
        ap (λ (b : Bool). some (if b then "MAKE_ONLINE_ONLY:ERROR\n" else "MAKE_ONLINE_ONLY:OK\n"))
            (change_all-failed vfs.dehydrate paths false s),
        change_all-sent vfs.dehydrate paths false s,
      )

  -- The line that asks for printable paths to be kept offline hydrates the paths in their order, and
  -- the line that releases them dehydrates them in their order. Either sends one message for each path,
  -- and is answered by an error exactly if one of them failed.
  pub dispatch_line-change_all :
      (resolver : StatusResolver) (paths : List String) (s : Session V)
      → ArePrintable paths
      → let o = dispatch_line P debug json vfs resolver (print (make_available_locally paths)) s in
        let r = results vfs.hydrate paths s.vfs_state in
        let o' = dispatch_line P debug json vfs resolver (print (make_online_only paths)) s in
        let r' = results vfs.dehydrate paths s.vfs_state in
        ((o.0
            ≡ some (
                if failed r
                then "MAKE_AVAILABLE_LOCALLY:ERROR\n"
                else "MAKE_AVAILABLE_LOCALLY:OK\n"))
          × (o.1.sent ≡ s.sent ++ messages r))
        × ((o'.0 ≡ some (if failed r' then "MAKE_ONLINE_ONLY:ERROR\n" else "MAKE_ONLINE_ONLY:OK\n"))
            × (o'.1.sent ≡ s.sent ++ messages r'))
  dispatch_line-change_all resolver paths s printable = (
    dispatch_line-make_available_locally resolver paths s printable,
    dispatch_line-make_online_only resolver paths s printable,
  )
