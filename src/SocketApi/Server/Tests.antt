-- ===== src/SocketApi/Server/Tests.antt =====
-- A request for two files of which one cannot be hydrated.
use owncloud_sync_client.Common.{
  String, ◌≡◌, refl, ◌++◌, none, some, List, [], ◌∷◌, Result, ok, err, ◌==◌, string_eq, number_eq,
  if◌then◌else◌, false,
}
use owncloud_sync_client.Common.Texts.{join}
use owncloud_sync_client.SyncEngine.Types.{FilePath}
use owncloud_sync_client.SocketApi.Protocol.{make_available_locally, make_online_only}
use owncloud_sync_client.SocketApi.Protocol.RoundTrip.{print, ArePrintable}
use owncloud_sync_client.SocketApi.StatusResolver.{Paths, StatusResolver}
use owncloud_sync_client.SocketApi.Server.{Vfs, Json, Session, dispatch_line}
use owncloud_sync_client.SocketApi.Server.Laws.{results, messages, failed, dispatch_line-change_all}

abbrev paths : Paths
paths = record { starts_with = λ path prefix. false; len = λ path. 0 }

abbrev json : Json
json = record { id_of = λ body. none; render = λ id icon. icon }

abbrev change : FilePath → List String → Result (Unit {0}) String × List String
change path done = if path == "/b" then (err "no space", done) else (ok tt, path ∷ done)

abbrev vfs : Vfs (List String)
vfs = record { hydrate = change; dehydrate = change }

abbrev resolver : StatusResolver
resolver = record { sync_states = []; folder_roots = [] }

abbrev session : Session (List String)
session = record { vfs_state = []; sent = [] }

abbrev two : List String
two = "/a" ∷ "/b" ∷ []

two-ArePrintable : ArePrintable two
unfolding number_eq join
two-ArePrintable = ((refl, (refl, tt)), refl)

dispatch_line-change_all_example :
    let o =
      dispatch_line paths (λ s. s) json vfs resolver (print (make_available_locally two)) session in
    let r = results vfs.hydrate two [] in
    let o' =
      dispatch_line paths (λ s. s) json vfs resolver (print (make_online_only two)) session in
    let r' = results vfs.dehydrate two [] in
    ((o.0
        ≡ some
            (if failed r then "MAKE_AVAILABLE_LOCALLY:ERROR\n" else "MAKE_AVAILABLE_LOCALLY:OK\n"))
      × (o.1.sent ≡ [] ++ messages r))
    × ((o'.0 ≡ some (if failed r' then "MAKE_ONLINE_ONLY:ERROR\n" else "MAKE_ONLINE_ONLY:OK\n"))
        × (o'.1.sent ≡ [] ++ messages r'))
dispatch_line-change_all_example =
    dispatch_line-change_all paths (λ s. s) json vfs resolver two session two-ArePrintable
