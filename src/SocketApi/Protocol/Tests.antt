-- ===== src/SocketApi/Protocol/Tests.antt =====
-- A line with two paths.
use owncloud_sync_client.Common.{◌≡◌, refl, [], ◌∷◌, ok, number_eq}
use owncloud_sync_client.Common.Texts.{join}
use owncloud_sync_client.SocketApi.Protocol.{Command, make_online_only, parse_command}
use owncloud_sync_client.SocketApi.Protocol.RoundTrip.{print, IsPrintable, parse_command-print}

abbrev two_paths : Command
two_paths = make_online_only ("/a:b" ∷ "/c" ∷ [])

two_paths-IsPrintable : IsPrintable two_paths
unfolding number_eq join
two_paths-IsPrintable = ((refl, (refl, tt)), refl)

parse_command-print_example : parse_command (λ s. s) (print two_paths) ≡ ok two_paths
parse_command-print_example = parse_command-print (λ s. s) two_paths two_paths-IsPrintable
