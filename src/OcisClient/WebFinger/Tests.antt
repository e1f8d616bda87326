-- ===== src/OcisClient/WebFinger/Tests.antt =====
-- crates/ocis-client/src/webfinger.rs: hosts that are trusted.
use owncloud_sync_client.Common.{String, ◌≡◌, refl, true, some, [], ◌∷◌, ok, string_eq, number_eq}
use owncloud_sync_client.Common.Texts.{split}
use owncloud_sync_client.OcisClient.WebFinger.{
  Web, to_ascii_lowercase, ends_with_text, registrable_domain, instance_host_is_trusted,
  rel_server_instance, select_server_instance, parse_server_instance, resolve_with_client,
}
use owncloud_sync_client.OcisClient.WebFinger.Trust.{Trusted, resolve_with_client-Trusted}

-- URLs that are hosts.
abbrev web : Web String
web = record {
  parse = λ s. some s;
  host_str = λ u. some u;
  scheme = λ u. "https";
  as_str = λ u. u;
  set_path = λ path u. u;
  clear_query = λ u. u;
  clear_fragment = λ u. u;
  from_str = λ body. some (record {
    links =
        record { rel = rel_server_instance; href = some "evil.tld" }
        ∷ record { rel = rel_server_instance; href = some "ABC.drive.example.org" }
        ∷ [];
  });
  send = λ u resource. ok (record { is_success = true; text = ok "{}" });
}

resolved : resolve_with_client web "drive.example.org" ≡ ok (some "ABC.drive.example.org")
unfolding resolve_with_client parse_server_instance select_server_instance instance_host_is_trusted
    registrable_domain ends_with_text to_ascii_lowercase split string_eq number_eq
resolved = refl

resolve_with_client-Trusted_example : Trusted web "drive.example.org" "ABC.drive.example.org"
resolve_with_client-Trusted_example =
    resolve_with_client-Trusted web "drive.example.org" "ABC.drive.example.org" resolved

-- Below a public suffix of two labels, every host is within the registrable domain.
public_suffix_test : instance_host_is_trusted "drive.example.co.uk" (some "evil.co.uk") ≡ true
unfolding instance_host_is_trusted registrable_domain ends_with_text to_ascii_lowercase split
    string_eq number_eq
public_suffix_test = refl
