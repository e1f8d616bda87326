-- ===== src/OcisClient/WebFinger.antt =====
-- crates/ocis-client/src/webfinger.rs: the search for the server behind the host that the user entered.
pub mod Trust
mod Tests
use owncloud_sync_client.Common.{
  ℕ, ◌+◌, ◌-◌, zero, suc, String, ◌<>◌, Bool, true, false, ◌&&◌, ◌||◌, Option, none, some, List, [],
  ◌∷◌, Result, ok, err, ◌==◌, string_eq, number_eq, if◌then◌else◌, leb, find, length,
}
use Prim.Native.Char.{Char, code}
use owncloud_sync_client.Common.Texts.{split}

abbrev rel_server_instance : String
rel_server_instance = "http://webfinger.owncloud/rel/server-instance"

pub record JrdLink : Type 0 where
  pub rel : String
  pub href : Option String

pub record Jrd : Type 0 where
  pub links : List JrdLink

-- An answer: whether its status is a success, and its text, if that could be read.
pub record Response : Type 0 where
  pub is_success : Bool
  pub text : Result String String

-- URLs, JSON, and the request for a URL with a value of `resource` in its query.
pub record Web (Url : Type 0) : Type 0 where
  pub parse : String → Option Url
  pub host_str : Url → Option String
  pub scheme : Url → String
  pub as_str : Url → String
  pub set_path : String → Url → Url
  pub clear_query : Url → Url
  pub clear_fragment : Url → Url
  pub from_str : String → Option Jrd
  pub send : Url → String → Result Response String

abbrev char_at : ℕ → String → Char → Char
char_at n String.[] d = d
char_at zero (String.◌∷◌ c s) d = c
char_at (suc n) (String.◌∷◌ c s) d = char_at n s d

abbrev lower_char : Char → Char
lower_char c =
    if leb b'A' (code c) && leb (code c) b'Z'
    then char_at (code c - b'A') "abcdefghijklmnopqrstuvwxyz" c
    else c

unfoldable pub to_ascii_lowercase : String → String
to_ascii_lowercase String.[] = ""
to_ascii_lowercase (String.◌∷◌ c s) = String.◌∷◌ (lower_char c) (to_ascii_lowercase s)

-- `ends_with` of a text
unfoldable pub ends_with_text : String → String → Bool
ends_with_text suffix String.[] = suffix == ""
ends_with_text suffix (String.◌∷◌ c s) = (suffix == String.◌∷◌ c s) || ends_with_text suffix s

-- The last two labels, or the host itself if it has no more.
abbrev pub last_two : String → List String → String
last_two host [] = host
last_two host (a ∷ []) = host
last_two host (a ∷ b ∷ []) = a <> ("." <> b)
last_two host (a ∷ b ∷ c ∷ ls) = last_two host (b ∷ c ∷ ls)

unfoldable pub registrable_domain : String → String
unfolding to_ascii_lowercase
registrable_domain host =
    let host = to_ascii_lowercase host in
    let labels = split b'.' host in if leb (length labels) 2 then host else last_two host labels

abbrev eq_ignore_ascii_case : String → String → Bool
eq_ignore_ascii_case a b = to_ascii_lowercase a == to_ascii_lowercase b

unfoldable pub instance_host_is_trusted : String → Option String → Bool
instance_host_is_trusted base_host none = false
instance_host_is_trusted base_host (some inst_host) =
    let base_domain = registrable_domain base_host in
    let inst_lower = to_ascii_lowercase inst_host in
    eq_ignore_ascii_case inst_host base_host
    || ((inst_lower == base_domain) || ends_with_text ("." <> base_domain) inst_lower)

module _ {Url : Type 0} (W : Web Url) where
  abbrev push_url : Option Url → List Url → List Url
  push_url none urls = urls
  push_url (some u) urls = u ∷ urls

  abbrev push_href : Option String → List Url → List Url
  push_href none urls = urls
  push_href (some href) urls = push_url (W.parse href) urls

  -- The URLs of the links with the relation.
  abbrev instances : List JrdLink → List Url
  instances [] = []
  instances (l ∷ links) =
      let rest = instances links in
      if l.rel == rel_server_instance then push_href l.href rest else rest

  abbrev is_usable : String → Url → Bool
  is_usable base_host u =
      (W.scheme u == "https") && instance_host_is_trusted base_host (W.host_str u)

  abbrev select_for : Option String → Jrd → Option Url
  select_for none jrd = none
  select_for (some base_host) jrd = find (is_usable base_host) (instances jrd.links)

  unfoldable pub select_server_instance : Url → Jrd → Option Url
  select_server_instance base jrd = select_for (W.host_str base) jrd

  abbrev select_parsed : Url → Option Jrd → Option Url
  select_parsed base none = none
  select_parsed base (some jrd) = select_server_instance base jrd

  unfoldable pub parse_server_instance : Url → String → Option Url
  parse_server_instance base body = select_parsed base (W.from_str body)

  abbrev webfinger_endpoint : Url → Url
  webfinger_endpoint base =
      W.clear_fragment (W.clear_query (W.set_path "/.well-known/webfinger" base))

  abbrev on_body : Url → Result String String → Result (Option Url) String
  on_body base (ok body) = ok (parse_server_instance base body)
  on_body base (err e) = err e

  abbrev on_response : Url → Result Response String → Result (Option Url) String
  on_response base (err e) = err e
  on_response base (ok resp) = if resp.is_success then on_body base resp.text else ok none

  unfoldable pub resolve_with_client : Url → Result (Option Url) String
  resolve_with_client base = on_response base (W.send (webfinger_endpoint base) (W.as_str base))
