-- ===== src/OcisClient/WebFinger/Trust.antt =====
-- crates/ocis-client/src/webfinger.rs: which server WebFinger can send the login to.
use owncloud_sync_client.Common.{
  String, ◌<>◌, ◌≡◌, ◌⊎◌, refl, ap, ◌∙◌, sym, inl, inr, Bool, true, false, ◌&&◌, ◌||◌, Option, none,
  some, List, [], ◌∷◌, Result, ok, err, ok-injective, ◌==◌, string_eq, Bool-cases, find, arith,
  length, leb, ◌≤◌, ◌++◌,
}
use owncloud_sync_client.Common.Texts.{split}
use text.Mathlib.TextLemmas.{nil-append, cons-append}
use owncloud_sync_client.OcisClient.WebFinger.{
  Web, Jrd, Response, to_ascii_lowercase, ends_with_text, registrable_domain, last_two,
  instance_host_is_trusted, instances, is_usable, select_for, select_server_instance, select_parsed,
  parse_server_instance, on_body, on_response, resolve_with_client,
}

eq_of_test : (a b : String) → (a == b) ≡ true → a ≡ b
eq_of_test a b h = ground arith

and_cases : (a b : Bool) → (a && b) ≡ true → (a ≡ true) × (b ≡ true)
and_cases true b h = (refl, h)
and_cases false b h = absurd (cc h)

or_cases : (a b : Bool) → (a || b) ≡ true → (a ≡ true) ⊎ (b ≡ true)
or_cases true b h = inl refl
or_cases false b h = inr h

ends_with_text-front :
    (suffix s : String) → ends_with_text suffix s ≡ true → (front : String) × (s ≡ front <> suffix)
unfolding ends_with_text
ends_with_text-front suffix String.[] h = ("", rw nil-append (sym (eq_of_test suffix "" h)))
ends_with_text-front suffix (String.◌∷◌ c s) h =
    elim (or_cases (suffix == String.◌∷◌ c s) (ends_with_text suffix s) h) [
      | inl same ↦ ("", rw nil-append (sym (eq_of_test suffix (String.◌∷◌ c s) same)))
      | inr more ↦
          let (front, e) = ends_with_text-front suffix s more in
          (String.◌∷◌ c front, rw cons-append (ap (String.◌∷◌ c) e))
    ]

-- The last two labels of a host in lower case, or that host if it has no more than two.
abbrev pub IsDomain : String → String → Type 0
IsDomain host domain =
    let labels = split b'.' (to_ascii_lowercase host) in
    ((length labels ≤ 2) × (domain ≡ to_ascii_lowercase host))
    ⊎ ((front : List String) × (a : String) × (b : String) × (labels ≡ front ++ a ∷ b ∷ [])
        × (domain ≡ a <> ("." <> b)))

last_two-labels :
    (host a b : String) (ls : List String)
    → (front : List String) × (x : String) × (y : String) × (a ∷ b ∷ ls ≡ front ++ x ∷ y ∷ [])
      × (last_two host (a ∷ b ∷ ls) ≡ x <> ("." <> y))
last_two-labels host a b [] = ([], a, b, refl, refl)
last_two-labels host a b (c ∷ ls) =
    let (front, x, y, same, found) = last_two-labels host b c ls in
    (a ∷ front, x, y, ap (λ more. a ∷ more) same, found)

last_two-IsDomain :
    (host : String) (ls : List String)
    → leb (length ls) 2 ≡ false
    → (front : List String) × (x : String) × (y : String) × (ls ≡ front ++ x ∷ y ∷ [])
      × (last_two host ls ≡ x <> ("." <> y))
last_two-IsDomain host [] h = absurd (ground arith)
last_two-IsDomain host (a ∷ []) h = absurd (ground arith)
last_two-IsDomain host (a ∷ b ∷ ls) h = last_two-labels host a b ls

registrable_domain-IsDomain : (host : String) → IsDomain host (registrable_domain host)
unfolding registrable_domain
registrable_domain-IsDomain host =
    let lower = to_ascii_lowercase host in
    elim (Bool-cases (leb (length (split b'.' lower)) 2)) [
      | inl few ↦ rw few (inl (ground arith, refl))
      | inr more ↦ rw more (inr (last_two-IsDomain lower (split b'.' lower) more))
    ]

-- The host is the other one, or the other one's domain, or below that.
abbrev pub IsWithin : String → String → Type 0
IsWithin base_host inst_host =
    let inst = to_ascii_lowercase inst_host in
    (inst ≡ to_ascii_lowercase base_host)
    ⊎ ((domain : String) × (IsDomain base_host domain)
        × ((inst ≡ domain) ⊎ ((front : String) × (inst ≡ front <> ("." <> domain)))))

instance_host_is_trusted-IsWithin :
    (base_host : String) (inst : Option String)
    → instance_host_is_trusted base_host inst ≡ true
    → (inst_host : String) × ((inst ≡ some inst_host) × IsWithin base_host inst_host)
unfolding instance_host_is_trusted
instance_host_is_trusted-IsWithin base_host none h = absurd (cc h)
instance_host_is_trusted-IsWithin base_host (some inst_host) h = (
  inst_host,
  (
    refl,
    elim (or_cases _ _ h) [
      | inl same ↦ inl (eq_of_test _ _ same)
      | inr rest ↦ inr (
        registrable_domain base_host,
        registrable_domain-IsDomain base_host,
        elim (or_cases _ _ rest) [
          | inl same ↦ inl (eq_of_test _ _ same)
          | inr below ↦ inr (ends_with_text-front _ _ below)
        ],
      )
    ],
  ),
)

module _ {Url : Type 0} (W : Web Url) where
  -- An https URL within the host of the other URL.
  abbrev pub Trusted : Url → Url → Type 0
  Trusted base u =
      (W.scheme u ≡ "https")
      × ((base_host : String) × ((W.host_str base ≡ some base_host)
            × ((inst_host : String) × ((W.host_str u ≡ some inst_host)
                  × IsWithin base_host inst_host))))

  find-holds : (p : Url → Bool) (urls : List Url) (u : Url) → find p urls ≡ some u → p u ≡ true
  find-holds p [] u h = absurd (cc h)
  find-holds p (v ∷ urls) u h = elim (Bool-cases (p v)) [
    | inl e ↦
        let h' : ◌≡◌ {A = Option Url} (some v) (some u) = rw e at h in
        let same : v ≡ u = cc h' in ap p (sym same) ∙ e
    | inr e ↦ let h' : find p urls ≡ some u = rw e at h in find-holds p urls u h'
  ]

  select_for-Trusted :
      (base u : Url) (host : Option String) (jrd : Jrd)
      → W.host_str base ≡ host
      → select_for W host jrd ≡ some u
      → Trusted base u
  select_for-Trusted base u none jrd known h = absurd (cc h)
  select_for-Trusted base u (some base_host) jrd known h =
      let (https, trusted) =
        and_cases _ _ (find-holds (is_usable W base_host) (instances W jrd.links) u h) in
      (
        eq_of_test _ _ https,
        (base_host, (known, instance_host_is_trusted-IsWithin base_host (W.host_str u) trusted)),
      )

  select_parsed-Trusted :
      (base u : Url) (jrd : Option Jrd) → select_parsed W base jrd ≡ some u → Trusted base u
  unfolding select_server_instance
  select_parsed-Trusted base u none h = absurd (cc h)
  select_parsed-Trusted base u (some jrd) h = select_for-Trusted base u _ jrd refl h

  on_body-Trusted :
      (base u : Url) (text : Result String String)
      → on_body W base text ≡ ok (some u)
      → Trusted base u
  unfolding parse_server_instance
  on_body-Trusted base u (err e) h = absurd (cc h)
  on_body-Trusted base u (ok body) h = select_parsed-Trusted base u _ (ok-injective h)

  on_response-Trusted :
      (base u : Url) (answer : Result Response String)
      → on_response W base answer ≡ ok (some u)
      → Trusted base u
  on_response-Trusted base u (err e) h = absurd (cc h)
  on_response-Trusted base u (ok resp) h = elim (Bool-cases resp.is_success) [
    | inl e ↦
        let h' : on_body W base resp.text ≡ ok (some u) = rw e at h in on_body-Trusted base u _ h'
    | inr e ↦
        let h' : ◌≡◌ {A = Result (Option Url) String} (ok none) (ok (some u)) = rw e at h in
        absurd (cc h')
  ]

  -- Whatever a server answers to the WebFinger request, a URL that is taken from the answer is https, and
  -- its host, without regard to case, is the host that the user entered, or that host's last two labels (or
  -- all, if it has no more), or stands below them; so it is also where those labels are a suffix that
  -- anybody can register under.
  pub resolve_with_client-Trusted :
      (base u : Url) → resolve_with_client W base ≡ ok (some u) → Trusted base u
  unfolding resolve_with_client
  resolve_with_client-Trusted base u h = on_response-Trusted base u _ h
