-- ===== src/OcisClient/Tokens/Laws.antt =====
-- crates/ocis-client/src/auth/token_manager.rs: what callers that run at the same time get.
use mathlib.Core.List.{Memᴰ}
use owncloud_sync_client.Common.{
  ℕ, ◌≡◌, ◌⊎◌, String, none, some, List, [], ◌∷◌, Result, ok, err, true, false,
}
use owncloud_sync_client.OcisClient.Tokens.{
  TokenSet, TokenResponse, Caller, System, Turn, is_expired, take_turn, no_refresh_token,
}

-- A step as seen from outside: its time, the stored set at its start, and the answer of the server.
pub record Moment : Type 0 where
  pub now : ℕ
  pub token : TokenSet
  pub answer : Result TokenResponse String

-- The steps of a run, the last one first, in front of those before it.
abbrev past : List Turn → System → List Moment → List Moment
past [] s seen = seen
past (u ∷ us) s seen =
    let next = take_turn u.caller u.now u.answer s.callers s.token in
    past us (record { token = next.1; callers = next.0 })
      (record { now = u.now; token = s.token; answer = u.answer } ∷ seen)

abbrev pub moments : List Turn → System → List Moment
moments turns s = past turns s []

-- At a step the stored set could be used, or the server answered a refresh with the token.
abbrev Granted : String → Moment → Type 0
Granted access m =
    ((is_expired m.now m.token ≡ false) × (access ≡ m.token.access_token))
    ⊎ ((resp : TokenResponse) × (m.answer ≡ ok resp) × (access ≡ resp.access_token))

-- At a step the stored set was expired without a refresh token, or the refresh failed.
abbrev Denied : String → Moment → Type 0
Denied e m =
    ((is_expired m.now m.token ≡ true) × (m.token.refresh_token ≡ none) × (e ≡ no_refresh_token))
    ⊎ (m.answer ≡ err e)

-- Where a caller stands has its reason in a step of the run.
abbrev pub Explained : List Moment → Caller → Type 0
Explained seen Caller.fast_path = Unit
Explained seen Caller.recheck = Unit
Explained seen (Caller.refreshing refresh_token) =
    (m : Moment) × Memᴰ m seen
    × (is_expired m.now m.token ≡ true)
    × (m.token.refresh_token ≡ some refresh_token)
Explained seen (Caller.returned (ok access)) = (m : Moment) × Memᴰ m seen × Granted access m
Explained seen (Caller.returned (err e)) = (m : Moment) × Memᴰ m seen × Denied e m

abbrev pub IsWaiting : Caller → Type 0
IsWaiting c = c ≡ Caller.fast_path
