-- ===== src/OcisClient/Tokens/Tests.antt =====
-- crates/ocis-client/src/auth/token_manager.rs: two callers at once, and an answer without a refresh token.
use owncloud_sync_client.Common.{ℕ, ◌≡◌, refl, none, some, List, [], ◌∷◌, ok}
use owncloud_sync_client.Common.Int.{pos}
use owncloud_sync_client.OcisClient.Tokens.{
  TokenSet, TokenResponse, Caller, System, Turn, advance, run, take_turn, get_valid_token,
  is_expired, token_response_to_set,
}

abbrev old : TokenSet
old = record { access_token = "a0"; refresh_token = some "r0"; expires_at = pos 0 }

abbrev rotated : TokenResponse
rotated = record { access_token = "a1"; refresh_token = some "r1"; expires_in = some 100 }

abbrev turn : ℕ → Turn
turn n = record { caller = n; now = 0; answer = ok rotated }

abbrev both : System
both = record { token = old; callers = Caller.fast_path ∷ Caller.fast_path ∷ [] }

abbrev turns : List Turn
turns = turn 0 ∷ turn 1 ∷ turn 0 ∷ turn 0 ∷ turn 1 ∷ []

-- Both callers send the same refresh token.
same_refresh_token_test :
    (run (turn 0 ∷ turn 1 ∷ turn 0 ∷ turn 1 ∷ []) both).callers
    ≡ Caller.refreshing "r0" ∷ Caller.refreshing "r0" ∷ []
unfolding run take_turn advance is_expired
same_refresh_token_test = refl

-- An answer without a refresh token leaves a set that cannot be refreshed.
lost_refresh_token_test :
    (get_valid_token 0 0 0
      (ok (record rotated { refresh_token = none; expires_in = some 0 }))
      old).1.refresh_token
    ≡ none
unfolding get_valid_token advance is_expired token_response_to_set
lost_refresh_token_test = refl
