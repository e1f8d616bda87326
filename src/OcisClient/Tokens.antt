-- ===== src/OcisClient/Tokens.antt =====
-- crates/ocis-client/src/auth/token_manager.rs and oidc.rs: tokens that expire and are refreshed. Callers
-- of `get_valid_token` run at the same time; a step of one of them is what it does up to its next wait.
-- The keychain, to which a new token is written with failures only logged, is left out.
pub mod Laws
mod Tests
use owncloud_sync_client.Common.{
  ℕ, ◌+◌, ◌-◌, suc, String, Bool, true, false, Option, none, some, List, [], ◌∷◌, ◌++◌, Result, ok,
  err, ltb, leb, if◌then◌else◌,
}
use owncloud_sync_client.Common.Int.{ℤ, pos, negsuc, as_i64}

-- `expires_at` is an `i64`; sums that leave the range of `i64` are not wrapped here.
pub record TokenSet : Type 0 where
  pub access_token : String
  pub refresh_token : Option String
  pub expires_at : ℤ

-- `is_expired`, at a time in seconds: `now >= expires_at - 30`
abbrev pub is_late : ℕ → ℤ → Bool
is_late now (pos n) = leb n (now + 30)
is_late now (negsuc n) = true

unfoldable pub is_expired : ℕ → TokenSet → Bool
is_expired now t = is_late now t.expires_at

pub record TokenResponse : Type 0 where
  pub access_token : String
  pub refresh_token : Option String
  pub expires_in : Option ℕ

abbrev or_hour : Option ℕ → ℕ
or_hour none = 3600
or_hour (some n) = n

abbrev later : ℕ → ℤ → ℤ
later now (pos n) = pos (now + n)
later now (negsuc n) = if leb (suc n) now then pos (now - suc n) else negsuc (n - now)

unfoldable pub token_response_to_set : ℕ → TokenResponse → TokenSet
unfolding as_i64
token_response_to_set now resp = record {
  access_token = resp.access_token;
  refresh_token = resp.refresh_token;
  expires_at = later now (as_i64 (or_hour resp.expires_in));
}

-- Where a caller of `get_valid_token` stands; `refreshing` holds the refresh token that it has sent.
pub data Caller : Type 0 where
  fast_path recheck : Caller
  refreshing : String → Caller
  returned : Result String String → Caller

abbrev pub no_refresh_token : String
no_refresh_token = "token expired, no refresh token available"

-- What a caller does next: at a time, with the answer to its refresh (an error is its text).
abbrev pub send_refresh : Option String → Caller
send_refresh none = Caller.returned (err no_refresh_token)
send_refresh (some refresh_token) = Caller.refreshing refresh_token

abbrev store : Result TokenResponse String → ℕ → TokenSet → Caller × TokenSet
store (ok resp) now t = (Caller.returned (ok resp.access_token), token_response_to_set now resp)
store (err e) now t = (Caller.returned (err e), t)

unfoldable pub advance : ℕ → Result TokenResponse String → Caller → TokenSet → Caller × TokenSet
unfolding is_expired token_response_to_set
advance now answer Caller.fast_path t =
    if is_expired now t then (Caller.recheck, t) else (Caller.returned (ok t.access_token), t)
advance now answer Caller.recheck t =
    if is_expired now t
    then (send_refresh t.refresh_token, t)
    else (Caller.returned (ok t.access_token), t)
advance now answer (Caller.refreshing refresh_token) t = store answer now t
advance now answer (Caller.returned result) t = (Caller.returned result, t)

-- A caller that nobody interrupts: three steps, at three times.
unfoldable pub get_valid_token :
    ℕ → ℕ → ℕ → Result TokenResponse String → TokenSet → Caller × TokenSet
unfolding advance
get_valid_token first second third answer t =
    let one = advance first answer Caller.fast_path t in
    let two = advance second answer one.0 one.1 in advance third answer two.0 two.1

-- The shared token, and the callers.
pub record System : Type 0 where
  pub token : TokenSet
  pub callers : List Caller

-- A step of the n-th caller.
pub record Turn : Type 0 where
  pub caller : ℕ
  pub now : ℕ
  pub answer : Result TokenResponse String

-- The callers before the one whose turn it is, and it with those after it.
unfoldable pub take_turn :
    ℕ → ℕ → Result TokenResponse String → List Caller → TokenSet → List Caller × TokenSet
take_turn n now answer [] t = ([], t)
take_turn n now answer (c ∷ cs) t =
    let rest = take_turn (n - 1) now answer cs t in
    if leb n 0
    then (let moved = advance now answer c t in (moved.0 ∷ cs, moved.1))
    else (c ∷ rest.0, rest.1)

unfoldable pub run : List Turn → System → System
unfolding take_turn
run [] s = s
run (u ∷ us) s =
    let next = take_turn u.caller u.now u.answer s.callers s.token in
    run us (record { token = next.1; callers = next.0 })
