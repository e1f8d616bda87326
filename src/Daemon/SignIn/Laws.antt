-- ===== src/Daemon/SignIn/Laws.antt =====
-- crates/daemon/src/oidc_callback.rs: what a sign-in leaves behind, however it ends.
use owncloud_sync_client.Common.{
  ◌≡◌, ◌⊎◌, refl, inl, String, true, false, none, some, List, [], ◌∷◌, ◌++◌, contains, Result, ok,
  err, number_eq, string_eq,
}
use owncloud_sync_client.SyncEngine.Types.{Uuid}
use owncloud_sync_client.Daemon.Ipc.{DaemonEvent}
use owncloud_sync_client.Daemon.Config.{ServerType, AppConfig}
use owncloud_sync_client.Daemon.SignIn.{
  Bytes, Wait, Outside, State, Outcome, failed, read_request, with_new,
}

module _ (O : Outside) (account : Uuid) (url : String) where
  -- The account is configured, in the file too, can be used, and is announced.
  abbrev pub Completed : State → State → Type 0
  Completed old new =
      (user_id : String) × (display_name : String) × (server_type : ServerType) × (new.config
        ≡ with_new O account url user_id display_name server_type old.config)
      × (new.file ≡ some new.config)
      × (new.tokens ≡ old.tokens ++ account ∷ [])
      × (new.keychain ≡ old.keychain ++ account ∷ [])
      × (new.broadcast
          ≡ old.broadcast
            ++ DaemonEvent.account_add_completed account user_id display_name url ∷ [])

  -- The configuration is as before, or it has an account more that could not be written to the file.
  abbrev pub Unsaved : State → State → Type 0
  Unsaved old new =
      (new.config ≡ old.config)
      ⊎ ((user_id : String) × (display_name : String) × (server_type : ServerType)
          × (reason : String) × (new.config
              ≡ with_new O account url user_id display_name server_type old.config)
          × (O.save new.config ≡ some reason))

  abbrev pub Cleared : State → State → Type 0
  Cleared old new =
      (new.file ≡ old.file)
      × (new.tokens ≡ old.tokens)
      × ((new.keychain ≡ old.keychain)
          ⊎ ((new.keychain ≡ old.keychain ++ account ∷ [])
              × ((reason : String) × (O.delete_keychain account ≡ some reason))))
      × Unsaved old new

  -- As before, or with the account too.
  abbrev MayHave : List Uuid → List Uuid → Type 0
  MayHave old new = (new ≡ old) ⊎ (new ≡ old ++ account ∷ [])

  -- What a sign-in leaves that does not end in time, before this is announced.
  abbrev pub Interrupted : State → State → Type 0
  Interrupted old new =
      Completed old new
      ⊎ ((new.broadcast ≡ old.broadcast)
          × (new.file ≡ old.file)
          × MayHave old.tokens new.tokens
          × MayHave old.keychain new.keychain
          × Unsaved old new)

  abbrev pub IsLate : Type 0
  IsLate = (w : Wait) × (O.late w ≡ true)

  abbrev Ends : State → Outcome × State → Type 0
  Ends old (Outcome.finished (ok u), new) = Completed old new
  Ends old (Outcome.finished (err e), new) = (new.broadcast ≡ old.broadcast) × Cleared old new
  Ends old (Outcome.timed_out, new) = IsLate × Interrupted old new

  -- Once the tokens are stored.
  abbrev stored : State → AppConfig → State
  stored old cfg = record old {
    config = cfg;
    tokens = old.tokens ++ account ∷ [];
    keychain = old.keychain ++ account ∷ [];
  }

  abbrev IsNew : State → Type 0
  IsNew old = (contains old.tokens account ≡ false) × (contains old.keychain account ≡ false)

  -- Nothing has happened yet.
  abbrev unchanged : (old : State) → (old.broadcast ≡ old.broadcast) × Cleared old old
  unchanged old = (refl, (refl, refl, inl refl, inl refl))

  -- A failed sign-in is announced, and leaves no token manager, no entry in the keychain unless its
  -- deletion failed, and the file of the configuration as before.
  abbrev pub Refused : State → State → Type 0
  Refused old new =
      ((reason : String) × (new.broadcast
          ≡ old.broadcast ++ DaemonEvent.account_add_failed account reason ∷ []))
      × Cleared old new

  -- A sign-in out of time is announced as failed, over what it had done.
  abbrev pub TimedOut : List (Result Bytes String) → State → State → Type 0
  TimedOut chunks old new =
      ((read_request [] chunks ≡ none) ⊎ IsLate)
      × ((left : State) × (Interrupted old left
            × (new ≡ failed O account url "sign-in timed out" left)))

  abbrev pub Ended : List (Result Bytes String) → State → State → Type 0
  Ended chunks old new = Completed old new ⊎ (Refused old new ⊎ TimedOut chunks old new)
