-- ===== src/Service/Unlock.antt =====
-- state.rs: `unlock`, `unlock_from_cache`, `build_cache`, `verify_password` and the vault queries.
pub mod Consistent
pub mod Uris
use bitsafe.Prelude.{ℕ, Bool, true, false, not, Option, none, some, List, [], if◌then◌else◌}
use bitsafe.Prelude.Bytes.{Bytes}
use bitsafe.Prelude.Texts.{Text, text}
use bitsafe.Prelude.Results.{Result, ok, err}
use bitsafe.Protocol.Request.Json.{Value}
use bitsafe.Sdk.{SdkError, auth_failed, vault_locked, not_logged_in, internal}
use bitsafe.Sdk.Cache.{
  VaultCache, CacheEnvelope, is_encrypted, open_cache, verify_hmac, build, unsigned_cache,
  seal_cache,
}
use bitsafe.Sdk.Cache.Floor.{Kdf, CachedKdf, validate_floor, to_kdf, from_kdf}
use bitsafe.Sdk.Client.{
  Client, LoginState, UnlockCacheData, VaultFilter, CipherSummary, CipherDetail,
}
use bitsafe.Sdk.Act.{Act, pure, raise, lift, gets, update, attempt, modify, require, ◌>>=◌, ◌>>◌}
use bitsafe.Service.World.{
  Session, ServiceState, Disk, World, Outside, VaultState, logged_out, locked, unlocked,
  is_unlocked,
}
use bitsafe.Service.State.{new_session, is_some, touch}
use bitsafe.Service.Persist.{read_cache_file, write_cache_file, load_cek}

abbrev pub needed : {A : Type 0} → Option A → Result SdkError A
needed none = err not_logged_in
needed (some a) = ok a

module _ {C : Type 0} where
  unfoldable pub set_client : C → World C → World C
  set_client c w = record w { service = record w.service { sdk = some c } }

  -- A call of the client: it may change it.
  unfoldable pub with_client : {A : Type 0} → (C → Result SdkError A × C) → C → Act (World C) A
  unfolding set_client
  with_client f c w = let (r, c') = f c in (r, set_client c' w)

  -- The fields that both ways to unlock set.
  enter_unlocked : World C → World C
  unfolding touch
  enter_unlocked w = touch (record w {
    service = record w.service { vault_state = unlocked; session = some new_session };
  })

  enter_from_cache : Option ℕ → World C → World C
  unfolding enter_unlocked
  enter_from_cache last_sync w =
      enter_unlocked (record w { service = record w.service { last_sync = last_sync } })

module _ {C : Type 0} (o : Outside C) where
  -- The CEK is used only on an encrypted envelope.
  abbrev cek_for : CacheEnvelope → Option Bytes → Option Bytes
  cek_for envelope cek = if is_encrypted envelope then cek else none

  check_password : VaultCache → Text → Act (World C) (Unit {0})
  check_password cache password_hash = do
    valid ← lift (verify_hmac o.libraries cache password_hash)
    lift (if valid then ok tt else err (auth_failed (text "Wrong master password")))

  -- `unlock_from_cache`, step by step as the code returns.
  pub unlock_from_cache : Text → CacheEnvelope → Act (World C) (Unit {0})
  unfolding check_password
  unlock_from_cache password envelope = do
    client ← gets (λ w. w.service.sdk)
    sdk ← lift (needed client)
    loaded ← gets (λ w. load_cek o w.disk)
    cek ← lift loaded
    cache ← lift (open_cache o.libraries envelope (cek_for envelope cek))
    lift (validate_floor cache.kdf)
    kdf ← lift (to_kdf cache.kdf)
    password_hash ← lift (o.client.derive_password_hash password kdf cache.email)
    check_password cache password_hash
    with_client (λ c. o.client.init_crypto_from_cache c password kdf cache) sdk
    keyed ← gets (λ w. w.service.sdk)
    sdk' ← lift (needed keyed)
    with_client (λ c. o.client.populate_from_cache c cache.ciphers) sdk'
    modify (enter_from_cache cache.last_sync)

  -- The token refresh behind a cache unlock: its result is only logged.
  refresh_with : Text → Option LoginState → Option C → World C → World C
  unfolding set_client
  refresh_with password (some login) (some sdk) w =
      if o.timely
      then set_client (o.client.verify_password sdk login.email password login.server_url).1 w
      else w
  refresh_with password _ _ w = w

  refresh_token : Text → World C → World C
  unfolding refresh_with
  refresh_token password w = refresh_with password w.service.login_state w.service.sdk w

  renew_with : Option Text → World C → World C
  unfolding set_client
  renew_with none w = w
  renew_with (some url) w = set_client (o.client.new url) w

  -- The client is made anew behind a cache unlock that failed.
  renew_client : World C → World C
  unfolding renew_with
  renew_client w = renew_with w.service.server_url w

  -- The CEK of the credential store, generated where there is none.
  ensure_cek : Disk → Option Bytes × Disk
  ensure_cek d =
      if o.keystore
      then elim o.cek_load [
        | some e ↦ (none, d)
        | none ↦ elim d.cek [
          | some key ↦ (some key, d)
          | none ↦ elim o.cek_store [
            | some e ↦ (none, d)
            | none ↦ (some o.random_cek, record d { cek = some o.random_cek })
          ]
        ]
      ]
      else (none, d)

  write_sealed : Result SdkError CacheEnvelope → Disk → Disk
  write_sealed (err e) d = d
  write_sealed (ok envelope) d = write_cache_file o envelope d

  seal_and_write : Result SdkError VaultCache → Disk → Disk
  unfolding ensure_cek write_sealed
  seal_and_write (err e) d = d
  seal_and_write (ok cache) d =
      let (cek, d') = ensure_cek d in
      write_sealed (seal_cache o.libraries cache cek o.random_nonce) d'

  build_for : UnlockCacheData → Kdf → Option Text → Option Text → Disk → Disk
  unfolding seal_and_write
  build_for data' kdf (some email) (some server_url) d =
      seal_and_write
        (build o.libraries
          (unsigned_cache kdf data'.encrypted_user_key data'.encrypted_private_key data'.user_id
            email server_url [] none)
          data'.password_hash)
        d
  build_for data' kdf _ _ d = d

  -- `build_cache` for the data of an online unlock, with no ciphers yet. A failure is only logged.
  pub build_cache : UnlockCacheData → World C → World C
  unfolding build_for
  build_cache data' w = elim (to_kdf (from_kdf data'.kdf)) [
    | err e ↦ w
    | ok kdf ↦ record w { disk = build_for data' kdf w.service.email w.service.server_url w.disk }
  ]

  no_login_state : Option LoginState → Result SdkError LoginState
  no_login_state none = err (internal (text "No login state"))
  no_login_state (some login) = ok login

  pub unlock_online : Text → Act (World C) (Unit {0})
  unfolding no_login_state
  unlock_online password = do
    client ← gets (λ w. w.service.sdk)
    sdk ← lift (needed client)
    login ← gets (λ w. w.service.login_state)
    login_state ← lift (no_login_state login)
    data' ← with_client (λ c. o.client.unlock c password login_state) sdk
    modify enter_unlocked
    modify (build_cache data')

  behind_cache : Text → Result SdkError (Unit {0}) → Act (World C) (Unit {0})
  behind_cache password (ok _) = modify (refresh_token password)
  behind_cache password (err e) = do modify renew_client; unlock_online password

  try_cache : Text → Option CacheEnvelope → Act (World C) (Unit {0})
  unfolding behind_cache
  try_cache password none = unlock_online password
  try_cache password (some envelope) = do
    result ← attempt (unlock_from_cache password envelope)
    behind_cache password result

  abbrev not_locked_error : VaultState → Result SdkError (Unit {0})
  not_locked_error logged_out = err not_logged_in
  not_locked_error unlocked = err (internal (text "Already unlocked"))
  not_locked_error locked = ok tt

  pub unlock : Text → Act (World C) (Unit {0})
  unfolding try_cache
  unlock password = do
    state ← gets (λ w. w.service.vault_state)
    lift (not_locked_error state)
    require (λ w. is_some w.service.sdk) not_logged_in
    file ← gets (λ w. read_cache_file o w.disk)
    cached ← lift file
    try_cache password cached

  -- `verify_password`: against the server, without touching the keys.
  pub verify_password : Text → Act (World C) (Unit {0})
  verify_password password = do
    require (λ w. is_unlocked w.service.vault_state) vault_locked
    client ← gets (λ w. w.service.sdk)
    sdk ← lift (needed client)
    email ← gets (λ w. w.service.email)
    email' ← lift (needed email)
    url ← gets (λ w. w.service.server_url)
    url' ← lift (needed url)
    with_client (λ c. o.client.verify_password c email' password url') sdk

  -- The queries read the client.
  query : {A : Type 0} → (C → Result SdkError A) → Act (World C) A
  query f = do
    require (λ w. is_unlocked w.service.vault_state) vault_locked
    client ← gets (λ w. w.service.sdk)
    sdk ← lift (needed client)
    lift (f sdk)

  pub vault_list : VaultFilter → Act (World C) (List CipherSummary)
  unfolding query
  vault_list filter = query (λ c. o.client.list c filter)

  pub vault_get : Text → Act (World C) CipherDetail
  unfolding query
  vault_get id = query (λ c. o.client.get c id)

  pub vault_totp : Text → Act (World C) Text
  unfolding query
  vault_totp id = query (λ c. o.client.totp c id)
