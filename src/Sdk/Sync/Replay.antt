-- ===== src/Sdk/Sync/Replay.antt =====
-- sync.rs: what a sync returns, which the cache keeps, and how it restores the repository.
use bitsafe.Prelude.{
  ◌≡◌, refl, ap, subst, true, false, Option, none, some, List, [], ◌∷◌, ◌++◌, All, arith,
}
use bitsafe.Prelude.Strings.{trim_end_matches}
use bitsafe.Prelude.Texts.{Text, text}
use bitsafe.Prelude.Results.{Result, ok, err, map_err, ok_or, map_err-eq-ok, ok_or-eq-ok}
use bitsafe.Protocol.Request.Json.{
  Value, null, boolean, number, string, array, object, Items, nil, cons, get_field,
}
use bitsafe.Sdk.{SdkError, sync_failed}
use bitsafe.Sdk.Act.{Act, pure, lift, ◌>>=◌, continue}
use bitsafe.Sdk.Auth.{AuthClient}
use bitsafe.Sdk.Sync.{
  SyncRequest, SyncReply, SyncLibraries, SyncNetwork, patch_cipher_data, store_ciphers,
  populate_from_cache, store_array, sync, cipher_array, values, converted, keep_model, keep_cipher,
  with_id, repository, replace_all, as_array, get, or_else_value, sync_headers, sync_url, refusal,
}
use bitsafe.Sdk.Sync.Patch.{is_object_at, patch_cipher_data_idem, patch_cipher_data-texts}

module _ {P : Type 0} where
  -- What holds of the value and the client behind an action that succeeds.
  abbrev Reaches :
      {A : Type 0} → (A → AuthClient P → Type 0) → Result SdkError A × AuthClient P → Type 0
  Reaches V (ok a, s) = V a s
  Reaches V (err e, s) = Unit

  continue-Reaches :
      {A B : Type 0} (V : B → AuthClient P → Type 0) (r : Result SdkError A)
      (next : A → Act (AuthClient P) B) (s : AuthClient P)
      → ((a : A) → r ≡ ok a → Reaches V (next a s))
      → Reaches V (continue r next s)
  continue-Reaches V (ok a) next s h = h a refl
  continue-Reaches V (err e) next s h = tt

  bind-Reaches :
      {A B : Type 0} (V : B → AuthClient P → Type 0) (r : Result SdkError A)
      (next : A → Act (AuthClient P) B) (s : AuthClient P)
      → ((a : A) → r ≡ ok a → Reaches V (next a s))
      → Reaches V ((lift r >>= next) s)
  unfolding ◌>>=◌
  bind-Reaches V r next s h = continue-Reaches V r next s h

abbrev pub elements : Items → List Value
elements nil = []
elements (cons v vs) = v ∷ elements vs

-- The ciphers in an answer: the array under "ciphers" or, if there is no such key, under "Ciphers".
abbrev pub listed_in : Option Value → Option Value → Option (List Value)
listed_in (some (array items)) upper = some (elements items)
listed_in none (some (array items)) = some (elements items)
listed_in _ _ = none

abbrev pub listed : Value → Option (List Value)
listed (object fields) =
    listed_in (get_field (text "ciphers") fields) (get_field (text "Ciphers") fields)
listed _ = none

elements_lem : (items : Items) → values items ≡ elements items
unfolding values
elements_lem nil = refl
elements_lem (cons v vs) = ap (λ rest. v ∷ rest) (elements_lem vs)

listed_in_lem :
    (lower upper : Option Value) → as_array (or_else_value lower upper) ≡ listed_in lower upper
unfolding as_array or_else_value
listed_in_lem (some (array items)) upper = ap some (elements_lem items)
listed_in_lem (some null) upper = refl
listed_in_lem (some (boolean b)) upper = refl
listed_in_lem (some (number n)) upper = refl
listed_in_lem (some (string s)) upper = refl
listed_in_lem (some (object fields)) upper = refl
listed_in_lem none none = refl
listed_in_lem none (some (array items)) = ap some (elements_lem items)
listed_in_lem none (some null) = refl
listed_in_lem none (some (boolean b)) = refl
listed_in_lem none (some (number n)) = refl
listed_in_lem none (some (string s)) = refl
listed_in_lem none (some (object fields)) = refl

listed_lem : (body : Value) → cipher_array body ≡ listed body
unfolding cipher_array get as_array or_else_value
listed_lem (object fields) =
    listed_in_lem (get_field (text "ciphers") fields) (get_field (text "Ciphers") fields)
listed_lem null = refl
listed_lem (boolean b) = refl
listed_lem (number n) = refl
listed_lem (string s) = refl
listed_lem (array items) = refl

-- The request of a sync.
abbrev pub request_with : Text → Text → SyncRequest
request_with server_url token = record {
  url = trim_end_matches b'/' server_url ++ text "/api/sync";
  headers =
      (text "Authorization", text "Bearer " ++ token)
      ∷ (text "Bitwarden-Client-Name", text "desktop")
      ∷ (text "Bitwarden-Client-Version", text "2025.1.1")
      ∷ (text "Device-Type", text "8")
      ∷ [];
}

module _ {P : Type 0} (l : SyncLibraries P) (s : AuthClient P) where
  -- What of a value goes into the repository: the cipher, under its identifier, if it can be read and
  -- has one.
  abbrev pub entry : Value → List (Text × l.Cipher)
  entry v = elim (l.from_value v) [
    | err e ↦ []
    | ok model ↦ elim (l.try_from model) [
      | err e ↦ []
      | ok cipher ↦ elim (l.id_of cipher) [ none ↦ [] | some id ↦ (id, cipher) ∷ [] ]
    ]
  ]

  abbrev pub entries : List Value → List (Text × l.Cipher)
  entries [] = []
  entries (v ∷ vs) = entry v ++ entries vs

  -- Nothing but the repository changes, which holds these ciphers instead of those before.
  abbrev pub Replaced : List Value → AuthClient P → Type 0
  Replaced raw s' =
      (l.repository s.client ≡ ok tt)
      × ((l.replace_all s.client (entries raw)).0 ≡ ok tt)
      × (s' ≡ record s { client = (l.replace_all s.client (entries raw)).1 })

  converted_lem : (vs : List Value) → converted l vs ≡ entries vs
  unfolding converted keep_model keep_cipher with_id
  converted_lem [] = refl
  converted_lem (v ∷ vs) = ground (arith, converted_lem vs)

  stored-Replaced :
      (raw : List Value) (s' : AuthClient P) → store_ciphers l raw s ≡ (ok tt, s') → Replaced raw s'
  unfolding store_ciphers repository replace_all ◌>>=◌
  stored-Replaced raw s' h = ground (arith, converted_lem raw)

  -- What is made of the ciphers in the answer: with none, nothing is returned and the client is as it
  -- was; else they are returned with their data as text and replace those in the repository,
  -- populating from them leads from `s` to `s'`, and they need no second patch.
  abbrev pub Restores : Option (List Value) → List Value → AuthClient P → Type 0
  Restores none raw s' = (raw ≡ []) × (s' ≡ s)
  Restores (some cs) raw s' =
      (raw ≡ patch_cipher_data l cs)
      × Replaced raw s'
      × (populate_from_cache l raw s ≡ (ok tt, s'))
      × (patch_cipher_data l raw ≡ raw)
      × All (λ c. (is_object_at (text "data") c ≡ false) × (is_object_at (text "Data") c ≡ false))
          raw

  -- The network answered the request with the client's token, the server accepted it, and the
  -- ciphers are those of the answer's body.
  abbrev pub Synced : SyncNetwork → Text → List Value → AuthClient P → Type 0
  Synced network server_url raw s' =
      (token : Text) × (resp : SyncReply) × (body : Value) × (s.access_token ≡ some token)
      × (network (request_with server_url token) ≡ ok resp)
      × (resp.is_success ≡ true)
      × (resp.json ≡ ok body)
      × Restores (listed body) raw s'

  stored-Restores :
      (cs : List Value) (r : Result SdkError (Unit {0})) (s' : AuthClient P)
      → populate_from_cache l (patch_cipher_data l cs) s ≡ (r, s')
      → Reaches (Restores (some cs)) (continue r (λ _. pure (patch_cipher_data l cs)) s')
  unfolding pure populate_from_cache
  stored-Restores cs (ok tt) s' h = (
    refl,
    stored-Replaced (patch_cipher_data l cs) s' h,
    h,
    patch_cipher_data_idem l cs,
    patch_cipher_data-texts l cs,
  )
  stored-Restores cs (err e) s' h = tt

  store_array-Restores : (cs : Option (List Value)) → Reaches (Restores cs) (store_array l cs s)
  unfolding store_array populate_from_cache ◌>>=◌ pure
  store_array-Restores none = (refl, refl)
  store_array-Restores (some cs) =
      let (r, s') = store_ciphers l (patch_cipher_data l cs) s in stored-Restores cs r s' refl

  weaken :
      {V W : List Value → AuthClient P → Type 0} (r : Result SdkError (List Value) × AuthClient P)
      → ((raw : List Value) (s' : AuthClient P) → V raw s' → W raw s')
      → Reaches V r
      → Reaches W r
  weaken (ok raw, s') f h = f raw s' h
  weaken (err e, s') f h = h

  accepted : (resp : SyncReply) → refusal resp ≡ ok tt → resp.is_success ≡ true
  unfolding refusal
  accepted resp h = ground (arith)

  sync-Reaches :
      (network : SyncNetwork) (server_url : Text)
      → Reaches (Synced network server_url) (sync l network server_url s)
  unfolding sync ◌>>=◌ sync_headers sync_url
  sync-Reaches network server_url =
      bind-Reaches V (ok_or (sync_failed (text "No access token")) s.access_token) _ s (λ token ht.
        bind-Reaches V
          (map_err (λ e. sync_failed (text "Sync request failed: " ++ e))
            (network (request_with server_url token)))
          _ s
          (λ resp hr. bind-Reaches V (refusal resp) _ s (λ _ ha.
            bind-Reaches V
              (map_err (λ e. sync_failed (text "Failed to parse sync response: " ++ e)) resp.json) _
              s
              (λ body hb.
                weaken {W = V} (store_array l (cipher_array body) s)
                  (λ raw s' h. (
                    token,
                    resp,
                    body,
                    ok_or-eq-ok _ s.access_token ht,
                    map_err-eq-ok _ (network (request_with server_url token)) hr,
                    accepted resp ha,
                    map_err-eq-ok _ resp.json hb,
                    subst (λ cs. Restores cs raw s') (listed_lem body) h,
                  ))
                  (store_array-Restores (cipher_array body))))))
    where
      V : List Value → AuthClient P → Type 0
      V = Synced network server_url

  -- A sync that succeeds has sent the client's token to the server, which answered with success and
  -- a JSON body. The ciphers that it returns are those of the array in that body, patched so that no
  -- cipher's data is an object. They have replaced those in the SDK's repository, less those that
  -- cannot be read or have no identifier, and they restore the client offline as the sync left it:
  -- populating from them leads to the same client, and they need no second patch. If the body has no such
  -- array, none are returned and the client is left as it was.
  pub sync-Restores :
      (network : SyncNetwork) (server_url : Text) (raw : List Value) (s' : AuthClient P)
      → sync l network server_url s ≡ (ok raw, s')
      → Synced network server_url raw s'
  sync-Restores network server_url raw s' h =
      subst (Reaches (Synced network server_url)) h (sync-Reaches network server_url)
