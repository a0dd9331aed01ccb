-- ===== src/Protocol/Request/Untagged/Shadowed.antt =====
-- request.rs: `VaultTotp` stands behind `VaultGet`, which takes every value that would be one.
use bitsafe.Prelude.{
  ◌≡◌, ◌≢◌, refl, sym, ap, ◌∙◌, true, false, Option, none, some, List, [], ◌∷◌, arith, inl, inr,
  Option-cases,
}
use bitsafe.Prelude.Texts.{Text, text, text_eq, text_eq_sound}
use bitsafe.Protocol.Request.{RequestParams}
use bitsafe.Protocol.Request.Json.{
  Value, null, boolean, number, string, array, object, nil, cons, Fields, stop, field, slots,
  fields_fit, get_field,
}
use bitsafe.Protocol.Request.Untagged.{
  ◌>>=◌, login_of, unlock_of, set_pin_of, vault_list_of, vault_get_of, vault_totp_of,
  resolve_refs_of, ssh_sign_of, empty_of, try_login, try_unlock, try_set_pin, try_vault_list,
  try_vault_get, try_vault_totp, try_resolve_refs, try_ssh_sign, try_empty, deserialize_params,
  required, optional,
}

id_ne_field : text_eq (text "id") (text "field") ≡ false
unfolding text text_eq
id_ne_field = refl

-- An object with no field but `id` fits `{id, field}` too, without the second field.
fields_fit-id :
    (fs : Fields)
    → fields_fit (text "id" ∷ []) fs ≡ true
    → (fields_fit (text "id" ∷ text "field" ∷ []) fs ≡ true) × (get_field (text "field") fs ≡ none)
unfolding fields_fit get_field
fields_fit-id stop h = (refl, refl)
fields_fit-id (field key v rest) h =
    ground (arith, fields_fit-id rest, text_eq_sound key (text "id"), id_ne_field)

slots-id :
    (v : Value) (s : List (Option Value))
    → slots (text "id" ∷ []) v ≡ some s
    → (x : Option Value) × (s ≡ x ∷ [])
      × (slots (text "id" ∷ text "field" ∷ []) v ≡ some (x ∷ none ∷ []))
unfolding slots
slots-id null s h = absurd (cc)
slots-id (boolean b) s h = absurd (cc)
slots-id (number n) s h = absurd (cc)
slots-id (string t) s h = absurd (cc)
slots-id (array nil) s h = (none, ground arith, refl)
slots-id (array (cons v nil)) s h = (some v, ground arith, refl)
slots-id (array (cons v (cons w vs))) s h = absurd (cc)
slots-id (object fs) s h =
    (get_field (text "id") fs, ground (arith, fields_fit-id fs), ground (arith, fields_fit-id fs))

get_of_totp :
    (x : Option Value) (p : RequestParams)
    → vault_totp_of (x ∷ []) ≡ some p
    → (q : RequestParams) × (vault_get_of (x ∷ none ∷ []) ≡ some q)
unfolding vault_totp_of vault_get_of required optional
get_of_totp none p h = absurd (cc)
get_of_totp (some null) p h = absurd (cc)
get_of_totp (some (boolean b)) p h = absurd (cc)
get_of_totp (some (number n)) p h = absurd (cc)
get_of_totp (some (string t)) p h = (_, refl)
get_of_totp (some (array vs)) p h = absurd (cc)
get_of_totp (some (object fs)) p h = absurd (cc)

bind_from :
    (o : Option (List (Option Value))) (f : List (Option Value) → Option RequestParams)
    (p : RequestParams)
    → (o >>= f) ≡ some p
    → (s : List (Option Value)) × (o ≡ some s) × (f s ≡ some p)
bind_from none f p h = absurd (cc)
bind_from (some s) f p h = (s, refl, h)

-- A value that fits `VaultTotp` fits `VaultGet`.
totp_shadowed :
    (v : Value) (p : RequestParams)
    → try_vault_totp v ≡ some p
    → (q : RequestParams) × (try_vault_get v ≡ some q)
unfolding try_vault_totp try_vault_get
totp_shadowed v p h =
    let (s, e, f) = bind_from (slots (text "id" ∷ []) v) vault_totp_of p h in
    let (x, single, pair) = slots-id v s e in
    let (q, g) = get_of_totp x p (ap vault_totp_of (sym single) ∙ f) in
    (q, ap (λ o. o >>= vault_get_of) pair ∙ g)

-- No other variant's struct gives a `VaultTotp`.
login_of-ne :
    (s : List (Option Value)) (id : Text) → login_of s ≢ some (RequestParams.vault_totp id)
unfolding login_of
login_of-ne [] id h = cc
login_of-ne (a ∷ []) id h = cc
login_of-ne (a ∷ b ∷ []) id h = cc
login_of-ne (a ∷ b ∷ c ∷ []) id h = ground arith
login_of-ne (a ∷ b ∷ c ∷ d ∷ r) id h = cc

unlock_of-ne :
    (s : List (Option Value)) (id : Text) → unlock_of s ≢ some (RequestParams.vault_totp id)
unfolding unlock_of
unlock_of-ne [] id h = cc
unlock_of-ne (a ∷ []) id h = ground arith
unlock_of-ne (a ∷ b ∷ r) id h = cc

set_pin_of-ne :
    (s : List (Option Value)) (id : Text) → set_pin_of s ≢ some (RequestParams.vault_totp id)
unfolding set_pin_of
set_pin_of-ne [] id h = cc
set_pin_of-ne (a ∷ []) id h = ground arith
set_pin_of-ne (a ∷ b ∷ r) id h = cc

vault_list_of-ne :
    (s : List (Option Value)) (id : Text) → vault_list_of s ≢ some (RequestParams.vault_totp id)
unfolding vault_list_of
vault_list_of-ne [] id h = cc
vault_list_of-ne (a ∷ []) id h = cc
vault_list_of-ne (a ∷ b ∷ []) id h = ground arith
vault_list_of-ne (a ∷ b ∷ c ∷ r) id h = cc

vault_get_of-ne :
    (s : List (Option Value)) (id : Text) → vault_get_of s ≢ some (RequestParams.vault_totp id)
unfolding vault_get_of
vault_get_of-ne [] id h = cc
vault_get_of-ne (a ∷ []) id h = cc
vault_get_of-ne (a ∷ b ∷ []) id h = ground arith
vault_get_of-ne (a ∷ b ∷ c ∷ r) id h = cc

resolve_refs_of-ne :
    (s : List (Option Value)) (id : Text) → resolve_refs_of s ≢ some (RequestParams.vault_totp id)
unfolding resolve_refs_of
resolve_refs_of-ne [] id h = cc
resolve_refs_of-ne (a ∷ []) id h = ground arith
resolve_refs_of-ne (a ∷ b ∷ r) id h = cc

ssh_sign_of-ne :
    (s : List (Option Value)) (id : Text) → ssh_sign_of s ≢ some (RequestParams.vault_totp id)
unfolding ssh_sign_of
ssh_sign_of-ne [] id h = cc
ssh_sign_of-ne (a ∷ []) id h = cc
ssh_sign_of-ne (a ∷ b ∷ []) id h = cc
ssh_sign_of-ne (a ∷ b ∷ c ∷ []) id h = ground arith
ssh_sign_of-ne (a ∷ b ∷ c ∷ d ∷ r) id h = cc

empty_of-ne :
    (s : List (Option Value)) (id : Text) → empty_of s ≢ some (RequestParams.vault_totp id)
unfolding empty_of
empty_of-ne [] id h = cc
empty_of-ne (a ∷ r) id h = cc

-- A variant gives a `VaultTotp` only if its struct does.
try-ne :
    (o : Option (List (Option Value))) (f : List (Option Value) → Option RequestParams) (id : Text)
    → ((s : List (Option Value)) → f s ≢ some (RequestParams.vault_totp id))
    → (o >>= f) ≢ some (RequestParams.vault_totp id)
try-ne none f id h e = cc
try-ne (some s) f id h e = h s e

no_totp_behind_get : (v : Value) → try_vault_get v ≡ none → try_vault_totp v ≡ none
no_totp_behind_get v h = elim (Option-cases (try_vault_totp v)) [
  | inl e ↦ e
  | inr (p, e) ↦ let (q, g) = totp_shadowed v p e in absurd (cc)
]

vault_get-ne : (v : Value) (id : Text) → try_vault_get v ≢ some (RequestParams.vault_totp id)
unfolding try_vault_get
vault_get-ne v id =
    try-ne (slots (text "id" ∷ text "field" ∷ []) v) vault_get_of id (λ s. vault_get_of-ne s id)

-- No parameters, of whatever JSON, are read as `VaultTotp`.
pub deserialize_params-ne-vault_totp :
    (v : Value) (id : Text) → deserialize_params v ≢ some (RequestParams.vault_totp id)
unfolding deserialize_params try_login try_unlock try_set_pin try_vault_list try_resolve_refs
    try_ssh_sign try_empty
deserialize_params-ne-vault_totp v id h = ground (
  arith,
  try-ne (slots (text "email" ∷ text "password" ∷ text "server_url" ∷ []) v) login_of id
      (λ s. login_of-ne s id),
  try-ne (slots (text "password" ∷ []) v) unlock_of id (λ s. unlock_of-ne s id),
  try-ne (slots (text "pin" ∷ []) v) set_pin_of id (λ s. set_pin_of-ne s id),
  try-ne (slots (text "type" ∷ text "search" ∷ []) v) vault_list_of id (λ s. vault_list_of-ne s id),
  vault_get-ne v id,
  no_totp_behind_get v,
  try-ne (slots (text "refs" ∷ []) v) resolve_refs_of id (λ s. resolve_refs_of-ne s id),
  try-ne (slots (text "key_id" ∷ text "data" ∷ text "flags" ∷ []) v) ssh_sign_of id
      (λ s. ssh_sign_of-ne s id),
  try-ne (slots [] v) empty_of id (λ s. empty_of-ne s id),
)
