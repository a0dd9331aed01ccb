-- ===== src/Sdk/Sync/Patch.antt =====
-- sync.rs: a patched cipher needs no second patch.
use bitsafe.Prelude.{
  ◌≡◌, refl, ap, ap₂, ◌∙◌, sym, subst, inl, inr, Bool-cases, Bool, false, Option, none, some, List,
  [], ◌∷◌, if◌then◌else◌, All,
}
use bitsafe.Prelude.Texts.{Text, text, text_eq, text_eq_sound}
use bitsafe.Protocol.Request.Json.{
  Value, null, boolean, number, string, array, object, Fields, stop, field, get_field,
}
use bitsafe.Sdk.Sync.{
  SyncLibraries, is_object, insert, json_of, patch_field, patch_key, patch_cipher,
  patch_cipher_data,
}

get_field-of_key :
    (a key : Text) (v w : Value) (rest : Fields)
    → text_eq key a ≡ false
    → get_field a (field key v rest) ≡ get_field a (field key w rest)
unfolding get_field
get_field-of_key a key v w rest h = rw (h) refl

get_field-cons :
    (a key : Text) (w : Value) (rest rest' : Fields)
    → get_field a rest ≡ get_field a rest'
    → get_field a (field key w rest) ≡ get_field a (field key w rest')
unfolding get_field
get_field-cons a key w rest rest' h = ap (λ v. if text_eq key a then some w else v) h

get_field-insert_ne :
    (a b : Text) (v : Value) (fields : Fields)
    → text_eq b a ≡ false
    → get_field a (insert b v fields) ≡ get_field a fields
unfolding insert get_field
get_field-insert_ne a b v stop h = refl
get_field-insert_ne a b v (field key w rest) h = elim (Bool-cases (text_eq key b)) [
  | inl e ↦
      let other = subst (λ k. text_eq k a ≡ false) (sym (text_eq_sound key b e)) h in
      rw (e) (get_field-of_key a key v w rest other)
  | inr e ↦
      rw (e) (get_field-cons a key w (insert b v rest) rest (get_field-insert_ne a b v rest h))
]

-- A value behind an inserted key is no object where the inserted one is none.
get_field-insert_eq :
    (a : Text) (v : Value) (fields : Fields)
    → is_object (some v) ≡ false
    → is_object (get_field a (insert a v fields)) ≡ false
unfolding insert get_field is_object
get_field-insert_eq a v stop h = refl
get_field-insert_eq a v (field key w rest) h = elim (Bool-cases (text_eq key a)) [
  | inl e ↦ rw (e, e) h
  | inr e ↦ rw (e, e) (get_field-insert_eq a v rest h)
]

-- What the patch of a key establishes.
abbrev pub is_object_at : Text → Value → Bool
is_object_at key (object fields) = is_object (get_field key fields)
is_object_at key _ = false

json_of-not_object : (s : Option Text) → is_object (some (json_of s)) ≡ false
unfolding json_of is_object
json_of-not_object none = refl
json_of-not_object (some s) = refl

module _ {P : Type 0} (l : SyncLibraries P) where
  patch_field-id :
      (key : Text) (fields : Fields) (v : Option Value)
      → is_object v ≡ false
      → patch_field l key fields v ≡ fields
  unfolding patch_field is_object
  patch_field-id key fields none h = refl
  patch_field-id key fields (some null) h = refl
  patch_field-id key fields (some (boolean b)) h = refl
  patch_field-id key fields (some (number n)) h = refl
  patch_field-id key fields (some (string s)) h = refl
  patch_field-id key fields (some (array items)) h = refl
  patch_field-id key fields (some (object inner)) h = absurd (cc)

  patch_field-eq :
      (key : Text) (fields : Fields) (v : Option Value)
      → get_field key fields ≡ v
      → is_object (get_field key (patch_field l key fields v)) ≡ false
  unfolding patch_field is_object
  patch_field-eq key fields (some (object inner)) h =
      get_field-insert_eq key (json_of (l.to_string (object inner))) fields
        (json_of-not_object (l.to_string (object inner)))
  patch_field-eq key fields none h = rw (h) refl
  patch_field-eq key fields (some null) h = rw (h) refl
  patch_field-eq key fields (some (boolean b)) h = rw (h) refl
  patch_field-eq key fields (some (number n)) h = rw (h) refl
  patch_field-eq key fields (some (string s)) h = rw (h) refl
  patch_field-eq key fields (some (array items)) h = rw (h) refl

  patch_field-ne :
      (a b : Text) (fields : Fields) (v : Option Value)
      → text_eq b a ≡ false
      → get_field a (patch_field l b fields v) ≡ get_field a fields
  unfolding patch_field
  patch_field-ne a b fields (some (object inner)) h =
      get_field-insert_ne a b (json_of (l.to_string (object inner))) fields h
  patch_field-ne a b fields none h = refl
  patch_field-ne a b fields (some null) h = refl
  patch_field-ne a b fields (some (boolean _)) h = refl
  patch_field-ne a b fields (some (number n)) h = refl
  patch_field-ne a b fields (some (string s)) h = refl
  patch_field-ne a b fields (some (array items)) h = refl

  patch_key-id : (key : Text) (v : Value) → is_object_at key v ≡ false → patch_key l key v ≡ v
  unfolding patch_key
  patch_key-id key (object fields) h =
      ap object (patch_field-id key fields (get_field key fields) h)
  patch_key-id key null h = refl
  patch_key-id key (boolean b) h = refl
  patch_key-id key (number n) h = refl
  patch_key-id key (string s) h = refl
  patch_key-id key (array items) h = refl

  patch_key-eq : (key : Text) (v : Value) → is_object_at key (patch_key l key v) ≡ false
  unfolding patch_key
  patch_key-eq key (object fields) = patch_field-eq key fields (get_field key fields) refl
  patch_key-eq key null = refl
  patch_key-eq key (boolean b) = refl
  patch_key-eq key (number n) = refl
  patch_key-eq key (string s) = refl
  patch_key-eq key (array items) = refl

  patch_key-ne :
      (a b : Text) (v : Value)
      → text_eq b a ≡ false
      → is_object_at a (patch_key l b v) ≡ is_object_at a v
  unfolding patch_key
  patch_key-ne a b (object fields) h =
      ap is_object (patch_field-ne a b fields (get_field b fields) h)
  patch_key-ne a b null h = refl
  patch_key-ne a b (boolean _) h = refl
  patch_key-ne a b (number n) h = refl
  patch_key-ne a b (string s) h = refl
  patch_key-ne a b (array items) h = refl

  names_differ : text_eq (text "Data") (text "data") ≡ false
  unfolding text text_eq
  names_differ = refl

  patch_cipher_idem : (c : Value) → patch_cipher l (patch_cipher l c) ≡ patch_cipher l c
  unfolding patch_cipher
  patch_cipher_idem c =
      let lower = patch_key l (text "data") c in
      let upper = patch_key l (text "Data") lower in
      let lower_done =
        patch_key-ne (text "data") (text "Data") lower names_differ
        ∙ patch_key-eq (text "data") c in
      ap (patch_key l (text "Data")) (patch_key-id (text "data") upper lower_done)
      ∙ patch_key-id (text "Data") upper (patch_key-eq (text "Data") lower)

  pub patch_cipher_data_idem :
      (cs : List Value) → patch_cipher_data l (patch_cipher_data l cs) ≡ patch_cipher_data l cs
  unfolding patch_cipher_data
  patch_cipher_data_idem [] = refl
  patch_cipher_data_idem (c ∷ cs) =
      ap₂ (λ v vs. v ∷ vs) (patch_cipher_idem c) (patch_cipher_data_idem cs)

  patch_cipher-texts :
      (c : Value)
      → (is_object_at (text "data") (patch_cipher l c) ≡ false)
        × (is_object_at (text "Data") (patch_cipher l c) ≡ false)
  unfolding patch_cipher
  patch_cipher-texts c =
      let lower = patch_key l (text "data") c in
      (
        patch_key-ne (text "data") (text "Data") lower names_differ ∙ patch_key-eq (text "data") c,
        patch_key-eq (text "Data") lower,
      )

  -- In a patched cipher the data are no object under either key.
  pub patch_cipher_data-texts :
      (cs : List Value)
      → All
          (λ c. (is_object_at (text "data") c ≡ false) × (is_object_at (text "Data") c ≡ false))
          (patch_cipher_data l cs)
  unfolding patch_cipher_data
  patch_cipher_data-texts [] = tt
  patch_cipher_data-texts (c ∷ cs) = (patch_cipher-texts c, patch_cipher_data-texts cs)
