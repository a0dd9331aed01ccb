-- ===== src/Sdk/State.antt =====
-- crates/grimoire-sdk/src/state.rs: `InMemoryRepository`, as the pairs of its hash map. The keys are
-- the texts that `key_to_string` gives; the order of `list` is that of the map, which is not specified.
use bitsafe.Prelude.{
  ◌≡◌, refl, false, Option, none, some, List, [], ◌∷◌, map, if◌then◌else◌, Bool-cases, inl, inr, ap,
  sym, subst, ◌∙◌,
}
use bitsafe.Prelude.Texts.{Text, text_eq, text_eq_refl, text_eq_sound}

abbrev pub Store : Type 0 → Type 0
Store V = List (Text × V)

module _ {V : Type 0} where
  get : Text → Store V → Option V
  get key [] = none
  get key ((k, v) ∷ store) = let rest = get key store in if text_eq k key then some v else rest

  list : Store V → List V
  list store = map (λ entry. entry.1) store

  remove : Text → Store V → Store V
  remove key [] = []
  remove key ((k, v) ∷ store) =
      let rest = remove key store in if text_eq k key then rest else (k, v) ∷ rest

  set : Text → V → Store V → Store V
  unfolding remove
  set key value store = (key, value) ∷ remove key store

  set_bulk : List (Text × V) → Store V → Store V
  unfolding set
  set_bulk [] store = store
  set_bulk ((key, value) ∷ values) store = set_bulk values (set key value store)

  remove_bulk : List Text → Store V → Store V
  unfolding remove
  remove_bulk [] store = store
  remove_bulk (key ∷ keys) store = remove_bulk keys (remove key store)

  remove_all : Store V → Store V
  remove_all store = []

  get-remove_eq : (key : Text) (store : Store V) → get key (remove key store) ≡ none
  unfolding get remove
  get-remove_eq key [] = refl
  get-remove_eq key ((k, v) ∷ store) = elim (Bool-cases (text_eq k key)) [
    | inl e ↦ rw (e) (get-remove_eq key store)
    | inr e ↦ rw (e, e) (get-remove_eq key store)
  ]

  get-cons :
      (other k : Text) (v : V) (store store' : Store V)
      → get other store ≡ get other store'
      → get other ((k, v) ∷ store) ≡ get other ((k, v) ∷ store')
  unfolding get
  get-cons other k v store store' h = ap (λ rest. if text_eq k other then some v else rest) h

  get-skip :
      (other k : Text) (v : V) (store : Store V)
      → text_eq k other ≡ false
      → get other ((k, v) ∷ store) ≡ get other store
  unfolding get
  get-skip other k v store h = rw (h) refl

  get-remove_ne :
      (key other : Text) (store : Store V)
      → text_eq key other ≡ false
      → get other (remove key store) ≡ get other store
  unfolding remove
  get-remove_ne key other [] h = refl
  get-remove_ne key other ((k, v) ∷ store) h = elim (Bool-cases (text_eq k key)) [
    | inl e ↦
        let differs = subst (λ t. text_eq t other ≡ false) (sym (text_eq_sound k key e)) h in
        rw (e) (get-remove_ne key other store h ∙ sym (get-skip other k v store differs))
    | inr e ↦ rw (e) (get-cons other k v (remove key store) store (get-remove_ne key other store h))
  ]

  -- What was written last is read, and other keys keep their values.
  get-set :
      (key other : Text) (value : V) (store : Store V)
      → text_eq key other ≡ false
      → (get key (set key value store) ≡ some value)
        × (get other (set key value store) ≡ get other store)
  unfolding set
  get-set key other value store h = (
    unfold get in rw (text_eq_refl key) refl,
    get-skip other key value (remove key store) h ∙ get-remove_ne key other store h,
  )
