-- ===== src/Cli/Manifest/First.antt =====
-- manifest.rs and main.rs: of several values for a variable, which one it gets.
use bitsafe.Prelude.{
  ◌≡◌, refl, sym, ap, ◌∙◌, inl, inr, Bool, true, false, Option, none, some, List, [], ◌∷◌, ◌++◌,
  Bool-cases, Option-cases, if◌then◌else◌,
}
use bitsafe.Prelude.Texts.{Text, text_eq, text_eq_sound, text_eq_refl}
use bitsafe.Prelude.Results.{Result, ok, >>=-eq-ok, ◌>>=◌}
use bitsafe.Cli.Error.{CliError}
use bitsafe.Cli.Manifest.{
  Env, var, set_var, ManifestEntry, parse_manifest, apply_entry, apply_manifest_entries,
  apply_manifests,
}

-- The first entry for a variable.
abbrev pub first_entry : Text → List ManifestEntry → Option Text
first_entry key [] = none
first_entry key (e ∷ entries) =
    if text_eq e.key key then some e.reference else first_entry key entries

abbrev pub or_first : Option Text → Option Text → Option Text
or_first (some old) later = some old
or_first none later = later

pub var-set_var_self : (key value : Text) (env : Env) → var key (set_var key value env) ≡ some value
unfolding var set_var
var-set_var_self key value [] = rw (text_eq_refl key)
var-set_var_self key value ((k, v) ∷ env) = elim (Bool-cases (text_eq k key)) [
  | inl same ↦ rw (same, text_eq_refl key)
  | inr other ↦ rw (other, other) (var-set_var_self key value env)
]

pub var-set_var_other :
    (key other value : Text) (env : Env)
    → text_eq other key ≡ false
    → var key (set_var other value env) ≡ var key env
unfolding var set_var
var-set_var_other key other value [] ne = rw ne
var-set_var_other key other value ((k, v) ∷ env) ne = elim (Bool-cases (text_eq k other)) [
  | inl same ↦ rw (same, text_eq_sound k other same, ne)
  | inr differs ↦
      rw differs
        (ap (λ t. if text_eq k key then some v else t) (var-set_var_other key other value env ne))
]

var-apply_entry :
    (key : Text) (e : ManifestEntry) (old : Option Text) (env : Env)
    → var e.key env ≡ old
    → var key (apply_entry e old env)
      ≡ or_first (var key env) (if text_eq e.key key then some e.reference else none)
unfolding apply_entry
var-apply_entry key e (some old) env h = elim (Bool-cases (text_eq e.key key)) [
  | inl same ↦
      let e' = ap (λ k. var k env) (text_eq_sound e.key key same) in
      let set : var key env ≡ some old = cc in rw set refl
  | inr other ↦ elim (Option-cases (var key env)) [
    | inl unset ↦ rw (other, unset) refl
    | inr (v, set) ↦ rw set refl
  ]
]
var-apply_entry key e none env h = elim (Bool-cases (text_eq e.key key)) [
  | inl same ↦
      let name = text_eq_sound e.key key same in
      let e' = ap (λ k. var k env) name in
      let unset : var key env ≡ none = cc in
      rw (same, unset) (rw name (var-set_var_self key e.reference env))
  | inr other ↦ elim (Option-cases (var key env)) [
    | inl unset ↦ rw (other, unset) (var-set_var_other key e.key e.reference env other ∙ unset)
    | inr (v, set) ↦ rw set (var-set_var_other key e.key e.reference env other ∙ set)
  ]
]

or_first_cons :
    (old : Option Text) (b : Bool) (v : Text) (later : Option Text)
    → or_first (or_first old (if b then some v else none)) later
      ≡ or_first old (if b then some v else later)
or_first_cons (some o) b v later = refl
or_first_cons none true v later = refl
or_first_cons none false v later = refl

var-apply_entries :
    (key : Text) (entries : List ManifestEntry) (env : Env)
    → var key (apply_manifest_entries entries env)
      ≡ or_first (var key env) (first_entry key entries)
unfolding apply_manifest_entries
var-apply_entries key [] env = elim (Option-cases (var key env)) [
  | inl unset ↦ rw unset refl
  | inr (v, set) ↦ rw set refl
]
var-apply_entries key (e ∷ entries) env =
    var-apply_entries key entries (apply_entry e (var e.key env) env)
    ∙ ap (λ o. or_first o (first_entry key entries))
        (var-apply_entry key e (var e.key env) env refl)
    ∙ or_first_cons (var key env) (text_eq e.key key) e.reference (first_entry key entries)

-- The entries of all manifests, in the order of the manifests.
abbrev pub all_entries : (Text → Option Text) → List Text → Result CliError (List ManifestEntry)
all_entries read_file [] = ok []
all_entries read_file (path ∷ paths) = parse_manifest path (read_file path) >>= λ entries.
    all_entries read_file paths >>= λ rest. ok (entries ++ rest)

first_entry-append :
    (key : Text) (xs ys : List ManifestEntry)
    → first_entry key (xs ++ ys) ≡ or_first (first_entry key xs) (first_entry key ys)
first_entry-append key [] ys = refl
first_entry-append key (e ∷ xs) ys = elim (Bool-cases (text_eq e.key key)) [
  | inl same ↦ rw same refl
  | inr other ↦ rw other (first_entry-append key xs ys)
]

or_first_assoc : (a b c : Option Text) → or_first (or_first a b) c ≡ or_first a (or_first b c)
or_first_assoc (some o) b c = refl
or_first_assoc none b c = refl

-- Where all manifests are read, each variable keeps the value that it had; one that was not set gets
-- that of the first entry for it, the manifests taken in the order in which they are given.
pub var-apply_manifests :
    (read_file : Text → Option Text) (paths : List Text) (env : Env) (entries : List ManifestEntry)
    (key : Text)
    → all_entries read_file paths ≡ ok entries
    → (env' : Env) × (apply_manifests read_file paths env ≡ ok env')
      × (var key env' ≡ or_first (var key env) (first_entry key entries))
unfolding apply_manifests
var-apply_manifests read_file [] env entries key h =
    let same : [] ≡ entries = cc in (env, refl, rw (← same) (var-apply_entries key [] env))
var-apply_manifests read_file (path ∷ paths) env entries key h =
    let (here, parsed, h') =
      >>=-eq-ok (parse_manifest path (read_file path))
        (λ here. all_entries read_file paths >>= λ rest. ok (here ++ rest)) h in
    let (rest, read, last) =
      >>=-eq-ok (all_entries read_file paths) (λ rest. ok (here ++ rest)) h' in
    let same : here ++ rest ≡ entries = cc in
    let (env', applied, e) =
      var-apply_manifests read_file paths (apply_manifest_entries here env) rest key read in
    (
      env',
      rw parsed applied,
      e
          ∙ ap (λ o. or_first o (first_entry key rest)) (var-apply_entries key here env)
          ∙ or_first_assoc (var key env) (first_entry key here) (first_entry key rest)
          ∙ ap (or_first (var key env)) (sym (first_entry-append key here rest))
          ∙ ap (λ es. or_first (var key env) (first_entry key es)) same,
    )
