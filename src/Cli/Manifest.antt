-- ===== src/Cli/Manifest.antt =====
-- crates/grimoire-cli/src/commands/manifest.rs, and `parse_grimoire_ref` of main.rs. The warning about
-- the permissions of a manifest is left out, and variables and values are valid text without NUL.
pub mod First
use bitsafe.Prelude.{
  ℕ, suc, Bool, true, false, ◌&&◌, ◌||◌, Option, none, some, List, [], ◌∷◌, ◌++◌, leb, ◌==◌,
  if◌then◌else◌,
}
use bitsafe.Prelude.Texts.{Text, text, text_eq, display}
use bitsafe.Prelude.Strings.{strip_prefix, split_once, rsplit_once, lines, trim}
use bitsafe.Prelude.Results.{Result, ok, err, ok_or, reject_if, ◌>>=◌, ◌>>◌}
use bitsafe.Protocol.Request.{VaultRef}
use bitsafe.Cli.Error.{CliError, bail}

-- The process's environment, in the order of `std::env::vars`.
abbrev pub Env : Type 0
Env = List (Text × Text)

unfoldable pub var : Text → Env → Option Text
var key [] = none
var key ((k, v) ∷ env) = if text_eq k key then some v else var key env

unfoldable pub set_var : Text → Text → Env → Env
set_var key value [] = (key, value) ∷ []
set_var key value ((k, v) ∷ env) =
    if text_eq k key then (key, value) ∷ env else (k, v) ∷ set_var key value env

-- `None` for an empty part, or where a part is missing. The field stands behind the last slash.
ref_of : Option (Text × Text) → Option VaultRef
ref_of none = none
ref_of (some ([], field)) = none
ref_of (some (a ∷ id, [])) = none
ref_of (some (a ∷ id, b ∷ field)) = some (record { id = a ∷ id; field = b ∷ field })

unfoldable pub parse_grimoire_ref : Text → Option VaultRef
unfolding ref_of strip_prefix rsplit_once
parse_grimoire_ref value = elim (strip_prefix (text "grimoire:") value) [
  | none ↦ none
  | some rest ↦ ref_of (rsplit_once b'/' rest)
]

pub record ManifestEntry : Type 0 where
  pub key : Text
  pub reference : Text

is_alphabetic : ℕ → Bool
is_alphabetic c = leb b'A' c && leb c b'Z' || leb b'a' c && leb c b'z'

is_name_rest : Text → Bool
unfolding is_alphabetic
is_name_rest [] = true
is_name_rest (c ∷ s) =
    (is_alphabetic c || leb b'0' c && leb c b'9' || (c == b'_')) && is_name_rest s

unfoldable pub is_valid_env_var_name : Text → Bool
unfolding is_alphabetic is_name_rest
is_valid_env_var_name [] = false
is_valid_env_var_name (c ∷ s) = (is_alphabetic c || (c == b'_')) && is_name_rest (c ∷ s)

is_none : Option VaultRef → Bool
is_none none = true
is_none (some r) = false

-- `path:line: message`
at_line : Text → ℕ → Text → CliError
at_line path line message = bail (path ++ (text ":" ++ (display line ++ (text ": " ++ message))))

module _ (path : Text) where
  -- A line that is neither empty nor a comment.
  parse_entry : ℕ → Text → Result CliError ManifestEntry
  unfolding is_none at_line
  parse_entry line trimmed = do
    parts ←
        ok_or (at_line path line (text "invalid format — expected KEY=grimoire://name/field"))
          (split_once b'=' trimmed)
    let key = trim parts.0
    let value = trim parts.1
    reject_if (if is_valid_env_var_name key then false else true)
        (at_line path line (text "invalid environment variable name '" ++ (key ++ text "'")))
    reject_if (is_none (parse_grimoire_ref value)) (
        at_line path line
          (text "value must be a grimoire:// or grimoire: reference, not a plain value"))
    ok (record { key = key; reference = value })

  parse_trimmed : ℕ → Text → Result CliError (List ManifestEntry)
  unfolding parse_entry
  parse_trimmed line [] = ok []
  parse_trimmed line (c ∷ s) =
      if c == b'#' then ok [] else (do entry ← parse_entry line (c ∷ s); ok (entry ∷ []))

  parse_lines : ℕ → List Text → Result CliError (List ManifestEntry)
  unfolding parse_trimmed
  parse_lines line [] = ok []
  parse_lines line (l ∷ ls) = do
    here ← parse_trimmed line (trim l)
    rest ← parse_lines (suc line) ls
    ok (here ++ rest)

-- `contents` is what reading the file gives.
unfoldable pub parse_manifest : Text → Option Text → Result CliError (List ManifestEntry)
unfolding parse_lines lines trim split_once parse_grimoire_ref is_valid_env_var_name
parse_manifest path none = err (bail (text "Failed to read manifest file: " ++ path))
parse_manifest path (some contents) = parse_lines path 1 (lines contents)

-- A variable that is set keeps its value.
apply_entry : ManifestEntry → Option Text → Env → Env
apply_entry entry (some old) env = env
apply_entry entry none env = set_var entry.key entry.reference env

unfoldable pub apply_manifest_entries : List ManifestEntry → Env → Env
unfolding apply_entry
apply_manifest_entries [] env = env
apply_manifest_entries (entry ∷ entries) env =
    apply_manifest_entries entries (apply_entry entry (var entry.key env) env)

-- The loop of `handle_run` over the manifests that it is given, in order.
unfoldable pub apply_manifests : (Text → Option Text) → List Text → Env → Result CliError Env
unfolding parse_manifest apply_manifest_entries
apply_manifests read_file [] env = ok env
apply_manifests read_file (path ∷ paths) env = do
  entries ← parse_manifest path (read_file path)
  apply_manifests read_file paths (apply_manifest_entries entries env)
