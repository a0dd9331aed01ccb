-- ===== src/Service/Peer.antt =====
-- crates/grimoire-service/src/peer.rs: the session leader of a process, on Linux. What
-- `/proc/<pid>/stat` holds is a parameter.
pub mod Comm
use bitsafe.Prelude.{ℕ, zero, suc, Option, none, some, List, [], ◌∷◌}
use bitsafe.Prelude.Texts.{Text}
use bitsafe.Prelude.Strings.{rsplit_once, words, parse_u32}

-- `rsplit(')').next()`: what stands behind the last one, or all of it.
behind_paren : Text → Text
behind_paren stat = elim (rsplit_once b')' stat) [ some (before, behind) ↦ behind | none ↦ stat ]

-- `fields.get(3)?`
fourth : List Text → Option Text
fourth (a ∷ b ∷ c ∷ d ∷ rest) = some d
fourth _ = none

parse_field : Option Text → Option ℕ
parse_field none = none
parse_field (some field) = parse_u32 field

pub leader_of_stat : Text → Option ℕ
unfolding behind_paren fourth parse_field words rsplit_once parse_u32
leader_of_stat stat = parse_field (fourth (words 0 [] (behind_paren stat)))

unfoldable pub get_session_leader_linux : (ℕ → Option Text) → ℕ → Option ℕ
unfolding leader_of_stat
get_session_leader_linux read_stat pid = elim (read_stat pid) [
  | none ↦ none
  | some stat ↦ leader_of_stat stat
]
