-- ===== src/Service/Peer/Comm.antt =====
-- peer.rs: a process cannot choose its session by its name.
use bitsafe.Prelude.{
  ℕ, ◌≤◌, ◌<◌, ◌≡◌, ◌≢◌, refl, sym, ap, ◌∙◌, none, some, List, [], ◌∷◌, ◌++◌, arith, All, ==_ne,
  ==_refl,
}
use bitsafe.Prelude.Texts.{Text}
use bitsafe.Prelude.Strings.{rsplit_once, words, parse_u32, white_length, flush}
use bitsafe.Service.Peer.{behind_paren, fourth, parse_field, leader_of_stat}
use mathlib.Core.List.{append_assoc, append-nil}

-- A byte of a field: visible ASCII other than a closing parenthesis.
abbrev pub IsPlain : ℕ → Type 0
IsPlain c = (33 ≤ c) × (c < 128) × (c ≢ 41)

abbrev pub Lacks : ℕ → Text → Type 0
Lacks c = All (λ a. a ≢ c)

rsplit_once-none : (c : ℕ) (s : Text) → Lacks c s → rsplit_once c s ≡ none
unfolding rsplit_once
rsplit_once-none c [] h = refl
rsplit_once-none c (a ∷ s) (h, rest) = rw (rsplit_once-none c s rest, ==_ne a c h)

rsplit_once-append :
    (c : ℕ) (before after : Text)
    → Lacks c after
    → rsplit_once c (before ++ c ∷ after) ≡ some (before, after)
unfolding rsplit_once
rsplit_once-append c [] after h = rw (rsplit_once-none c after h, ==_refl c)
rsplit_once-append c (a ∷ before) after h = rw (rsplit_once-append c before after h)

not_white : (c : ℕ) (s : Text) → IsPlain c → white_length (c ∷ s) ≡ 0
unfolding white_length
not_white c [] h = ground arith
not_white c (d ∷ []) h = ground arith
not_white c (d ∷ e ∷ s) h = ground arith

space : (s : Text) → white_length (32 ∷ s) ≡ 1
unfolding white_length
space [] = refl
space (d ∷ []) = refl
space (d ∷ e ∷ s) = refl

words-space : (cur s : Text) → words 0 cur (32 ∷ s) ≡ flush cur (words 0 [] s)
unfolding words
words-space cur s = rw (space s, words) refl

words-plain :
    (cur : Text) (c : ℕ) (s : Text) → IsPlain c → words 0 cur (c ∷ s) ≡ words 0 (cur ++ c ∷ []) s
unfolding words
words-plain cur c s h = rw (not_white c s h, words) refl

words-append :
    (cur w s : Text) → All IsPlain w → words 0 cur (w ++ 32 ∷ s) ≡ flush (cur ++ w) (words 0 [] s)
words-append cur [] s h =
    words-space cur s ∙ ap (λ t. flush t (words 0 [] s)) (sym (append-nil cur))
words-append cur (c ∷ w) s (h, rest) =
    words-plain cur c (w ++ 32 ∷ s) h
    ∙ words-append (cur ++ c ∷ []) w s rest
    ∙ ap (λ t. flush t (words 0 [] s)) (append_assoc cur (c ∷ []) w)

-- What a field is: not empty, and of plain bytes.
abbrev pub IsField : Text → Type 0
IsField [] = ⊥
IsField (c ∷ w) = All IsPlain (c ∷ w)

flush-cons : (c : ℕ) (w : Text) (ws : List Text) → flush (c ∷ w) ws ≡ (c ∷ w) ∷ ws
unfolding flush
flush-cons c w ws = refl

words-field : (w s : Text) → IsField w → words 0 [] (w ++ 32 ∷ s) ≡ w ∷ words 0 [] s
words-field [] s h = absurd h
words-field (c ∷ w) s h = words-append [] (c ∷ w) s h ∙ flush-cons c w (words 0 [] s)

-- The line as the kernel prints it: what stands between the pid and its name is any text, `) ` included, and a
-- space parts the fields.
abbrev pub stat_line : Text → Text → Text → Text → Text → Text → Text
stat_line before state ppid pgrp session rest =
    before ++ 41 ∷ 32 ∷ (state ++ 32 ∷ (ppid ++ 32 ∷ (pgrp ++ 32 ∷ (session ++ 32 ∷ rest))))

words_after :
    (state ppid pgrp session rest : Text)
    → IsField state
    → IsField ppid
    → IsField pgrp
    → IsField session
    → words 0 [] (32 ∷ (state ++ 32 ∷ (ppid ++ 32 ∷ (pgrp ++ 32 ∷ (session ++ 32 ∷ rest)))))
      ≡ state ∷ ppid ∷ pgrp ∷ session ∷ words 0 [] rest
unfolding flush
words_after state ppid pgrp session rest hs hp hg hq =
    words-space [] (state ++ 32 ∷ (ppid ++ 32 ∷ (pgrp ++ 32 ∷ (session ++ 32 ∷ rest))))
    ∙ words-field state (ppid ++ 32 ∷ (pgrp ++ 32 ∷ (session ++ 32 ∷ rest))) hs
    ∙ ap (λ l. state ∷ l)
        (words-field ppid (pgrp ++ 32 ∷ (session ++ 32 ∷ rest)) hp
          ∙ ap (λ l. ppid ∷ l)
              (words-field pgrp (session ++ 32 ∷ rest) hg
                ∙ ap (λ l. pgrp ∷ l) (words-field session rest hq)))

Lacks-field : (w s : Text) → All IsPlain w → Lacks 41 s → Lacks 41 (w ++ 32 ∷ s)
Lacks-field [] s h hs = ((λ e. omega arith), hs)
Lacks-field (c ∷ w) s ((_, _, h), rest) hs = (h, Lacks-field w s rest hs)

field-IsPlain : (w : Text) → IsField w → All IsPlain w
field-IsPlain [] h = absurd h
field-IsPlain (c ∷ w) h = h

Lacks-after :
    (state ppid pgrp session rest : Text)
    → IsField state
    → IsField ppid
    → IsField pgrp
    → IsField session
    → Lacks 41 rest
    → Lacks 41 (32 ∷ (state ++ 32 ∷ (ppid ++ 32 ∷ (pgrp ++ 32 ∷ (session ++ 32 ∷ rest)))))
Lacks-after state ppid pgrp session rest hs hp hg hq hr = (
  (λ e. omega arith),
  Lacks-field state _ (field-IsPlain state hs) (
      Lacks-field ppid _ (field-IsPlain ppid hp) (
        Lacks-field pgrp _ (field-IsPlain pgrp hg)
          (Lacks-field session rest (field-IsPlain session hq) hr))),
)

-- A process cannot choose its session leader by its name: whatever text `before` holds, closing
-- parentheses and spaces included, `leader_of_stat` reads the session behind the last parenthesis.
-- The four fields are not empty and of visible ASCII without a closing parenthesis, and the rest of
-- the line has no closing parenthesis.
pub leader_of_stat-stat_line :
    (before state ppid pgrp session rest : Text)
    → IsField state
    → IsField ppid
    → IsField pgrp
    → IsField session
    → Lacks 41 rest
    → leader_of_stat (stat_line before state ppid pgrp session rest) ≡ parse_u32 session
unfolding leader_of_stat behind_paren fourth parse_field
leader_of_stat-stat_line before state ppid pgrp session rest hs hp hg hq hr =
    rw
      (
        leader_of_stat,
        behind_paren,
        rsplit_once-append 41 before
            (32 ∷ (state ++ 32 ∷ (ppid ++ 32 ∷ (pgrp ++ 32 ∷ (session ++ 32 ∷ rest)))))
            (Lacks-after state ppid pgrp session rest hs hp hg hq hr),
        words_after state ppid pgrp session rest hs hp hg hq,
      )
      refl
