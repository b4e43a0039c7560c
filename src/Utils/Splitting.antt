-- ===== src/Utils/Splitting.antt =====
-- `SplitCommandLine` of borg-collective/internal/utils/utils.go on quoted words.
use borg_collective.Base.{
  ℕ, suc, Bool, true, false, not, ◌&&◌, none, some, List, [], ◌∷◌, ◌++◌, Bytes, eqb, if◌then◌else◌,
  length, length-append, contains_byte, ◌≡◌, refl, ap, ◌∙◌, arith, Bool-cases, inl, inr,
}
use mathlib.Core.List.{append_assoc}
use borg_collective.Utils.CommandLine.{
  Match, add_word, is_space, backslash, quoted_body, replace_all, unescape, quoted_match, match_at,
  split_from, split_command_line,
}

-- A word with a backslash before each double quote.
abbrev pub escape : Bytes → Bytes
escape [] = []
escape (c ∷ word) = if eqb c b'"' then backslash ∷ c ∷ escape word else c ∷ escape word

-- Each word in double quotes, and a space after it.
abbrev pub print_words : List Bytes → Bytes
print_words [] = []
print_words (word ∷ words) = b'"' ∷ (escape word ++ (b'"' ∷ 32 ∷ print_words words))

abbrev pub are_printable : List Bytes → Bool
are_printable [] = true
are_printable ([] ∷ words) = false
are_printable ((c ∷ word) ∷ words) = not (contains_byte backslash (c ∷ word)) && are_printable words

quoted_body-plain :
    (quote c : ℕ) (s : Bytes)
    → eqb c quote ≡ false
    → eqb c backslash ≡ false
    → quoted_body quote (c ∷ s)
      ≡ (elim (quoted_body quote s) [ none ↦ none | some body ↦ some (c ∷ body) ])
unfolding quoted_body
quoted_body-plain quote c [] h k = ground arith
quoted_body-plain quote c (d ∷ s) h k = ground arith

quoted_body-escaped :
    (s : Bytes)
    → quoted_body b'"' (backslash ∷ b'"' ∷ s)
      ≡ (elim (quoted_body b'"' s) [ none ↦ none | some body ↦ some (backslash ∷ b'"' ∷ body) ])
unfolding quoted_body
quoted_body-escaped s = ground arith

quoted_body-escape :
    (word rest : Bytes)
    → contains_byte backslash word ≡ false
    → quoted_body b'"' (escape word ++ (b'"' ∷ 32 ∷ rest)) ≡ some (escape word)
unfolding contains_byte
quoted_body-escape [] rest h = unfold quoted_body in refl
quoted_body-escape (c ∷ word) rest h = step (quoted_body-escape word rest (ground (arith, h)))
  where
    step :
        quoted_body b'"' (escape word ++ (b'"' ∷ 32 ∷ rest)) ≡ some (escape word)
        → quoted_body b'"' (escape (c ∷ word) ++ (b'"' ∷ 32 ∷ rest)) ≡ some (escape (c ∷ word))
    step ih = elim (Bool-cases (eqb c b'"')) [
      | inl e ↦ ground (arith, quoted_body-escaped (escape word ++ (b'"' ∷ 32 ∷ rest)), ih, e)
      | inr e ↦ ground (arith, quoted_body-plain b'"' c (escape word ++ (b'"' ∷ 32 ∷ rest)), ih, e)
    ]

replace_all-plain :
    (c x : ℕ) (s : Bytes) → eqb x backslash ≡ false → replace_all c (x ∷ s) ≡ x ∷ replace_all c s
unfolding replace_all
replace_all-plain c x [] h = refl
replace_all-plain c x (y ∷ s) h = ground arith

replace_all-escape :
    (word : Bytes) → contains_byte backslash word ≡ false → replace_all b'"' (escape word) ≡ word
unfolding contains_byte
replace_all-escape [] h = unfold replace_all in refl
replace_all-escape (c ∷ word) h = step (replace_all-escape word (ground (arith, h)))
  where
    step : replace_all b'"' (escape word) ≡ word → replace_all b'"' (escape (c ∷ word)) ≡ c ∷ word
    step ih = elim (Bool-cases (eqb c b'"')) [
      | inl e ↦ unfold replace_all in ground (arith, ih, e)
      | inr e ↦ ground (arith, replace_all-plain b'"' c (escape word), ih, e)
    ]

replace_all_id :
    (c : ℕ) (word : Bytes) → contains_byte backslash word ≡ false → replace_all c word ≡ word
unfolding contains_byte
replace_all_id c [] h = unfold replace_all in refl
replace_all_id c (x ∷ word) h = ground (arith, replace_all-plain c x word, replace_all_id c word)

unescape-escape :
    (word : Bytes) → contains_byte backslash word ≡ false → unescape (escape word) ≡ word
unfolding unescape
unescape-escape word h =
    ap (replace_all b'\'') (replace_all-escape word h) ∙ replace_all_id b'\'' word h

split_from_skip :
    (match rest : Bytes) → split_from (length match) (match ++ rest) ≡ split_from 0 rest
unfolding split_from
split_from_skip [] rest = refl
split_from_skip (c ∷ match) rest = split_from_skip match rest

quoted_match-escape :
    (c : ℕ) (word : Bytes)
    → contains_byte backslash (c ∷ word) ≡ false
    → quoted_match (escape (c ∷ word))
      ≡ record { word = some (c ∷ word); more = suc (length (escape (c ∷ word))) }
quoted_match-escape c word h = elim (Bool-cases (eqb c b'"')) [
  | inl e ↦ ground (arith, unescape-escape (c ∷ word) h, e)
  | inr e ↦ ground (arith, unescape-escape (c ∷ word) h, e)
]

match_at-escape :
    (c : ℕ) (word rest : Bytes)
    → contains_byte backslash (c ∷ word) ≡ false
    → match_at b'"' (escape (c ∷ word) ++ (b'"' ∷ 32 ∷ rest))
      ≡ some (record { word = some (c ∷ word); more = suc (length (escape (c ∷ word))) })
unfolding match_at
match_at-escape c word rest h =
    rw (quoted_body-escape (c ∷ word) rest h) (ap some (quoted_match-escape c word h))

split_after_quoted :
    (body rest : Bytes)
    → split_from (suc (length body)) (body ++ (b'"' ∷ 32 ∷ rest)) ≡ split_from 0 (32 ∷ rest)
split_after_quoted body rest =
    let e : length (body ++ (b'"' ∷ [])) ≡ suc (length body) =
      omega (arith, length-append body (b'"' ∷ [])) in
    rw (← e, ← append_assoc body (b'"' ∷ []) (32 ∷ rest))
      (split_from_skip (body ++ (b'"' ∷ [])) (32 ∷ rest))

split_from-match_at :
    (c : ℕ) (s : Bytes) (m : Match)
    → match_at c s ≡ some m
    → split_from 0 (c ∷ s) ≡ add_word m.word (split_from m.more s)
unfolding split_from
split_from-match_at c s m h = ground arith

split_from-quoted :
    (c : ℕ) (word rest : Bytes)
    → contains_byte backslash (c ∷ word) ≡ false
    → split_from 0 (b'"' ∷ (escape (c ∷ word) ++ (b'"' ∷ 32 ∷ rest)))
      ≡ (c ∷ word) ∷ split_from 0 (32 ∷ rest)
split_from-quoted c word rest h =
    split_from-match_at b'"' (escape (c ∷ word) ++ (b'"' ∷ 32 ∷ rest)) _
      (match_at-escape c word rest h)
    ∙ ap (◌∷◌ (c ∷ word)) (split_after_quoted (escape (c ∷ word)) rest)

-- Words that are not empty and hold no backslash are split into themselves when each is written in
-- double quotes, with a backslash before its own double quotes and a space after it.
pub split_command_line-print_words :
    (words : List Bytes)
    → are_printable words ≡ true
    → split_command_line (print_words words) ≡ words
unfolding split_command_line
split_command_line-print_words [] h = unfold split_from in refl
split_command_line-print_words ([] ∷ words) h = absurd (ground (arith, h))
split_command_line-print_words ((c ∷ word) ∷ words) h =
    let ih = split_command_line-print_words words (ground (arith, h)) in
    split_from-quoted c word (print_words words) (ground (arith, h))
    ∙ ap (◌∷◌ (c ∷ word)) (space_skipped ∙ ih)
  where
    space_skipped : split_from 0 (32 ∷ print_words words) ≡ split_from 0 (print_words words)
    space_skipped = unfold split_from match_at is_space in refl
