-- ===== src/Utils/CommandLine.antt =====
-- `SplitCommandLine` of borg-collective/internal/utils/utils.go. A match of the expression is found
-- by hand: at each byte the alternatives are tried in their order.
use borg_collective.Base.{
  ℕ, zero, suc, Bool, ◌||◌, ◌&&◌, Option, none, some, List, [], ◌∷◌, ◌++◌, Bytes, eqb,
  if◌then◌else◌, length,
}

-- The class `\s`.
unfoldable pub is_space : ℕ → Bool
is_space c = eqb c 32 || eqb c 9 || eqb c 10 || eqb c 12 || eqb c 13

-- `92` is the backslash.
abbrev pub backslash : ℕ
backslash = 92

abbrev prepend : Bytes → Option Bytes → Option Bytes
prepend start none = none
prepend start (some body) = some (start ++ body)

-- The body of a quoted text, after its first quote: up to the next quote that no backslash stands
-- before, with no newline after a backslash.
unfoldable pub quoted_body : ℕ → Bytes → Option Bytes
quoted_body quote [] = none
quoted_body quote (c ∷ []) = if eqb c quote then some [] else none
quoted_body quote (c ∷ d ∷ s) =
    let plain = prepend (c ∷ []) (quoted_body quote (d ∷ s)) in
    let escaped = prepend (c ∷ d ∷ []) (quoted_body quote s) in
    if eqb c quote
    then some []
    else if eqb c backslash
    then (if eqb d 10 then none else escaped)
    else plain

-- The longest run without spaces.
unfoldable pub word_of : Bytes → Bytes
word_of [] = []
word_of (c ∷ s) = let rest = word_of s in if is_space c then [] else c ∷ rest

-- `strings.ReplaceAll(s, "\c", "c")`
unfoldable pub replace_all : ℕ → Bytes → Bytes
replace_all c [] = []
replace_all c (x ∷ []) = x ∷ []
replace_all c (x ∷ y ∷ s) =
    let kept = x ∷ replace_all c (y ∷ s) in
    let replaced = c ∷ replace_all c s in if eqb x backslash && eqb y c then replaced else kept

unfoldable pub unescape : Bytes → Bytes
unescape s = replace_all b'\'' (replace_all b'"' s)

-- A match: the group that is not empty, if there is one, and the number of bytes after the first.
pub record Match : Type 0 where
  pub word : Option Bytes
  pub more : ℕ

-- An empty group adds nothing to the result.
abbrev pub quoted_match : Bytes → Match
quoted_match [] = record { word = none; more = 1 }
quoted_match (c ∷ body) = record {
  word = some (unescape (c ∷ body));
  more = suc (length (c ∷ body));
}

-- The match at the first byte, which is `c`.
unfoldable pub match_at : ℕ → Bytes → Option Match
match_at c s =
    let word : Option Match =
      if is_space c
      then none
      else some (record { word = some (c ∷ word_of s); more = length (word_of s) }) in
    if eqb c b'"' || eqb c b'\''
    then elim (quoted_body c s) [ some body ↦ some (quoted_match body) | none ↦ word ]
    else word

abbrev pub add_word : Option Bytes → List Bytes → List Bytes
add_word none words = words
add_word (some w) words = w ∷ words

-- The matches from left to right; the first argument counts the bytes of a match that are left.
unfoldable pub split_from : ℕ → Bytes → List Bytes
split_from skip [] = []
split_from (suc skip) (c ∷ s) = split_from skip s
split_from zero (c ∷ s) = elim (match_at c s) [
  | none ↦ split_from 0 s
  | some m ↦ add_word m.word (split_from m.more s)
]

unfoldable pub split_command_line : Bytes → List Bytes
split_command_line input = split_from 0 input
