-- ===== src/Docker/Expand.antt =====
-- `expandCmd` of container/docker/docker.go. A match of the expression is found by hand; what follows
-- an ampersand alone is one character of UTF-8, where a byte that starts none stands for one. The
-- result is a new list; that the
-- arguments of the caller are overwritten with it is left out.
use borg_collective.Base.{
  ℕ, zero, suc, Option, none, some, List, [], ◌∷◌, ◌++◌, Bytes, eqb, if◌then◌else◌, length, Bool,
  not, ltb, ◌&&◌,
}
use borg_collective.Base.Exec.{Outcome, ok, err, panic, fatal}
use borg_collective.Base.Assoc.{Assoc, lookup}
use borg_collective.Utils.CommandLine.{is_space}

-- The shortest rest of a name before a closing brace; no byte of it is a space.
unfoldable pub name_rest : Bytes → Option Bytes
name_rest [] = none
name_rest (c ∷ s) =
    let more : Option Bytes = elim (name_rest s) [ none ↦ none | some rest ↦ some (c ∷ rest) ] in
    if eqb c b'}' then some [] else if is_space c then none else more

-- The name of `{name}`, which has at least one byte.
unfoldable pub braced_name : Bytes → Option Bytes
braced_name [] = none
braced_name (brace ∷ []) = none
braced_name (brace ∷ c ∷ s) =
    let more : Option Bytes = elim (name_rest s) [ none ↦ none | some rest ↦ some (c ∷ rest) ] in
    if eqb brace b'{' then (if is_space c then none else more) else none

-- The function that replaces a match, given without its ampersand. The slice `s[2 : len(s)-1]` of the
-- match `&{` panics.
unfoldable pub replacement : Assoc Bytes → Bytes → Bytes → Outcome Bytes Bytes
replacement env text name = elim (lookup name env) [
  | some value ↦ ok value
  | none ↦ ok (b'&' ∷ text)
]

-- The number of bytes that follow the second byte of a character of UTF-8 that starts with a byte, if
-- it may have a second one.
unfoldable pub after_second : ℕ → Option ℕ
after_second c =
    if ltb c 194
    then none
    else if ltb c 224
    then some 0
    else if ltb c 240
    then some 1
    else if ltb c 245
    then some 2
    else none

-- Whether a byte may come second; a surrogate, a value that is too large and a form that is too long
-- are no characters.
unfoldable pub is_second : ℕ → ℕ → Bool
is_second c d =
    let least = if eqb c 224 then 160 else if eqb c 240 then 144 else 128 in
    let most = if eqb c 237 then 159 else if eqb c 244 then 143 else 191 in
    not (ltb d least) && not (ltb most d)

unfoldable pub continuation : ℕ → Bytes → Option Bytes
continuation zero s = some []
continuation (suc n) [] = none
continuation (suc n) (c ∷ s) =
    let more : Option Bytes = elim (continuation n s) [ none ↦ none | some t ↦ some (c ∷ t) ] in
    if ltb c 128 then none else if ltb 191 c then none else more

-- The bytes of the character that starts with a byte, after that byte.
unfoldable pub rune_rest : ℕ → Bytes → Bytes
rune_rest c [] = []
rune_rest c (d ∷ s) = elim (after_second c) [
  | none ↦ []
  | some n ↦ elim (continuation n s) [
    | none ↦ []
    | some more ↦ if is_second c d then d ∷ more else []
  ]
]

-- What replaces the match after an ampersand, and the length of the match after it.
unfoldable pub expansion_at : Assoc Bytes → Bytes → Option (Outcome Bytes Bytes × ℕ)
expansion_at env [] = none
expansion_at env (c ∷ s) = elim (braced_name (c ∷ s)) [
  | some name ↦ some (replacement env (b'{' ∷ (name ++ (b'}' ∷ []))) name, suc (suc (length name)))
  | none ↦
      if is_space c
      then none
      else if eqb c b'{'
      then some (panic, 1)
      else let rune = c ∷ rune_rest c s in some (replacement env rune rune, length rune)
]

abbrev pub append_ok : Outcome Bytes Bytes → Outcome Bytes Bytes → Outcome Bytes Bytes
append_ok (ok start) (ok rest) = ok (start ++ rest)
append_ok (ok start) (err e) = err e
append_ok (ok start) panic = panic
append_ok (ok start) fatal = fatal
append_ok (err e) rest = err e
append_ok panic rest = panic
append_ok fatal rest = fatal

-- The matches from left to right; the first number counts the bytes of a match that are left.
unfoldable pub expand_from : Assoc Bytes → ℕ → Bytes → Outcome Bytes Bytes
expand_from env skip [] = ok []
expand_from env (suc skip) (c ∷ s) = expand_from env skip s
expand_from env zero (c ∷ s) =
    let kept = append_ok (ok (c ∷ [])) (expand_from env 0 s) in
    let matched : Outcome Bytes Bytes = elim (expansion_at env s) [
      | none ↦ kept
      | some (value, more) ↦ append_ok value (expand_from env more s)
    ] in
    if eqb c b'&' then matched else kept

unfoldable pub expand_cmd : Assoc Bytes → List Bytes → Outcome Bytes (List Bytes)
expand_cmd env [] = ok []
expand_cmd env (arg ∷ args) = elim (expand_from env 0 arg) [
  | ok expanded ↦ elim (expand_cmd env args) [
    | ok rest ↦ ok (expanded ∷ rest)
    | err e ↦ err e
    | panic ↦ panic
    | fatal ↦ fatal
  ]
  | err e ↦ err e
  | panic ↦ panic
  | fatal ↦ fatal
]
