-- ===== src/Docker/Expanding.antt =====
-- What `expandCmd` of container/docker/docker.go makes of a command.
use borg_collective.Base.{
  ℕ, suc, Bool, true, false, ◌&&◌, not, none, some, List, [], ◌∷◌, ◌++◌, Bytes, eqb, length, ◌≡◌,
  refl, ap, sym, arith, if◌then◌else◌, ltb,
}
use mathlib.Core.List.{append_assoc}
use borg_collective.Base.Exec.{Outcome, ok, err, panic, fatal}
use borg_collective.Base.Assoc.{Assoc, lookup}
use borg_collective.Utils.CommandLine.{is_space}
use borg_collective.Docker.Expand.{
  name_rest, braced_name, replacement, after_second, rune_rest, expansion_at, append_ok,
  expand_from, expand_cmd,
}

abbrev pub has_byte : ℕ → Bytes → Bool
has_byte b [] = false
has_byte b (c ∷ s) = if eqb c b then true else has_byte b s

-- A name that stands in braces: no byte of it is a space or a closing brace.
abbrev pub is_name : Bytes → Bool
is_name [] = true
is_name (c ∷ name) = not (is_space c) && not (eqb c b'}') && is_name name

append_ok_assoc :
    (a b : Bytes) (r : Outcome Bytes Bytes)
    → append_ok (ok a) (append_ok (ok b) r) ≡ append_ok (ok (a ++ b)) r
append_ok_assoc a b (ok s) = ap (λ (t : Bytes). ok t) (sym (append_assoc a b s))
append_ok_assoc a b (err e) = refl
append_ok_assoc a b panic = refl
append_ok_assoc a b fatal = refl

append_ok-nil : (r : Outcome Bytes Bytes) → append_ok (ok []) r ≡ r
append_ok-nil (ok s) = refl
append_ok-nil (err e) = refl
append_ok-nil panic = refl
append_ok-nil fatal = refl

expand_from-kept :
    (env : Assoc Bytes) (start s : Bytes)
    → has_byte b'&' start ≡ false
    → expand_from env 0 (start ++ s) ≡ append_ok (ok start) (expand_from env 0 s)
unfolding expand_from
expand_from-kept env [] s h = ground (arith, append_ok-nil (expand_from env 0 s))
expand_from-kept env (c ∷ start) s h =
    ground
      (arith, h, expand_from-kept env start s, append_ok_assoc (c ∷ []) start (expand_from env 0 s))

expand_from_skips :
    (env : Assoc Bytes) (name s : Bytes)
    → expand_from env (suc (length name)) (name ++ (b'}' ∷ s)) ≡ expand_from env 0 s
unfolding expand_from
expand_from_skips env [] s = refl
expand_from_skips env (c ∷ name) s = expand_from_skips env name s

name_rest-closed :
    (name s : Bytes) → is_name name ≡ true → name_rest (name ++ (b'}' ∷ s)) ≡ some name
unfolding name_rest
name_rest-closed [] s h = refl
name_rest-closed (c ∷ name) s h = ground (arith, name_rest-closed name s, h)

name_rest_open : (s : Bytes) → has_byte b'}' s ≡ false → name_rest s ≡ none
unfolding name_rest
name_rest_open [] h = refl
name_rest_open (c ∷ s) h = ground (arith, name_rest_open s, h)

-- The value of a variable, or the text of the reference where there is none.
abbrev pub value_or : Assoc Bytes → Bytes → Bytes → Bytes
value_or env name text = elim (lookup name env) [ none ↦ text | some value ↦ value ]

replacement-value_or :
    (env : Assoc Bytes) (text name : Bytes)
    → replacement env text name ≡ ok (value_or env name (b'&' ∷ text))
unfolding replacement
replacement-value_or env text name = ground arith

-- `{name}`
abbrev pub braced : Bytes → Bytes
braced name = b'{' ∷ (name ++ (b'}' ∷ []))

braced_name-braced :
    (c : ℕ) (name s : Bytes)
    → is_name (c ∷ name) ≡ true
    → braced_name (b'{' ∷ c ∷ (name ++ (b'}' ∷ s))) ≡ some (c ∷ name)
unfolding braced_name
braced_name-braced c name s h = ground (arith, name_rest-closed name s, h)

braced_name_letter : (c : ℕ) (s : Bytes) → eqb c b'{' ≡ false → braced_name (c ∷ s) ≡ none
unfolding braced_name
braced_name_letter c [] h = refl
braced_name_letter c (d ∷ s) h = ground (arith, h)

braced_name_open : (s : Bytes) → has_byte b'}' s ≡ false → braced_name (b'{' ∷ s) ≡ none
unfolding braced_name
braced_name_open [] h = refl
braced_name_open (c ∷ s) h = ground (arith, name_rest_open s, h)

expand_reference_braced :
    (env : Assoc Bytes) (c : ℕ) (name s : Bytes)
    → is_name (c ∷ name) ≡ true
    → expand_from env 0 (b'&' ∷ b'{' ∷ c ∷ (name ++ (b'}' ∷ s)))
      ≡ append_ok (ok (value_or env (c ∷ name) (b'&' ∷ braced (c ∷ name)))) (expand_from env 0 s)
unfolding expand_from expansion_at
expand_reference_braced env c name s h = ground (
  arith,
  braced_name-braced c name s h,
  replacement-value_or env (braced (c ∷ name)) (c ∷ name),
  expand_from_skips env name s,
)

rune_rest_ascii : (c : ℕ) (s : Bytes) → ltb c 128 ≡ true → rune_rest c s ≡ []
unfolding rune_rest after_second
rune_rest_ascii c [] h = refl
rune_rest_ascii c (d ∷ s) h = ground (arith, h)

expand_reference_letter :
    (env : Assoc Bytes) (c : ℕ) (s : Bytes)
    → is_space c ≡ false
    → eqb c b'{' ≡ false
    → ltb c 128 ≡ true
    → expand_from env 0 (b'&' ∷ c ∷ s)
      ≡ append_ok (ok (value_or env (c ∷ []) (b'&' ∷ c ∷ []))) (expand_from env 0 s)
unfolding expand_from expansion_at
expand_reference_letter env c s space brace ascii = ground (
  arith,
  braced_name_letter c s brace,
  replacement-value_or env (c ∷ []) (c ∷ []),
  space,
  brace,
  rune_rest_ascii c s ascii,
)

expand_reference_open :
    (env : Assoc Bytes) (s : Bytes)
    → has_byte b'}' s ≡ false
    → expand_from env 0 (b'&' ∷ b'{' ∷ s) ≡ panic
unfolding expand_from expansion_at is_space
expand_reference_open env s h = ground (arith, braced_name_open s h)

-- Let a name be not empty, without a space or a closing brace, and with a first byte c that is no
-- opening brace and is ASCII. A reference to it in braces, after a text without ampersands, is replaced by the
-- value of the variable, and stays as it is if there is no such variable. A reference without braces
-- is taken to end after c: it is replaced by the value of the variable that is named by c alone, or
-- stays. In both cases the rest of the argument is then expanded.
pub expand_from-reference :
    (env : Assoc Bytes) (start s : Bytes) (c : ℕ) (name : Bytes)
    → has_byte b'&' start ≡ false
    → is_name (c ∷ name) ≡ true
    → eqb c b'{' ≡ false
    → ltb c 128 ≡ true
    → (expand_from env 0 (start ++ (b'&' ∷ b'{' ∷ c ∷ (name ++ (b'}' ∷ s))))
        ≡ append_ok
            (ok (start ++ value_or env (c ∷ name) (b'&' ∷ braced (c ∷ name))))
            (expand_from env 0 s))
      × (expand_from env 0 (start ++ (b'&' ∷ c ∷ s))
          ≡ append_ok (ok (start ++ value_or env (c ∷ []) (b'&' ∷ c ∷ []))) (expand_from env 0 s))
expand_from-reference env start s c name kept h brace ascii = (
  rw
      (
        expand_from-kept env start (b'&' ∷ b'{' ∷ c ∷ (name ++ (b'}' ∷ s))) kept,
        expand_reference_braced env c name s h,
      )
      (append_ok_assoc start _ (expand_from env 0 s)),
  rw
      (
        expand_from-kept env start (b'&' ∷ c ∷ s) kept,
        expand_reference_letter env c s (ground (arith, h)) brace ascii,
      )
      (append_ok_assoc start _ (expand_from env 0 s)),
)

-- If the first ampersand of an argument is followed by an opening brace and no closing brace comes
-- after it, then the expansion of a command that starts with this argument panics, whatever the
-- variables are.
pub expand_cmd_panics :
    (env : Assoc Bytes) (start s : Bytes) (args : List Bytes)
    → has_byte b'&' start ≡ false
    → has_byte b'}' s ≡ false
    → expand_cmd env ((start ++ (b'&' ∷ b'{' ∷ s)) ∷ args) ≡ panic
unfolding expand_cmd
expand_cmd_panics env start s args kept h =
    ground (arith, expand_from-kept env start (b'&' ∷ b'{' ∷ s) kept, expand_reference_open env s h)
