-- ===== src/Base/ByteString.antt =====
-- Go's `string` and `[]byte` are both sequences of bytes, and a conversion between them copies
-- the bytes. Both are `Bytes` here. Literals are written through `codes`.
use Prim.Native.Char.{code}
use Prim.Native.Nat.{ℕ, zero, suc, ◌+◌, ◌/◌, ◌%◌, ◌-◌}
use Prim.Native.String.{String}
use mathlib.Core.Path.{◌≡◌, refl}
use mathlib.Core.Logic.{◌↔◌}
use mathlib.Core.Bool.{Bool, true, false, ◌&&◌, ◌||◌}
use mathlib.Core.List.{List, [], ◌∷◌, reverse}
use native.Mathlib.Omega.{arith}
use borg_collective.Base.Tests.{leb, ltb, eqb, if◌then◌else◌}
use borg_collective.Base.Lists.{length}

abbrev pub Bytes : Type 0
Bytes = List ℕ

abbrev pub codes : String → Bytes
codes String.[] = []
codes (String.◌∷◌ letter letters) = code letter ∷ codes letters

infix 50 ◌==◌
-- Equality of strings, and `bytes.Equal`.
unfoldable pub ◌==◌ : Bytes → Bytes → Bool
[] == [] = true
[] == (_ ∷ _) = false
(_ ∷ _) == [] = false
(x ∷ xs) == (y ∷ ys) = eqb x y && xs == ys

pub ==_iff : (a b : Bytes) → ((a == b) ≡ true) ↔ (a ≡ b)
unfolding ◌==◌
==_iff [] [] = (λ _. refl, λ _. refl)
==_iff [] (y ∷ ys) = (λ h. cc, λ h. cc)
==_iff (x ∷ xs) [] = (λ h. cc, λ h. cc)
==_iff (x ∷ xs) (y ∷ ys) = ground (arith, ==_iff xs ys)

pub ==_refl : (a : Bytes) → (a == a) ≡ true
==_refl a = (==_iff a a).1 refl

-- `strings.HasPrefix(s, prefix)`.
unfoldable pub has_prefix : Bytes → Bytes → Bool
has_prefix s [] = true
has_prefix [] (_ ∷ _) = false
has_prefix (x ∷ s) (y ∷ prefix) = eqb x y && has_prefix s prefix

-- `strings.HasSuffix(s, suffix)`.
unfoldable pub has_suffix : Bytes → Bytes → Bool
unfolding has_prefix
has_suffix s suffix = has_prefix (reverse s) (reverse suffix)

-- `strings.Contains(s, sub)` for a separator of one byte.
unfoldable pub contains_byte : ℕ → Bytes → Bool
contains_byte b [] = false
contains_byte b (x ∷ s) = eqb x b || contains_byte b s

-- `strings.ToLower`, on ASCII.
unfoldable pub to_lower : Bytes → Bytes
to_lower [] = []
to_lower (c ∷ s) = (if leb b'A' c && leb c b'Z' then c + 32 else c) ∷ to_lower s

pub length-to_lower : (s : Bytes) → length (to_lower s) ≡ length s
unfolding to_lower
length-to_lower [] = refl
length-to_lower (c ∷ s) = omega (arith, length-to_lower s)

hex_digit : ℕ → ℕ
hex_digit d = if ltb d 10 then b'0' + d else b'a' + (d - 10)

-- `hex.EncodeToString`.
unfoldable pub encode_to_string : Bytes → Bytes
unfolding hex_digit
encode_to_string [] = []
encode_to_string (b ∷ s) = hex_digit (b / 16) ∷ hex_digit (b % 16) ∷ encode_to_string s

-- The digits of `n` before `acc`. A number has fewer digits than the fuel `suc n`.
digits_before : ℕ → ℕ → Bytes → Bytes
digits_before zero n acc = acc
digits_before (suc fuel) n acc =
    let rest = digits_before fuel (n / 10) ((b'0' + n % 10) ∷ acc) in
    if ltb n 10 then (b'0' + n) ∷ acc else rest

-- The verb `%d` for a number that is not negative.
unfoldable pub format_decimal : ℕ → Bytes
unfolding digits_before
format_decimal n = digits_before (suc n) n []

ext_of_reversed : Bytes → Bytes → Bytes
ext_of_reversed [] acc = []
ext_of_reversed (c ∷ s) acc =
    let rest = ext_of_reversed s (c ∷ acc) in
    if eqb c b'/' then [] else if eqb c b'.' then c ∷ acc else rest

-- `filepath.Ext`: the suffix from the last dot of the last path element on, or nothing.
unfoldable pub filepath_ext : Bytes → Bytes
unfolding ext_of_reversed
filepath_ext path = ext_of_reversed (reverse path) []

ext_json : filepath_ext (codes "a.b/ab-1.json") ≡ codes ".json"
unfolding filepath_ext
ext_json = refl

ext_none : filepath_ext (codes "a.b/json") ≡ []
unfolding filepath_ext
ext_none = refl

decimal_test : format_decimal 1700 ≡ codes "1700"
unfolding format_decimal
decimal_test = refl

hex_test : encode_to_string (0 ∷ 255 ∷ 26 ∷ []) ≡ codes "00ff1a"
unfolding encode_to_string
hex_test = refl
