-- ===== src/Utils/Environment.antt =====
-- `ToMap` and `getParts` of borg-collective/internal/utils/utils.go.
use borg_collective.Base.{
  ℕ, false, some, List, [], ◌∷◌, ◌++◌, Bytes, eqb, if◌then◌else◌, contains_byte, ◌≡◌, refl, arith,
  ◌==◌,
}
use borg_collective.Base.Assoc.{Assoc, insert, lookup, lookup-insert}

-- `strings.SplitN(s, "=", 2)`, with no second part as the empty one.
unfoldable pub split_equals : Bytes → Bytes × Bytes
split_equals [] = ([], [])
split_equals (c ∷ s) =
    let (key, value) = split_equals s in if eqb c b'=' then ([], s) else (c ∷ key, value)

-- The first byte is part of the key, whatever it is.
unfoldable pub get_parts : Bytes → Bytes × Bytes
get_parts [] = ([], [])
get_parts (c ∷ raw) = let (key, value) = split_equals raw in (c ∷ key, value)

unfoldable pub add_entries : List Bytes → Assoc Bytes → Assoc Bytes
add_entries [] result = result
add_entries (raw ∷ env) result =
    let (key, value) = get_parts raw in add_entries env (insert key value result)

unfoldable pub to_map : List Bytes → Assoc Bytes
to_map env = add_entries env []

split_equals_at :
    (key value : Bytes)
    → contains_byte b'=' key ≡ false
    → split_equals (key ++ (b'=' ∷ value)) ≡ (key, value)
unfolding split_equals contains_byte
split_equals_at [] value h = refl
split_equals_at (c ∷ key) value h = ground (arith, split_equals_at key value)

add_entries-append :
    (env more : List Bytes) (m : Assoc Bytes)
    → add_entries (env ++ more) m ≡ add_entries more (add_entries env m)
unfolding add_entries
add_entries-append [] more m = refl
add_entries-append (raw ∷ env) more m =
    let (key, value) = get_parts raw in add_entries-append env more (insert key value m)

-- In the map of an environment that ends with an entry `key=value`, where the key is not empty and
-- has no equals sign after its first byte, that key has that value, and every other key has the value
-- that the entries before give it.
pub lookup-to_map :
    (env : List Bytes) (c : ℕ) (key value other : Bytes)
    → contains_byte b'=' key ≡ false
    → lookup other (to_map (env ++ ((c ∷ key) ++ (b'=' ∷ value)) ∷ []))
      ≡ (if (c ∷ key) == other then some value else lookup other (to_map env))
unfolding to_map
lookup-to_map env c key value other h =
    let parts : get_parts ((c ∷ key) ++ (b'=' ∷ value)) ≡ (c ∷ key, value) =
      unfold get_parts in ground (arith, split_equals_at key value) in
    rw (add_entries-append env (((c ∷ key) ++ (b'=' ∷ value)) ∷ []) [])
      (unfold add_entries in rw parts (lookup-insert (c ∷ key) other value (add_entries env [])))
