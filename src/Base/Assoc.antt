-- ===== src/Base/Assoc.antt =====
-- A Go map with string-like keys, as an association list. Go leaves the order of a map's entries
-- open; here they stand in the order of insertion.
use mathlib.Core.Path.{◌≡◌, refl}
use mathlib.Core.Option.{Option, none, some}
use mathlib.Core.List.{List, [], ◌∷◌}
use native.Mathlib.Omega.{arith}
use borg_collective.Base.ByteString.{Bytes, ◌==◌, ==_iff}
use borg_collective.Base.Tests.{if◌then◌else◌}

abbrev pub Assoc {ℓ} : Type ℓ → Type ℓ
Assoc V = List (Bytes × V)

module _ {ℓ} {V : Type ℓ} where
  -- `v, ok := m[k]`
  unfoldable pub lookup : Bytes → Assoc V → Option V
  lookup name [] = none
  lookup name ((key, value) ∷ rest) =
      let later = lookup name rest in if key == name then some value else later

  -- `m[k] = v`
  unfoldable pub insert : Bytes → V → Assoc V → Assoc V
  insert name new [] = (name, new) ∷ []
  insert name new ((key, old) ∷ rest) =
      let later = insert name new rest in
      if key == name then (name, new) ∷ rest else (key, old) ∷ later

  -- `delete(m, k)`
  unfoldable pub erase : Bytes → Assoc V → Assoc V
  erase name [] = []
  erase name ((key, value) ∷ rest) =
      let later = erase name rest in if key == name then later else (key, value) ∷ later

  -- `maps.Values(m)`
  unfoldable pub values : Assoc V → List V
  values [] = []
  values ((_, v) ∷ m) = v ∷ values m

  -- `maps.Keys(m)`
  unfoldable pub keys : Assoc V → List Bytes
  keys [] = []
  keys ((k, _) ∷ m) = k ∷ keys m

  pub lookup-insert :
      (name other : Bytes) (new : V) (entries : Assoc V)
      → lookup other (insert name new entries)
        ≡ (if name == other then some new else lookup other entries)
  unfolding insert lookup
  lookup-insert name other new [] = refl
  lookup-insert name other new ((key, value) ∷ rest) = ground (
    arith,
    lookup-insert name other new rest,
    ==_iff key name,
    ==_iff key other,
    ==_iff name other,
  )

  pub lookup-erase :
      (name other : Bytes) (entries : Assoc V)
      → lookup other (erase name entries) ≡ (if name == other then none else lookup other entries)
  unfolding erase lookup
  lookup-erase name other [] = ground arith
  lookup-erase name other ((key, value) ∷ rest) =
      ground
        (arith, lookup-erase name other rest, ==_iff key name, ==_iff key other, ==_iff name other)
