-- ===== src/Docker/Entries.antt =====
-- Entries of a Go map that all pass a test, after an insertion, a deletion and a lookup.
use borg_collective.Base.{
  ltb, Bool, true, ◌&&◌, some, [], ◌∷◌, Bytes, ==_iff, length, ◌≡◌, refl, arith,
}
use borg_collective.Base.Assoc.{Assoc, lookup, insert, erase}

abbrev pub every_entry {ℓ} : {V : Type ℓ} → (Bytes → V → Bool) → Assoc V → Bool
every_entry p [] = true
every_entry p ((key, value) ∷ entries) = p key value && every_entry p entries

pub every_entry-insert {ℓ} :
    {V : Type ℓ} (p : Bytes → V → Bool) (key : Bytes) (value : V) (entries : Assoc V)
    → p key value ≡ true
    → every_entry p entries ≡ true
    → every_entry p (insert key value entries) ≡ true
unfolding insert
every_entry-insert p key value [] h hs = ground (arith, h)
every_entry-insert p key value ((k, v) ∷ entries) h hs =
    ground (arith, every_entry-insert p key value entries h, h)

pub every_entry-erase {ℓ} :
    {V : Type ℓ} (p : Bytes → V → Bool) (key : Bytes) (entries : Assoc V)
    → every_entry p entries ≡ true
    → every_entry p (erase key entries) ≡ true
unfolding erase
every_entry-erase p key [] hs = refl
every_entry-erase p key ((k, v) ∷ entries) hs = ground (arith, every_entry-erase p key entries)

pub every_entry-lookup {ℓ} :
    {V : Type ℓ} (p : Bytes → V → Bool) (key : Bytes) (value : V) (entries : Assoc V)
    → every_entry p entries ≡ true
    → lookup key entries ≡ some value
    → p key value ≡ true
unfolding lookup
every_entry-lookup p key value [] hs h = absurd (ground (arith, h))
every_entry-lookup p key value ((k, v) ∷ entries) hs h =
    ground (arith, every_entry-lookup p key value entries, ==_iff k key)

pub length-insert {ℓ} :
    {V : Type ℓ} (key : Bytes) (value : V) (entries : Assoc V)
    → ltb 0 (length (insert key value entries)) ≡ true
unfolding insert
length-insert key value [] = refl
length-insert key value ((k, v) ∷ entries) = ground arith
