-- ===== src/Container/Mounts.antt =====
-- `findSourceForInContainerPath` of worker/container.go, on the volumes.
use borg_collective.Base.{
  ltb, true, false, some, List, [], ◌∷◌, Bytes, length, drop, has_prefix, to_lower, length-to_lower,
  ◌≡◌, refl, ◌⊎◌, inl, inr, arith, ap, sym, ◌∙◌, Bool, ◌&&◌, Bool-cases,
}
use borg_collective.Base.Exec.{ok}
use borg_collective.Container.Model.{Volume}
use borg_collective.Worker.Host.{Host}
use borg_collective.Container.Paths.{path_join, find_in_volumes}

has_prefix-eq : (s p : Bytes) → has_prefix s p ≡ true → ltb (length p) (length s) ≡ false → s ≡ p
unfolding has_prefix
has_prefix-eq [] [] h l = refl
has_prefix-eq [] (c ∷ p) h l = absurd (ground (arith, h))
has_prefix-eq (b ∷ s) [] h l = absurd (ground (arith, l))
has_prefix-eq (b ∷ s) (c ∷ p) h l = ground (arith, has_prefix-eq s p)

drop-all : (bytes : Bytes) → drop (length bytes) bytes ≡ []
drop-all [] = refl
drop-all (b ∷ bytes) = drop-all bytes

abbrev pub is_ascii : Bytes → Bool
is_ascii [] = true
is_ascii (c ∷ s) = ltb c 128 && is_ascii s

abbrev pub are_ascii : List Volume → Bool
are_ascii [] = true
are_ascii (vol ∷ volumes) = is_ascii vol.destination && are_ascii volumes

-- Some volume is mounted at the path, upper and lower case apart, and the found source is the
-- volume's own.
abbrev pub MountedAt : List Volume → Bytes → Bytes → Type 0
MountedAt [] c_path found = ⊥
MountedAt (vol ∷ volumes) c_path found =
    ((to_lower vol.destination ≡ to_lower c_path) × (found ≡ path_join vol.source []))
    ⊎ MountedAt volumes c_path found

mounted :
    (vol : Volume) (c_path : Bytes)
    → has_prefix (to_lower vol.destination) (to_lower c_path) ≡ true
    → ltb (length c_path) (length vol.destination) ≡ false
    → (to_lower vol.destination ≡ to_lower c_path) × (drop (length vol.destination) c_path ≡ [])
mounted vol c_path h l =
    let lowered : to_lower vol.destination ≡ to_lower c_path =
      has_prefix-eq _ _ h (rw (length-to_lower c_path, length-to_lower vol.destination) l) in
    let same : length vol.destination ≡ length c_path =
      sym (length-to_lower vol.destination) ∙ ap length lowered ∙ length-to_lower c_path in
    (lowered, rw same (drop-all c_path))

module _ ⦃H : Host⦄ where
  -- What Go documents of `strings.ToLower`, on ASCII text.
  abbrev pub LowersAscii : Type 0
  LowersAscii = (s : Bytes) → is_ascii s ≡ true → H.to_lower s ≡ to_lower s

  -- Let the path and the destinations of the volumes be ASCII. If the loop over the volumes finds a
  -- source for the path, then, apart from upper and lower case, the path is itself the destination of
  -- one of the volumes, and the source is the cleaned source of that volume.
  pub find_in_volumes-MountedAt :
      LowersAscii
      → (volumes : List Volume) (c_path found : Bytes) → is_ascii c_path ≡ true
      → are_ascii volumes ≡ true
      → find_in_volumes volumes c_path ≡ ok (some found)
      → MountedAt volumes c_path found
  unfolding find_in_volumes
  find_in_volumes-MountedAt lowers [] c_path found a all_ascii h = absurd (ground (arith, h))
  find_in_volumes-MountedAt lowers (vol ∷ volumes) c_path found a all_ascii h =
      let here : is_ascii vol.destination ≡ true = ground (arith, all_ascii) in
      let path_lowered = lowers c_path a in
      let lowered = lowers vol.destination here in
      elim (Bool-cases (has_prefix (to_lower vol.destination) (to_lower c_path))) [
        | inl e ↦ inl (ground (arith, mounted vol c_path e, path_lowered, lowered))
        | inr e ↦ inr (
            find_in_volumes-MountedAt lowers volumes c_path found a (ground (arith, all_ascii))
              (ground (arith, h, path_lowered, lowered)))
      ]
