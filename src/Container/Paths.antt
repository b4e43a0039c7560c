-- ===== src/Container/Paths.antt =====
-- `path.Join` of Go's library, as the worker uses it, and `findSourceForInContainerPath` of
-- borg-collective/internal/drone/worker/container.go.
use borg_collective.Base.{
  ltb, Bool, ◌||◌, Option, none, some, List, [], ◌∷◌, ◌++◌, Bytes, codes, ◌==◌, eqb, if◌then◌else◌,
  length, drop, reverse, has_prefix, ◌≡◌, refl,
}
use borg_collective.Base.Exec.{Outcome, ok, panic}
use borg_collective.Container.Model.{ContainerBackup, Volume}
use borg_collective.Worker.Host.{Host}

-- The elements between slashes, from the last one on; `element` is the one that is read, reversed.
abbrev split_slashes : Bytes → Bytes → List Bytes → List Bytes
split_slashes [] element elements = reverse element ∷ elements
split_slashes (c ∷ path) element elements =
    let slash = eqb c b'/' in
    split_slashes path (if slash then [] else c ∷ element)
      (if slash then reverse element ∷ elements else elements)

-- One element onto the cleaned ones before it, which stand last first.
push_element : Bool → List Bytes → Bytes → List Bytes
push_element rooted [] element =
    if element == [] || element == codes "."
    then []
    else if element == codes ".."
    then (if rooted then [] else element ∷ [])
    else element ∷ []
push_element rooted (top ∷ rest) element =
    if element == [] || element == codes "."
    then top ∷ rest
    else if element == codes ".."
    then (if top == codes ".." then element ∷ top ∷ rest else rest)
    else element ∷ top ∷ rest

push_elements : Bool → List Bytes → List Bytes → List Bytes
push_elements rooted cleaned [] = cleaned
push_elements rooted cleaned (element ∷ elements) =
    push_elements rooted (push_element rooted cleaned element) elements

-- The elements, which stand last first, with slashes between them, before `tail`.
join_slashes : List Bytes → Bytes → Bytes
join_slashes [] tail = tail
join_slashes (element ∷ []) tail = element ++ tail
join_slashes (element ∷ before ∷ rest) tail =
    join_slashes (before ∷ rest) (b'/' ∷ (element ++ tail))

-- `path.Clean`
unfoldable pub path_clean : Bytes → Bytes
unfolding push_element push_elements join_slashes
path_clean path =
    let rooted = has_prefix path (codes "/") in
    let cleaned = join_slashes (push_elements rooted [] (reverse (split_slashes path [] []))) [] in
    if rooted then b'/' ∷ cleaned else if cleaned == [] then codes "." else cleaned

-- `path.Join` of two elements.
unfoldable pub path_join : Bytes → Bytes → Bytes
unfolding path_clean
path_join a b =
    if a == []
    then (if b == [] then [] else path_clean b)
    else if b == []
    then path_clean a
    else path_clean (a ++ b'/' ∷ b)

join_tests : path_join (codes "/srv//data/./x") (codes "../y/") ≡ codes "/srv/data/y"
unfolding path_join has_prefix ◌==◌
join_tests = refl

module _ ⦃H : Host⦄ where
  -- The loop over the volumes. The slice `cPath[len(vol.Destination):]` panics when the destination
  -- is longer than the path.
  unfoldable pub find_in_volumes : List Volume → Bytes → Outcome Bytes (Option Bytes)
  find_in_volumes [] c_path = ok none
  find_in_volumes (vol ∷ volumes) c_path =
      let later = find_in_volumes volumes c_path in
      if has_prefix (H.to_lower vol.destination) (H.to_lower c_path)
      then (if ltb (length c_path) (length vol.destination)
          then panic
          else ok (some (path_join vol.source (drop (length vol.destination) c_path))))
      else later

  -- The last part of `findSourceForInContainerPath`.
  unfoldable pub find_in_upper_dir : ContainerBackup → Bytes → Option Bytes
  find_in_upper_dir ctnr c_path =
      if ctnr.upper_dir_path == []
      then none
      else if has_prefix (H.to_lower ctnr.upper_dir_path) (H.to_lower c_path)
      then some (path_join ctnr.upper_dir_path c_path)
      else none

  unfoldable pub find_source_for_in_container_path :
      ContainerBackup → Bytes → Outcome Bytes (Option Bytes)
  find_source_for_in_container_path ctnr c_path = elim (find_in_volumes ctnr.all_volumes c_path) [
    | ok none ↦ ok (find_in_upper_dir ctnr c_path)
    | other ↦ other
  ]
