-- ===== src/Vault/Listing.antt =====
-- `readAllMetadataUnsafe` of credentials/internal/store/vault/utils.go.
use mathlib.Core.List.{reverse-append}
use mathlib.Core.Path.{subst}
use borg_collective.Base.{
  ◌≡◌, ◌↔◌, refl, sym, ap, ◌∙◌, some, List, [], ◌∷◌, Bytes, ◌==◌, ==_iff, ==_refl, arith, codes,
  filepath_ext, Bool-cases, inl, inr, ◌⊎◌,
}
use borg_collective.Base.Exec.{Outcome-cases, ok}
use borg_collective.Base.Assoc.{Assoc, insert, lookup, lookup-insert}
use borg_collective.Vault.Env.{Env, Backend, Uuid, Item}
use borg_collective.Vault.State.{World}
use borg_collective.Vault.Files.{
  metadata_path, read_item_metadata, read_entry, read_entries, read_all_metadata,
}
use borg_collective.Vault.Frames.{read_entry-frame}
use borg_collective.Vault.Metadata.{
  IsAuthentic, read_item_metadata-IsAuthentic, IsAuthentic-read_item_metadata,
}

abbrev pub Listed : Bytes → List Bytes → Type 0
Listed path [] = ⊥
Listed path (entry ∷ listing) = (path ≡ entry) ⊎ Listed path listing

module _ ⦃E : Env⦄ where
  filepath_ext-metadata_path : (item : Item) → filepath_ext (metadata_path item) ≡ codes ".json"
  unfolding filepath_ext metadata_path
  filepath_ext-metadata_path item = rw (reverse-append (E.uuid_string item.id) (codes ".json"))

  metadata_path-cong : (i j : Item) → i.id ≡ j.id → metadata_path i ≡ metadata_path j
  unfolding metadata_path
  metadata_path-cong i j e = cc

module _ ⦃E : Env⦄ ⦃B : Backend⦄ (secret : Bytes) (w : World) where
  -- Every entry of the map stands under its id and has an authentic, listed file.
  abbrev pub Sound : List Bytes → Assoc Item → Type 0
  Sound listing items =
      (id : Uuid) (item : Item)
      → lookup id items ≡ some item
      → (item.id ≡ id)
        × Listed (metadata_path item) listing
        × IsAuthentic secret (metadata_path item) item w

  read_entry-cases :
      (entry : Bytes) (items items' : Assoc Item)
      → (read_entry secret entry items w).0 ≡ ok items'
      → (items' ≡ items)
        ⊎ ((item : Item) × ((read_item_metadata entry secret w).0 ≡ ok item)
            × (items' ≡ insert item.id item items))
  unfolding read_entry
  read_entry-cases entry items items' h =
      elim (Outcome-cases (read_item_metadata entry secret w).0) [
        | inl (item, e) ↦ elim (Bool-cases (filepath_ext entry == codes ".json")) [
          | inl j ↦ inr (item, e, ground arith)
          | inr j ↦ inl (ground arith)
        ]
        | inr (inl (x, e)) ↦ inl (ground arith)
        | inr (inr (inl e)) ↦ inl (ground arith)
        | inr (inr (inr e)) ↦ inl (ground arith)
      ]

  read_entry-authentic :
      (entry : Bytes) (item : Item) (items : Assoc Item)
      → IsAuthentic secret entry item w
      → (read_entry secret entry items w).0 ≡ ok (insert item.id item items)
  unfolding read_entry
  read_entry-authentic entry item items a = ground (
    arith,
    IsAuthentic-read_item_metadata entry secret item w a,
    filepath_ext-metadata_path item,
    a.named,
    ==_refl (codes ".json"),
  )

  read_entries-inv :
      (entry : Bytes) (listing : List Bytes) (items m : Assoc Item)
      → (read_entries secret (entry ∷ listing) items w).0 ≡ ok m
      → (items' : Assoc Item) × ((read_entry secret entry items w).0 ≡ ok items')
        × ((read_entries secret listing items' w).0 ≡ ok m)
  unfolding read_entries
  read_entries-inv entry listing items m h = ground (arith, read_entry-frame secret entry items w)

  read_entries-nil : (items m : Assoc Item) → (read_entries secret [] items w).0 ≡ ok m → items ≡ m
  unfolding read_entries
  read_entries-nil items m h = cc

  Sound-insert :
      (all : List Bytes) (items : Assoc Item) (entry : Bytes) (item : Item)
      → Sound all items
      → Listed entry all
      → IsAuthentic secret entry item w
      → Sound all (insert item.id item items)
  Sound-insert all items entry item s listed a id other found = elim (Bool-cases (item.id == id)) [
    | inl e ↦
        let same : item ≡ other = ground (arith, lookup-insert item.id id item items) in
        subst
          (λ o.
            (o.id ≡ id) × Listed (metadata_path o) all × IsAuthentic secret (metadata_path o) o w)
          same ((==_iff item.id id).0 e, rw a.named at listed, rw a.named at a)
    | inr e ↦ s id other (ground (arith, lookup-insert item.id id item items))
  ]

  read_entry-Sound :
      (all : List Bytes) (entry : Bytes) (items items' : Assoc Item)
      → Listed entry all
      → Sound all items
      → (read_entry secret entry items w).0 ≡ ok items'
      → Sound all items'
  read_entry-Sound all entry items items' listed s h =
      elim (read_entry-cases entry items items' h) [
        | inl e ↦ subst (Sound all) (sym e) s
        | inr (item, read, e) ↦ subst (Sound all) (sym e) (
            Sound-insert all items entry item s listed
              (read_item_metadata-IsAuthentic entry secret item w read))
      ]

  read_entries-Sound :
      (all listing : List Bytes) (items m : Assoc Item)
      → ((entry : Bytes) → Listed entry listing → Listed entry all)
      → Sound all items
      → (read_entries secret listing items w).0 ≡ ok m
      → Sound all m
  read_entries-Sound all [] items m within s h = subst (Sound all) (read_entries-nil items m h) s
  read_entries-Sound all (entry ∷ listing) items m within s h =
      let (items', step, rest) = read_entries-inv entry listing items m h in
      read_entries-Sound all listing items' m (λ e l. within e (inr l))
        (read_entry-Sound all entry items items' (within entry (inl refl)) s step) rest

  same_item :
      (path : Bytes) (i j : Item)
      → IsAuthentic secret path i w
      → IsAuthentic secret path j w
      → i ≡ j
  same_item path i j a b = cc (
    IsAuthentic-read_item_metadata path secret i w a,
    IsAuthentic-read_item_metadata path secret j w b,
  )

  -- Once found, an authentic item stays.
  read_entry-keeps :
      (entry : Bytes) (item : Item) (items items' : Assoc Item)
      → IsAuthentic secret (metadata_path item) item w
      → lookup item.id items ≡ some item
      → (read_entry secret entry items w).0 ≡ ok items'
      → lookup item.id items' ≡ some item
  read_entry-keeps entry item items items' a found h =
      elim (read_entry-cases entry items items' h) [
        | inl e ↦ rw e found
        | inr (other, read, e) ↦
            let b = read_item_metadata-IsAuthentic entry secret other w read in
            rw (e, lookup-insert)
              (elim (Bool-cases (other.id == item.id)) [
                | inl q ↦
                    let p =
                      b.named ∙ metadata_path-cong other item ((==_iff other.id item.id).0 q) in
                    rw q (ap some (same_item (metadata_path item) other item (rw p at b) a))
                | inr q ↦ rw q found
              ])
      ]

  read_entries-keeps :
      (listing : List Bytes) (item : Item) (items m : Assoc Item)
      → IsAuthentic secret (metadata_path item) item w
      → lookup item.id items ≡ some item
      → (read_entries secret listing items w).0 ≡ ok m
      → lookup item.id m ≡ some item
  read_entries-keeps [] item items m a found h = rw (← read_entries-nil items m h) found
  read_entries-keeps (entry ∷ listing) item items m a found h =
      let (items', step, rest) = read_entries-inv entry listing items m h in
      read_entries-keeps listing item items' m a
        (read_entry-keeps entry item items items' a found step) rest

  read_entries_complete :
      (listing : List Bytes) (item : Item) (items m : Assoc Item)
      → IsAuthentic secret (metadata_path item) item w
      → Listed (metadata_path item) listing
      → (read_entries secret listing items w).0 ≡ ok m
      → lookup item.id m ≡ some item
  read_entries_complete [] item items m a l h = absurd l
  read_entries_complete (entry ∷ listing) item items m a (inl e) h =
      let (items', step, rest) = read_entries-inv entry listing items m h in
      read_entries-keeps listing item items' m a
        (ground (
          arith,
          lookup-insert item.id item.id item items,
          ==_refl item.id,
          read_entry-authentic entry item items (rw e at a),
          step,
        ))
        rest
  read_entries_complete (entry ∷ listing) item items m a (inr l) h =
      let (items', step, rest) = read_entries-inv entry listing items m h in
      read_entries_complete listing item items' m a l rest

  -- If `readAllMetadataUnsafe` returns a map for a listing, the map holds an item under an id
  -- exactly when the item has that id, the file named after the id is listed, and that file is
  -- authentic metadata of the item.
  pub read_all_metadata_iff :
      (listing : List Bytes) (m : Assoc Item) (id : Uuid) (item : Item)
      → B.list_files [] w.files ≡ ok listing
      → (read_all_metadata secret w).0 ≡ ok m
      → (lookup id m ≡ some item) ↔ (
          (item.id ≡ id)
          × Listed (metadata_path item) listing
          × IsAuthentic secret (metadata_path item) item w)
  read_all_metadata_iff listing m id item hl h =
      let h' : (read_entries secret listing [] w).0 ≡ ok m =
        unfold read_all_metadata in ground arith in
      (
        read_entries-Sound listing listing [] m (λ e l. l) (λ i x e. unfold lookup in cc) h' id
            item,
        λ (ids, l, a). rw (← ids) (read_entries_complete listing item [] m a l h'),
      )

  -- Each item that is read stands under its id.
  pub read_all_metadata-ids :
      (m : Assoc Item) (id : Uuid) (item : Item)
      → (read_all_metadata secret w).0 ≡ ok m
      → lookup id m ≡ some item
      → item.id ≡ id
  read_all_metadata-ids m id item h found = elim (Outcome-cases (B.list_files [] w.files)) [
    | inl (listing, e) ↦ ((read_all_metadata_iff listing m id item e h).0 found).0
    | inr (inl (x, e)) ↦ absurd (unfold read_all_metadata in ground arith)
    | inr (inr (inl e)) ↦ absurd (unfold read_all_metadata in ground arith)
    | inr (inr (inr e)) ↦ absurd (unfold read_all_metadata in ground arith)
  ]
