-- ===== src/Vault/Slices.antt =====
-- credentials/internal/store/vault/inmemorybackend.go with the byte slices that it shares with its
-- callers: the slices by their addresses, and what callers do with those that they hold.
use borg_collective.Base.{
  ℕ, suc, Bool, true, false, ◌||◌, Option, none, some, List, [], ◌∷◌, Bytes, ==_iff, eqb, ltb,
  if◌then◌else◌, ◌≡◌, refl, arith, Option-cases, Bool-cases, inl, inr,
}
use borg_collective.Base.Exec.{ok}
use borg_collective.Base.Assoc.{Assoc, lookup, insert, erase, lookup-insert, lookup-erase}
use borg_collective.Vault.Memory.{Files, read_memory, write_memory, delete_memory}

-- `content` is what stands at an address; those from `next` on are free. `is_held` tells which slices
-- a caller has. `files` has the address of the slice of each file.
pub record Slices : Type 0 where
  pub content : ℕ → Bytes
  pub next : ℕ
  pub is_held : ℕ → Bool
  pub files : Assoc ℕ

abbrev pub no_slices : Slices
no_slices = record { content = λ a. []; next = 0; is_held = λ a. false; files = [] }

-- `make` and `copy`: a new slice at `next`.
abbrev put_slice : Bytes → Slices → Slices
put_slice bytes s = record s {
  content = λ a. if eqb a s.next then bytes else s.content a;
  next = suc s.next;
}

-- The slice at `next` is for the caller.
abbrev hold_next : ℕ → Slices → Slices
hold_next a s = record s { is_held = λ b. eqb b a || s.is_held b }

unfoldable pub read_slice : Bytes → Slices → Option ℕ × Slices
read_slice path s = elim (lookup path s.files) [
  | none ↦ (none, s)
  | some a ↦ (some s.next, hold_next s.next (put_slice (s.content a) s))
]

unfoldable pub write_slice : Bytes → ℕ → Slices → Slices
write_slice path a s = record (put_slice (s.content a) s) { files = insert path s.next s.files }

unfoldable pub delete_slice : Bytes → Slices → Slices
delete_slice path s = record s { files = erase path s.files }

-- What callers do: make a slice, overwrite one that they hold, as `memguard` wipes it, and call the
-- backend.
pub data Act : Type 0 where
  makes : Bytes → Act
  overwrites : ℕ → Bytes → Act
  reads deletes : Bytes → Act
  writes : Bytes → ℕ → Act

unfoldable pub act : Act → Slices → Slices
act (makes bytes) s = hold_next s.next (put_slice bytes s)
act (overwrites a bytes) s =
    let over = record s { content = λ b. if eqb b a then bytes else s.content b } in
    if s.is_held a then over else s
act (reads path) s = (read_slice path s).1
act (deletes path) s = delete_slice path s
act (writes path a) s = if s.is_held a then write_slice path a s else s

-- The same on files whose bytes are values.
unfoldable pub act_on_values : Act → Slices → Files → Files
act_on_values (makes bytes) s files = files
act_on_values (overwrites a bytes) s files = files
act_on_values (reads path) s files = files
act_on_values (deletes path) s files = (delete_memory path files).1
act_on_values (writes path a) s files =
    if s.is_held a then (write_memory path (s.content a) files).1 else files

unfoldable pub run_acts : List Act → Slices → Files → Slices × Files
run_acts [] s files = (s, files)
run_acts (a ∷ acts) s files = run_acts acts (act a s) (act_on_values a s files)

-- What a caller reads from a file.
abbrev pub bytes_read : Bytes → Slices → Option Bytes
bytes_read path s =
    let (slice, s') = read_slice path s in elim slice [ none ↦ none | some a ↦ some (s'.content a) ]

abbrev file_content : Bytes → Slices → Option Bytes
file_content path s = elim (lookup path s.files) [ none ↦ none | some a ↦ some (s.content a) ]

-- No caller holds the slice of a file, and the slices show the files.
record Shows (s : Slices) (files : Files) : Type 0 where
  pub unheld : (path : Bytes) (a : ℕ) → lookup path s.files ≡ some a → s.is_held a ≡ false
  pub used : (path : Bytes) (a : ℕ) → lookup path s.files ≡ some a → ltb a s.next ≡ true
  pub held : (a : ℕ) → s.is_held a ≡ true → ltb a s.next ≡ true
  pub shown : (path : Bytes) → file_content path s ≡ lookup path files

makes-Shows :
    (bytes : Bytes) (s : Slices) (files : Files)
    → Shows s files
    → Shows (hold_next s.next (put_slice bytes s)) files
makes-Shows bytes s files r = record {
  unheld = λ path a found. ground (arith, r.unheld path a, r.used path a, found);
  used = λ path a found. ground (arith, r.used path a, found);
  held = λ a h. ground (arith, r.held a, h);
  shown = λ path. elim (Option-cases (lookup path s.files)) [
    | inl e ↦ ground (arith, r.shown path, e)
    | inr (a, e) ↦ ground (arith, r.shown path, e, r.used path a)
  ];
}

overwrites-Shows :
    (a : ℕ) (bytes : Bytes) (s : Slices) (files : Files)
    → Shows s files
    → s.is_held a ≡ true
    → Shows (record s { content = λ b. if eqb b a then bytes else s.content b }) files
overwrites-Shows a bytes s files r h = record {
  unheld = r.unheld;
  used = r.used;
  held = r.held;
  shown = λ path. elim (Option-cases (lookup path s.files)) [
    | inl e ↦ ground (arith, r.shown path, e)
    | inr (b, e) ↦ ground (arith, r.shown path, e, r.unheld path b, h)
  ];
}

writes-Shows :
    (path : Bytes) (a : ℕ) (s : Slices) (files : Files)
    → Shows s files
    → Shows (write_slice path a s) (write_memory path (s.content a) files).1
unfolding write_slice write_memory
writes-Shows path a s files r = record {
  unheld = λ other b found.
      ground (arith, lookup-insert path other s.next s.files, r.unheld other b, r.held b, found);
  used = λ other b found.
      ground (arith, lookup-insert path other s.next s.files, r.used other b, found);
  held = λ b h. ground (arith, r.held b, h);
  shown = λ other. elim (Option-cases (lookup other s.files)) [
    | inl e ↦ ground (
      arith,
      lookup-insert path other s.next s.files,
      lookup-insert path other (s.content a) files,
      r.shown other,
      e,
    )
    | inr (b, e) ↦ ground (
      arith,
      lookup-insert path other s.next s.files,
      lookup-insert path other (s.content a) files,
      r.shown other,
      r.used other b,
      e,
    )
  ];
}

deletes-Shows :
    (path : Bytes) (s : Slices) (files : Files)
    → Shows s files
    → Shows (delete_slice path s) (delete_memory path files).1
unfolding delete_slice delete_memory
deletes-Shows path s files r = record {
  unheld =
      λ other b found. ground (arith, lookup-erase path other s.files, r.unheld other b, found);
  used = λ other b found. ground (arith, lookup-erase path other s.files, r.used other b, found);
  held = r.held;
  shown = λ other. ground (
    arith,
    lookup-erase path other s.files,
    lookup-erase path other files,
    r.shown other,
    ==_iff path other,
  );
}

act-Shows :
    (a : Act) (s : Slices) (files : Files)
    → Shows s files
    → Shows (act a s) (act_on_values a s files)
unfolding act act_on_values read_slice
act-Shows (makes bytes) s files r = makes-Shows bytes s files r
act-Shows (overwrites a bytes) s files r = elim (Bool-cases (s.is_held a)) [
  | inl e ↦ rw e (overwrites-Shows a bytes s files r e)
  | inr e ↦ rw e r
]
act-Shows (reads path) s files r = elim (Option-cases (lookup path s.files)) [
  | inl e ↦ rw (e, act) r
  | inr (a, e) ↦ rw (e, act) (makes-Shows (s.content a) s files r)
]
act-Shows (deletes path) s files r = deletes-Shows path s files r
act-Shows (writes path a) s files r = elim (Bool-cases (s.is_held a)) [
  | inl e ↦ rw e (writes-Shows path a s files r)
  | inr e ↦ rw e r
]

run_acts-Shows :
    (acts : List Act) (s : Slices) (files : Files)
    → Shows s files
    → Shows (run_acts acts s files).0 (run_acts acts s files).1
unfolding run_acts
run_acts-Shows [] s files r = r
run_acts-Shows (a ∷ acts) s files r =
    run_acts-Shows acts (act a s) (act_on_values a s files) (act-Shows a s files r)

-- From an empty backend, whatever callers do with it and with the slices that they gave it or got
-- from it, such as wiping them, a read gives the bytes that the backend of values gives after the
-- same calls: those that the last write of the file was given at that time, or none.
pub read_slice-run_acts :
    (acts : List Act) (path : Bytes)
    → let (s, files) = run_acts acts no_slices [] in ok (bytes_read path s) ≡ read_memory path files
unfolding read_slice read_memory lookup
read_slice-run_acts acts path =
    let (s, files) = run_acts acts no_slices [] in
    let empty : Shows no_slices [] = record {
      unheld = λ path a found. refl;
      used = λ path a found. absurd (ground (arith, found));
      held = λ a h. absurd (ground (arith, h));
      shown = λ path. refl;
    } in
    let shows = run_acts-Shows acts no_slices [] empty in
    elim (Option-cases (lookup path s.files)) [
      | inl e ↦ ground (arith, shows.shown path, e)
      | inr (a, e) ↦ ground (arith, shows.shown path, e)
    ]
