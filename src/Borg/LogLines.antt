-- ===== src/Borg/LogLines.antt =====
-- The loop of `parseLogLines` in borg/api/run.go.
use borg_collective.Base.{
  ℕ, zero, suc, ◌<◌, Bool, true, false, ◌&&◌, none, some, List, [], ◌∷◌, ◌++◌, Bytes, if◌then◌else◌,
  contains_byte, length, ◌≡◌, refl, ap, ◌∙◌, sym, arith, ◌==◌, Option-cases, inl, inr,
}
use mathlib.Core.List.{append_assoc, append-nil}
use borg_collective.Borg.Api.{LogMessage, Borg}
use borg_collective.Borg.Run.{contains, cut_line, parse_line, add_line, parse_log_lines}

-- Lines, each with its newline.
abbrev pub unlines : List Bytes → Bytes
unlines [] = []
unlines (line ∷ lines) = line ++ (10 ∷ unlines lines)

abbrev pub are_lines : List Bytes → Bool
are_lines [] = true
are_lines (line ∷ lines) = (if contains_byte 10 line then false else true) && are_lines lines

cut_line-line :
    (line rest : Bytes)
    → contains_byte 10 line ≡ false
    → cut_line (line ++ (10 ∷ rest)) ≡ (line, rest)
unfolding cut_line contains_byte
cut_line-line [] rest h = refl
cut_line-line (c ∷ line) rest h =
    ground (arith, cut_line-line line rest, contains_byte-append line rest)
  where
    contains_byte-append : (line rest : Bytes) → contains_byte 10 (line ++ (10 ∷ rest)) ≡ true
    contains_byte-append [] rest = refl
    contains_byte-append (c ∷ line) rest = ground (arith, contains_byte-append line rest)

cut_line_open :
    (stderr : Bytes) → contains_byte 10 stderr ≡ false → cut_line stderr ≡ (stderr, stderr)
unfolding cut_line contains_byte
cut_line_open [] h = refl
cut_line_open (c ∷ stderr) h = ground (arith, cut_line_open stderr)

module _ ⦃B : Borg⦄ where
  -- The messages of the lines that hold one, in their order.
  abbrev pub messages_of : List Bytes → List (LogMessage B.Float)
  messages_of [] = []
  messages_of (line ∷ lines) = elim (parse_line line) [
    | none ↦ messages_of lines
    | some m ↦ m ∷ messages_of lines
  ]

  parse_log_lines-cons :
      (fuel : ℕ) (line rest : Bytes) (result : List (LogMessage B.Float))
      → contains_byte 10 line ≡ false
      → parse_log_lines (suc fuel) (line ++ (10 ∷ rest)) result
        ≡ parse_log_lines fuel rest (add_line line result)
  unfolding parse_log_lines
  parse_log_lines-cons fuel [] rest result h = rw (cut_line-line [] rest h)
  parse_log_lines-cons fuel (c ∷ line) rest result h = rw (cut_line-line (c ∷ line) rest h)

  parse_line_empty : parse_line [] ≡ none
  unfolding parse_line contains ◌==◌
  parse_line_empty = refl

  add_line-messages :
      (line : Bytes) (lines : List Bytes) (result : List (LogMessage B.Float))
      → add_line line result ++ messages_of lines ≡ result ++ messages_of (line ∷ lines)
  add_line-messages [] lines result = ground (arith, parse_line_empty)
  add_line-messages (c ∷ line) lines result = elim (Option-cases (parse_line (c ∷ line))) [
    | inl e ↦ ground (arith, e)
    | inr (m, e) ↦ ground (arith, e, append_assoc result (m ∷ []) (messages_of lines))
  ]

  -- On output whose lines all end, the loop comes to an end within one round for each line and one
  -- more, and its result is the messages of the lines that hold one, in their order.
  pub parse_log_lines-unlines :
      (lines : List Bytes) (result : List (LogMessage B.Float)) (fuel : ℕ)
      → are_lines lines ≡ true
      → length lines < fuel
      → parse_log_lines fuel (unlines lines) result ≡ some (result ++ messages_of lines)
  parse_log_lines-unlines lines result zero a h = absurd (omega arith)
  parse_log_lines-unlines [] result (suc fuel) a h =
      unfold parse_log_lines in ap some (sym (append-nil result))
  parse_log_lines-unlines (line ∷ lines) result (suc fuel) a h =
      parse_log_lines-cons fuel line (unlines lines) result (ground (arith, a))
      ∙ parse_log_lines-unlines lines (add_line line result) fuel (ground (arith, a)) (omega arith)
      ∙ ap some (add_line-messages line lines result)

  parse_log_lines_stuck :
      (fuel c : ℕ) (last : Bytes) (result : List (LogMessage B.Float))
      → contains_byte 10 (c ∷ last) ≡ false
      → parse_log_lines fuel (c ∷ last) result ≡ none
  unfolding parse_log_lines
  parse_log_lines_stuck zero c last result h = refl
  parse_log_lines_stuck (suc fuel) c last result h =
      rw (cut_line_open (c ∷ last) h) (parse_log_lines_stuck fuel c last _ h)

  -- On output that goes on after its last newline the loop never ends: no fuel is enough.
  pub parse_log_lines_unending :
      (lines : List Bytes) (c : ℕ) (last : Bytes) (result : List (LogMessage B.Float)) (fuel : ℕ)
      → are_lines lines ≡ true
      → contains_byte 10 (c ∷ last) ≡ false
      → parse_log_lines fuel (unlines lines ++ (c ∷ last)) result ≡ none
  parse_log_lines_unending [] c last result fuel a h = parse_log_lines_stuck fuel c last result h
  parse_log_lines_unending (line ∷ lines) c last result zero a h = unfold parse_log_lines in refl
  parse_log_lines_unending (line ∷ lines) c last result (suc fuel) a h =
      ap (λ s. parse_log_lines (suc fuel) s result)
        (append_assoc line (10 ∷ unlines lines) (c ∷ last))
      ∙ parse_log_lines-cons fuel line (unlines lines ++ (c ∷ last)) result (ground (arith, a))
      ∙ parse_log_lines_unending lines c last (add_line line result) fuel (ground (arith, a)) h
