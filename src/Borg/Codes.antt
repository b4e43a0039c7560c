-- ===== src/Borg/Codes.antt =====
-- `HandleBorgReturnCode` of borg/api/run.go.
use borg_collective.Base.{
  ℕ, zero, suc, Bool, true, false, ◌||◌, none, some, List, [], ◌∷◌, ◌++◌, Bytes, codes, ◌≡◌, ◌⊎◌,
  ◌↔◌, inl, inr, refl, arith, Option-cases,
}
use borg_collective.Base.Exec.{ok, err}
use borg_collective.Borg.Api.{
  ReturnCode, pos, negsuc, LogMessage, archive_progress, progress_message, progress_percent,
  file_status, log_message, log_message_pointer, borg_error, Borg,
}
use borg_collective.Borg.Run.{
  World, cut_line, parse_line, add_line, parse_log_lines, handle_borg_log_messages, find_hint,
  handle_connection_closed_with_hint, handle_borg_return_code,
}

module _ ⦃B : Borg⦄ where
  pub handle_borg_log_messages-ok :
      (messages : List (LogMessage B.Float)) (w : World)
      → (handle_borg_log_messages messages w).0 ≡ ok tt
  unfolding handle_borg_log_messages
  handle_borg_log_messages-ok [] w = refl
  handle_borg_log_messages-ok (m ∷ messages) w = grind (arith, handle_borg_log_messages-ok messages)

  -- `HandleBorgReturnCode` has no error exactly for success and for a warning, whatever borg logged.
  pub handle_borg_return_code_iff :
      (code : ReturnCode) (messages : List (LogMessage B.Float)) (w : World)
      → ((handle_borg_return_code code messages w).0 ≡ ok tt) ↔ ((code ≡ pos 0) ⊎ (code ≡ pos 1))
  unfolding handle_borg_return_code handle_connection_closed_with_hint
  handle_borg_return_code_iff (pos n) messages w = (
    λ h. ground (arith, handle_borg_log_messages-ok messages w),
    λ h. ground (arith, handle_borg_log_messages-ok messages w),
  )
  handle_borg_return_code_iff (negsuc n) messages w = (
    λ h. ground (arith, handle_borg_log_messages-ok messages w),
    λ h. ground (arith, handle_borg_log_messages-ok messages w),
  )

  abbrev is_pointer : LogMessage B.Float → Bool
  is_pointer (log_message_pointer m) = true
  is_pointer (log_message m) = false
  is_pointer (archive_progress m) = false
  is_pointer (progress_message m) = false
  is_pointer (progress_percent m) = false
  is_pointer (file_status m) = false

  abbrev has_pointer : List (LogMessage B.Float) → Bool
  has_pointer [] = false
  has_pointer (m ∷ messages) = is_pointer m || has_pointer messages

  has_pointer-append :
      (xs ys : List (LogMessage B.Float))
      → has_pointer (xs ++ ys) ≡ (has_pointer xs || has_pointer ys)
  has_pointer-append [] ys = refl
  has_pointer-append (x ∷ xs) ys = ground (arith, has_pointer-append xs ys)

  parse_line-value :
      (line : Bytes) (m : LogMessage B.Float) → parse_line line ≡ some m → is_pointer m ≡ false
  unfolding parse_line
  parse_line-value line m h = ground arith

  add_line-values :
      (line : Bytes) (result : List (LogMessage B.Float))
      → has_pointer result ≡ false
      → has_pointer (add_line line result) ≡ false
  add_line-values [] result h = h
  add_line-values (c ∷ line) result h = elim (Option-cases (parse_line (c ∷ line))) [
    | inl e ↦ ground (arith, e)
    | inr (m, e) ↦
        ground (arith, e, parse_line-value (c ∷ line) m, has_pointer-append result (m ∷ []))
  ]

  parse_log_lines-values :
      (fuel : ℕ) (stderr : Bytes) (result messages : List (LogMessage B.Float))
      → has_pointer result ≡ false
      → parse_log_lines fuel stderr result ≡ some messages
      → has_pointer messages ≡ false
  unfolding parse_log_lines
  parse_log_lines-values zero stderr result messages v h = absurd (ground (arith, h))
  parse_log_lines-values (suc fuel) [] result messages v h = ground (arith, h)
  parse_log_lines-values (suc fuel) (c ∷ stderr) result messages v h =
      let (line, rest) = cut_line (c ∷ stderr) in
      parse_log_lines-values fuel rest (add_line line result) messages
        (add_line-values line result v) h

  find_hint-none :
      (messages : List (LogMessage B.Float))
      → has_pointer messages ≡ false
      → find_hint messages none ≡ none
  unfolding find_hint
  find_hint-none [] h = refl
  find_hint-none (log_message_pointer m ∷ messages) h = absurd (ground (arith, h))
  find_hint-none (log_message m ∷ messages) h = find_hint-none messages (ground (arith, h))
  find_hint-none (archive_progress m ∷ messages) h = find_hint-none messages (ground (arith, h))
  find_hint-none (progress_message m ∷ messages) h = find_hint-none messages (ground (arith, h))
  find_hint-none (progress_percent m ∷ messages) h = find_hint-none messages (ground (arith, h))
  find_hint-none (file_status m ∷ messages) h = find_hint-none messages (ground (arith, h))

  -- The hint of borg is lost: whatever lines borg wrote, if they were parsed, then for the code of a
  -- connection closed with a hint the error is the one without a hint.
  pub hint_is_lost :
      (fuel : ℕ) (stderr : Bytes) (messages : List (LogMessage B.Float)) (w : World)
      → parse_log_lines fuel stderr [] ≡ some messages
      → (handle_borg_return_code (pos 81) messages w).0
        ≡ err (borg_error (pos 81) (codes "borg connection closed, check log"))
  unfolding handle_borg_return_code handle_connection_closed_with_hint
  hint_is_lost fuel stderr messages w h =
      let none_found =
        find_hint-none messages (parse_log_lines-values fuel stderr [] messages refl h) in
      ground (arith, none_found, handle_borg_log_messages-ok messages w)
