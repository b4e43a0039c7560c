-- ===== src/Tests/UtilsExamples.antt =====
-- Reading of command lines and environments at concrete inputs.
use borg_collective.Base.{◌≡◌, refl, List, [], ◌∷◌, codes, Bytes, contains_byte}
use borg_collective.Utils.CommandLine.{split_command_line}
use borg_collective.Utils.Splitting.{print_words, split_command_line-print_words}

abbrev dump_command : List Bytes
dump_command = codes "sh" ∷ codes "-c" ∷ codes "pg_dump \"my db\" > /out" ∷ []

split_command_line-print_words_example :
    split_command_line (print_words dump_command) ≡ dump_command
unfolding contains_byte
split_command_line-print_words_example = split_command_line-print_words dump_command refl
