-- ===== src/Sema/Tests/FileTests.antt =====
-- Runs of src/sema/file.rs and src/sema/diagnostics.rs, and their theorems at concrete inputs.
use ola_lang.Prelude.{◌≡◌, refl, [], ◌∷◌, arith}
use ola_lang.Prelude.Outcome.{done, ◌>>=◌}
use ola_lang.Sema.File.{File, new, offset_to_line_column, get_offset}
use ola_lang.Sema.File.Positions.{
  newlines_before, get_offset-offset_to_line_column, offset_to_line_column-get_offset,
  offset_to_line_column-newlines_before,
}

-- "ab", "é" (two bytes), an empty line and "c"
abbrev text : File
text = new "a.ola" "ab\né\n\nc" 0

starts : text.line_starts ≡ 3 ∷ 6 ∷ 7 ∷ []
unfolding new
starts = refl

second_line : offset_to_line_column text 5 ≡ done (1, 2)
unfolding offset_to_line_column new
second_line = refl

offset_of_second_line : get_offset text 1 2 ≡ done 5
unfolding get_offset new
offset_of_second_line = refl

get_offset-offset_to_line_column_example :
    (do (line, col) ← offset_to_line_column text 5; get_offset text line col) ≡ done 5
get_offset-offset_to_line_column_example = get_offset-offset_to_line_column "a.ola" "ab\né\n\nc" 0 5

offset_to_line_column-get_offset_example : offset_to_line_column text 5 ≡ done (1, 2)
unfolding new
offset_to_line_column-get_offset_example =
    offset_to_line_column-get_offset "a.ola" "ab\né\n\nc" 0 1 2 5 offset_of_second_line
      (omega arith)

offset_to_line_column-newlines_before_example :
    (do (line, col) ← offset_to_line_column text 7; done line)
    ≡ done (newlines_before 0 "ab\né\n\nc" 7)
offset_to_line_column-newlines_before_example =
    offset_to_line_column-newlines_before "a.ola" "ab\né\n\nc" 0 7
