-- ===== src/Sema/File.antt =====
-- src/sema/file.rs: where the lines of a source file start, and positions from byte offsets.
-- A text is a `String`; `char_indices` counts the bytes of UTF-8.
pub mod Positions
use Prim.Native.Char.{Char, code}
use ola_lang.Prelude.{
  ℕ, suc, ◌+◌, ◌-◌, String, Option, none, some, List, [], ◌∷◌, ◌++◌, ltb, leb, ◌==◌, if◌then◌else◌,
  get_elem?, Bool,
}
use ola_lang.Prelude.Outcome.{Outcome, done, unwrap, ◌>>=◌}

-- The part of `File` that positions are computed from.
pub record File : Type 0 where
  pub path : String
  pub line_starts : List ℕ
  pub cache_no : Option ℕ

-- `char::len_utf8`
abbrev pub len_utf8 : Char → ℕ
len_utf8 c =
    if ltb (code c) 0x80
    then 1
    else if ltb (code c) 0x800
    then 2
    else if ltb (code c) 0x1_0000
    then 3
    else 4

-- The loop of `File::new` over the characters from index `ind` on.
pub line_starts_from : ℕ → String → List ℕ
line_starts_from ind String.[] = []
line_starts_from ind (String.◌∷◌ c s) =
    let rest = line_starts_from (ind + len_utf8 c) s in
    if code c == 10 then (ind + 1) ∷ rest else rest

unfoldable pub new : String → String → ℕ → File
unfolding line_starts_from
new path contents cache_no = record {
  path = path;
  line_starts = line_starts_from 0 contents;
  cache_no = some cache_no;
}

-- `slice::partition_point` of a slice whose elements that pass stand in front.
pub partition_point : (ℕ → Bool) → List ℕ → ℕ
partition_point p [] = 0
partition_point p (x ∷ xs) = let rest = partition_point p xs in if p x then suc rest else 0

-- `File::offset_to_line_column`: line and column, both from zero.
unfoldable pub offset_to_line_column : File → ℕ → Outcome (ℕ × ℕ)
unfolding partition_point
offset_to_line_column f loc =
    let line_no = partition_point (λ start. leb start loc) f.line_starts in
    if ltb 0 line_no
    then (do start ← unwrap (get_elem? f.line_starts (line_no - 1)); done (line_no, loc - start))
    else done (line_no, loc)

-- `File::get_offset`
unfoldable pub get_offset : File → ℕ → ℕ → Outcome ℕ
get_offset f line_no column_no =
    if line_no == 0
    then done column_no
    else do start ← unwrap (get_elem? f.line_starts (line_no - 1)); done (start + column_no)
