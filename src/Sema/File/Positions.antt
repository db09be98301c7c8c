-- ===== src/Sema/File/Positions.antt =====
-- src/sema/file.rs: offsets and positions are inverse to one another, and a line is a count of
-- newlines.
use Prim.Native.Char.{Char, code}
use ola_lang.Prelude.{
  ℕ, zero, suc, ◌+◌, ◌-◌, ◌≤◌, ◌<◌, ◌≡◌, refl, String, Option, none, some, List, [], ◌∷◌, ltb, leb,
  ◌==◌, ◌&&◌, if◌then◌else◌, get_elem?, arith, Bool, Bool-cases, inl, inr, ◌⊎◌, ap, Option-cases,
}
use ola_lang.Prelude.Outcome.{done, ◌>>=◌}
use ola_lang.Sema.File.{
  File, len_utf8, line_starts_from, new, partition_point, offset_to_line_column, get_offset,
}

-- Every line starts behind the position `k`, and behind the line before it.
abbrev StartsAbove : ℕ → List ℕ → Type 0
StartsAbove k [] = Unit
StartsAbove k (x ∷ xs) = (k < x) × StartsAbove x xs

abbrev below : ℕ → ℕ → Bool
below loc start = leb start loc

-- The offset lies before the start of the next line, if there is one.
abbrev pub EndsBefore : Option ℕ → ℕ → Type 0
EndsBefore none loc = Unit
EndsBefore (some start) loc = loc < start

-- The number of newline characters of a text from index `ind` on whose index is less than `loc`.
pub newlines_before : ℕ → String → ℕ → ℕ
newlines_before ind String.[] loc = 0
newlines_before ind (String.◌∷◌ c s) loc =
    (if code c == 10 && ltb ind loc then 1 else 0) + newlines_before (ind + len_utf8 c) s loc

len_utf8_pos : (c : Char) → 0 < len_utf8 c
len_utf8_pos c = ground arith

StartsAbove-mono : {j k : ℕ} (xs : List ℕ) → j ≤ k → StartsAbove k xs → StartsAbove j xs
StartsAbove-mono [] le h = tt
StartsAbove-mono (x ∷ xs) le (a, b) = (omega arith, b)

line_starts_from-StartsAbove : (ind : ℕ) (s : String) → StartsAbove ind (line_starts_from ind s)
unfolding line_starts_from
line_starts_from-StartsAbove ind String.[] = tt
line_starts_from-StartsAbove ind (String.◌∷◌ c s) =
    let rest = line_starts_from-StartsAbove (ind + len_utf8 c) s in
    elim (Bool-cases (code c == 10)) [
      | inl e ↦ rw e (omega arith, StartsAbove-mono _ (omega (arith, len_utf8_pos c)) rest)
      | inr e ↦ rw e (StartsAbove-mono _ (omega arith) rest)
    ]

StartsAbove-get_elem? :
    (k : ℕ) (xs : List ℕ) (n x : ℕ) → StartsAbove k xs → get_elem? xs n ≡ some x → k < x
StartsAbove-get_elem? k [] n x up at = cc
StartsAbove-get_elem? k (y ∷ xs) zero x (h, up) at = ground arith
StartsAbove-get_elem? k (y ∷ xs) (suc n) x (h, up) at =
    omega (arith, StartsAbove-get_elem? y xs n x up at)

-- The element in front of the partition point passes the test.
partition_point-last :
    (loc : ℕ) (xs : List ℕ) (n : ℕ)
    → partition_point (below loc) xs ≡ suc n
    → (x : ℕ) × (get_elem? xs n ≡ some x) × (x ≤ loc)
unfolding partition_point
partition_point-last loc [] n h = cc
partition_point-last loc (x ∷ xs) zero h = (x, refl, ground arith)
partition_point-last loc (x ∷ xs) (suc n) h = partition_point-last loc xs n (ground arith)

-- The partition point stands behind an element that passes, if the next one does not.
partition_point-eq :
    (loc k : ℕ) (xs : List ℕ) (n x : ℕ)
    → StartsAbove k xs
    → get_elem? xs n ≡ some x
    → x ≤ loc
    → EndsBefore (get_elem? xs (suc n)) loc
    → partition_point (below loc) xs ≡ suc n
unfolding partition_point
partition_point-eq loc k [] n x up at le end = cc
partition_point-eq loc k (y ∷ []) zero x up at le end = ground arith
partition_point-eq loc k (y ∷ z ∷ r) zero x up at le end = ground arith
partition_point-eq loc k (y ∷ xs) (suc n) x (_, up) at le end =
    ground
      (arith, StartsAbove-get_elem? y xs n x up at, partition_point-eq loc y xs n x up at le end)

newlines_before-zero : (ind : ℕ) (s : String) (loc : ℕ) → loc ≤ ind → newlines_before ind s loc ≡ 0
unfolding newlines_before
newlines_before-zero ind String.[] loc h = refl
newlines_before-zero ind (String.◌∷◌ c s) loc h =
    ground (arith, newlines_before-zero (ind + len_utf8 c) s loc (omega arith))

partition_point-newlines :
    (ind : ℕ) (s : String) (loc : ℕ)
    → partition_point (below loc) (line_starts_from ind s) ≡ newlines_before ind s loc
unfolding partition_point line_starts_from newlines_before
partition_point-newlines ind String.[] loc = refl
partition_point-newlines ind (String.◌∷◌ c s) loc = ground (
  arith,
  partition_point-newlines (ind + len_utf8 c) s loc,
  newlines_before-zero (ind + len_utf8 c) s loc,
)

-- `offset_to_line_column` by its partition point: on the first line, and behind a line's start.
offset_first_line :
    (f : File) (loc : ℕ)
    → partition_point (below loc) f.line_starts ≡ 0
    → offset_to_line_column f loc ≡ done (0, loc)
unfolding offset_to_line_column
offset_first_line f loc h = rw h

offset_later_line :
    (f : File) (loc n x : ℕ)
    → partition_point (below loc) f.line_starts ≡ suc n
    → get_elem? f.line_starts n ≡ some x
    → offset_to_line_column f loc ≡ done (suc n, loc - x)
unfolding offset_to_line_column
offset_later_line f loc n x h at =
    let e : suc n - 1 ≡ n = omega arith in rw (h, e, at) (ground arith)

partition_point-zero :
    (loc : ℕ) (xs : List ℕ) → EndsBefore (get_elem? xs 0) loc → partition_point (below loc) xs ≡ 0
unfolding partition_point
partition_point-zero loc [] end = refl
partition_point-zero loc (x ∷ xs) end = ground arith

ℕ-cases : (n : ℕ) → (n ≡ 0) ⊎ ((m : ℕ) × (n ≡ suc m))
ℕ-cases zero = inl refl
ℕ-cases (suc n) = inr (n, refl)

module _ (path contents : String) (cache_no : ℕ) where
  -- In a file read from a text, the position of any offset leads back to that offset.
  pub get_offset-offset_to_line_column :
      (loc : ℕ)
      → (do
        (line, col) ← offset_to_line_column (new path contents cache_no) loc
        get_offset (new path contents cache_no) line col)
        ≡ done loc
  unfolding offset_to_line_column get_offset new
  get_offset-offset_to_line_column loc =
      elim (ℕ-cases (partition_point (below loc) (line_starts_from 0 contents))) [
        | inl e ↦ rw (offset_first_line (new path contents cache_no) loc e)
        | inr (n, e) ↦
            let (x, at, le) = partition_point-last loc _ n e in
            let p : suc n - 1 ≡ n = omega arith in
            rw (offset_later_line (new path contents cache_no) loc n x e at, p, at) (ground arith)
      ]

  -- Conversely, the offset of a position within a line leads back to that position.
  pub offset_to_line_column-get_offset :
      (line col off : ℕ)
      → get_offset (new path contents cache_no) line col ≡ done off
      → EndsBefore (get_elem? (new path contents cache_no).line_starts line) off
      → offset_to_line_column (new path contents cache_no) off ≡ done (line, col)
  unfolding offset_to_line_column get_offset new
  offset_to_line_column-get_offset zero col off at end =
      let e = partition_point-zero off _ end in
      rw (offset_first_line (new path contents cache_no) off e) (ground arith)
  offset_to_line_column-get_offset (suc n) col off at end =
      let starts = line_starts_from 0 contents in
      let p : suc n - 1 ≡ n = omega arith in
      elim (Option-cases (get_elem? starts n)) [
        | inl e ↦ ground arith
        | inr (x, e) ↦
            let sum : x + col ≡ off = ground arith in
            let pp =
              partition_point-eq off 0 starts n x (line_starts_from-StartsAbove 0 contents) e
                (omega arith) end in
            rw (offset_later_line (new path contents cache_no) off n x pp e) (ground arith)
      ]

  -- The line of an offset is the number of newlines before it.
  pub offset_to_line_column-newlines_before :
      (loc : ℕ)
      → (do (line, col) ← offset_to_line_column (new path contents cache_no) loc; done line)
        ≡ done (newlines_before 0 contents loc)
  unfolding new
  offset_to_line_column-newlines_before loc =
      let count = partition_point-newlines 0 contents loc in
      elim (ℕ-cases (partition_point (below loc) (line_starts_from 0 contents))) [
        | inl e ↦ rw (offset_first_line (new path contents cache_no) loc e) (ap done (omega arith))
        | inr (n, e) ↦
            let (x, at, le) = partition_point-last loc _ n e in
            rw (offset_later_line (new path contents cache_no) loc n x e at) (ap done (omega arith))
      ]
