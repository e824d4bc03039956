-- ===== src/Sql/Segments/Cover.antt =====
-- The segments cover the text: each is the slice between its offsets, and they follow one another
-- with one semicolon between.
use basemaster.Base.{
  ℕ, ◌+◌, ◌≡◌, ◌≤◌, refl, ap, ◌∙◌, true, false, Bool-cases, List, [], ◌∷◌, ◌++◌, length, arith,
  slice, slice-append, ltb, head?, length-append, if◌then◌else◌, inl, inr, map, get_elem?, some,
  ◌⊎◌,
}
use mathlib.Core.Path.{ap₂}
use mathlib.Core.List.{append_assoc}
use basemaster.Base.Text.{Text}
use basemaster.Sql.Mode.{Mode, plain, is_end}
use basemaster.Sql.Segments.{SqlSegment, next_mode, split_from, split_sql_segments}

-- The texts of the segments, read with an accumulator instead of offsets.
unfoldable pub pieces : Mode → Text → Text → List Text
pieces mode [] [] = []
pieces mode (d ∷ current) [] = (d ∷ current) ∷ []
pieces mode current (c ∷ rest) =
    let ended = pieces plain [] rest in
    let longer = pieces (next_mode mode c (head? rest)) (current ++ c ∷ []) rest in
    if is_end mode c then current ∷ ended else longer

pub split_from-pieces :
    (sql : Text) (mode : Mode) (start i : ℕ) (pre cur rest : Text)
    → sql ≡ pre ++ (cur ++ rest)
    → start ≡ length pre
    → i ≡ length pre + length cur
    → map (λ s. s.sql) (split_from sql mode start i rest) ≡ pieces mode cur rest
unfolding split_from pieces
split_from-pieces sql mode start i pre [] [] at s n =
    rw (let e : ltb start i ≡ false = ground arith in e) refl
split_from-pieces sql mode start i pre (d ∷ cur) [] at s n =
    rw (let e : ltb start i ≡ true = ground arith in e)
      (ap (λ (t : Text). t ∷ []) (rw (at, s, n) (slice-append pre (d ∷ cur) [])))
split_from-pieces sql mode start i pre cur (c ∷ rest) at s n = elim (Bool-cases (is_end mode c)) [
  | inl e ↦ rw e (
      ap₂ ◌∷◌ (rw (at, s, n) (slice-append pre cur (c ∷ rest))) (
        split_from-pieces sql plain (i + 1) (i + 1) (pre ++ cur ++ c ∷ []) [] rest
          (at ∙ simp append_assoc)
          (omega (
            arith,
            length-append {0} pre (cur ++ c ∷ []),
            length-append {0} cur (c ∷ []),
            ap (length {0}) (append_assoc pre cur (c ∷ [])),
          ))
          (omega (
            arith,
            length-append {0} pre (cur ++ c ∷ []),
            length-append {0} cur (c ∷ []),
            ap (length {0}) (append_assoc pre cur (c ∷ [])),
          ))))
  | inr e ↦ rw e (
      split_from-pieces sql (next_mode mode c (head? rest)) start (i + 1) pre (cur ++ c ∷ []) rest
        (at ∙ simp append_assoc) s (omega (arith, length-append {0} cur (c ∷ []))))
]

-- The segments from offset `start` on follow one another up to the end of the text.
abbrev pub IsTiled : Text → ℕ → List SqlSegment → Type 0
IsTiled sql start [] = length sql ≤ start
IsTiled sql start (seg ∷ segs) =
    (seg.start ≡ start)
    × (start ≤ seg.end)
    × (seg.end ≤ length sql)
    × (seg.sql ≡ slice seg.start seg.end sql)
    × ((seg.end ≡ length sql) ⊎ (get_elem? sql seg.end ≡ some b';'))
    × IsTiled sql (seg.end + 1) segs

get_elem?-length : (xs ys : Text) → get_elem? (xs ++ ys) (length xs) ≡ head? ys
get_elem?-length [] [] = refl
get_elem?-length [] (y ∷ ys) = refl
get_elem?-length (x ∷ xs) ys = get_elem?-length xs ys

is_end_lem : (mode : Mode) (c : ℕ) → is_end mode c ≡ true → c ≡ b';'
is_end_lem plain c e = ground arith
is_end_lem _ c e = cc

split_from-IsTiled :
    (sql : Text) (mode : Mode) (start i : ℕ) (pre rest : Text)
    → sql ≡ pre ++ rest
    → i ≡ length pre
    → start ≤ i
    → IsTiled sql start (split_from sql mode start i rest)
unfolding split_from
split_from-IsTiled sql mode start i pre [] at n h =
    let size = ap (length {0}) at ∙ length-append pre [] in
    elim (Bool-cases (ltb start i)) [
      | inl e ↦
          rw e (refl, h, omega (arith, size), refl, inl (omega (arith, size)), omega (arith, size))
      | inr e ↦ rw e (ground (arith, size))
    ]
split_from-IsTiled sql mode start i pre (c ∷ rest) at n h =
    let size = ap (length {0}) at ∙ length-append pre (c ∷ rest) in
    elim (Bool-cases (is_end mode c)) [
      | inl e ↦ rw e (
        refl,
        h,
        omega (arith, size),
        refl,
        inr (rw (at, n) (get_elem?-length pre (c ∷ rest) ∙ ap some (is_end_lem mode c e))),
        split_from-IsTiled sql plain (i + 1) (i + 1) (pre ++ c ∷ []) rest (at ∙ simp append_assoc)
            (omega (arith, length-append {0} pre (c ∷ []))) (omega arith),
      )
      | inr e ↦ rw e (
          split_from-IsTiled sql (next_mode mode c (head? rest)) start (i + 1) (pre ++ c ∷ []) rest
            (at ∙ simp append_assoc) (omega (arith, length-append {0} pre (c ∷ []))) (omega arith))
    ]

-- The segments of a text tile it: each is the slice of the text between its offsets, the first
-- starts at 0, each next one starts behind the semicolon that ended the one before it, and the last
-- one ends at the end of the text or at a final semicolon.
pub split_sql_segments-IsTiled : (sql : Text) → IsTiled sql 0 (split_sql_segments sql)
unfolding split_sql_segments
split_sql_segments-IsTiled sql = split_from-IsTiled sql plain 0 0 [] sql refl refl (omega arith)
