-- ===== src/TableClipboard/Lines.antt =====
-- Lines of a text in lib/table-clipboard.ts, and texts without a line break.
use basemaster.Base.{
  ℕ, ◌/◌, ◌%◌, ◌≡◌, refl, ap, ◌∙◌, Bool, true, false, not, ◌&&◌, ◌||◌, List, [], ◌∷◌, ◌++◌, arith,
  All, ltb, leb, ◌==◌, if◌then◌else◌,
}
use basemaster.Base.Text.{Text, codes, join}
use basemaster.Base.Json.{
  is_lead, is_trail, hex_digit, escaped_unit, escaped, json_units, json_string,
}

abbrev pub cons_head : ℕ → List Text → List Text
cons_head c [] = (c ∷ []) ∷ []
cons_head c (l ∷ lines) = (c ∷ l) ∷ lines

abbrev next_is : ℕ → Text → Bool
next_is n [] = false
next_is n (c ∷ text) = c == n

-- `text.split(/\r?\n/)`
unfoldable pub split_lines : Text → List Text
split_lines [] = [] ∷ []
split_lines (c ∷ text) =
    let rest = split_lines text in
    if c == b'\n'
    then [] ∷ rest
    else if c == b'\r' && next_is b'\n' text
    then rest
    else cons_head c rest

abbrev is_plain : ℕ → Bool
is_plain c = not (c == b'\n' || c == b'\r')

-- No line break.
unfoldable pub is_line : Text → Bool
is_line [] = true
is_line (c ∷ l) = is_plain c && is_line l

pub is_line-append : (s t : Text) → is_line (s ++ t) ≡ (is_line s && is_line t)
unfolding is_line
is_line-append [] t = refl
is_line-append (c ∷ s) t = ground (arith, is_line-append s t)

pub is_line_both : (s t : Text) → is_line s ≡ true → is_line t ≡ true → is_line (s ++ t) ≡ true
is_line_both s t h k = is_line-append s t ∙ rw (h, k) refl

-- One step of the split, at a character that is no line break.
split_step :
    (c : ℕ) (l text : Text) (lines : List Text)
    → is_line (c ∷ l) ≡ true
    → (if c == b'\n'
        then [] ∷ lines
        else if c == b'\r' && next_is b'\n' text
        then lines
        else cons_head c lines)
      ≡ cons_head c lines
unfolding is_line
split_step c l text lines h = ground arith

is_line_tail : (c : ℕ) (l : Text) → is_line (c ∷ l) ≡ true → is_line l ≡ true
unfolding is_line
is_line_tail c l h = ground arith

split_lines-line : (l : Text) → is_line l ≡ true → split_lines l ≡ l ∷ []
unfolding split_lines is_line
split_lines-line [] h = refl
split_lines-line (c ∷ l) h =
    split_step c l l (split_lines l) h ∙ ap (cons_head c) (split_lines-line l (is_line_tail c l h))

split_lines-break :
    (l rest : Text) → is_line l ≡ true → split_lines (l ++ b'\n' ∷ rest) ≡ l ∷ split_lines rest
unfolding split_lines is_line
split_lines-break [] rest h = refl
split_lines-break (c ∷ l) rest h =
    split_step c l (l ++ b'\n' ∷ rest) (split_lines (l ++ b'\n' ∷ rest)) h
    ∙ ap (cons_head c) (split_lines-break l rest (is_line_tail c l h))

-- Lines that were joined are split again.
pub split_lines-join :
    (l : Text) (ls : List Text)
    → is_line l ≡ true
    → All (λ k. is_line k ≡ true) ls
    → split_lines (join (codes "\n") (l ∷ ls)) ≡ l ∷ ls
unfolding join
split_lines-join l [] h hs = split_lines-line l h
split_lines-join l (k ∷ ls) h (hk, hs) =
    split_lines-break l (join (codes "\n") (k ∷ ls)) h ∙ ap (◌∷◌ l) (split_lines-join k ls hk hs)

is_line-if :
    (b : Bool) (x y : Text)
    → (b ≡ true → is_line x ≡ true)
    → (b ≡ false → is_line y ≡ true)
    → is_line (if b then x else y) ≡ true
is_line-if true x y h k = h refl
is_line-if false x y h k = k refl

is_plain-hex_digit : (n : ℕ) → is_plain (hex_digit n) ≡ true
is_plain-hex_digit n = ground arith

is_line-escaped_unit : (c : ℕ) → is_line (escaped_unit c) ≡ true
unfolding is_line
is_line-escaped_unit c =
    rw
      (
        is_plain-hex_digit (c / 4096),
        is_plain-hex_digit (c / 256 % 16),
        is_plain-hex_digit (c / 16 % 16),
        is_plain-hex_digit (c % 16),
      )
      refl

is_line_one : (c : ℕ) → (c == 10) ≡ false → (c == 13) ≡ false → is_line (c ∷ []) ≡ true
unfolding is_line
is_line_one c h k = ground arith

is_line_quoted : (c : ℕ) → (c == b'"' || c == b'\\') ≡ true → is_line (b'\\' ∷ c ∷ []) ≡ true
unfolding is_line
is_line_quoted c h = ground arith

is_line-escaped : (c : ℕ) → is_line (escaped c) ≡ true
unfolding is_line
is_line-escaped c = is_line-if _ _ _ (is_line_quoted c) (λ q.
    is_line-if (c == 8) _ _ (λ e. refl)
      (λ e8.
        is_line-if (c == 12) _ _ (λ e. refl)
          (λ e12.
            is_line-if (c == 10) _ _ (λ e. refl)
              (λ e10.
                is_line-if (c == 13) _ _ (λ e. refl)
                  (λ e13.
                    is_line-if (c == 9) _ _ (λ e. refl)
                      (λ e9.
                        is_line-if (ltb c 32 || leb 0xd800 c && leb c 0xdfff) (escaped_unit c)
                          (c ∷ []) (λ e. is_line-escaped_unit c) (λ e. is_line_one c e10 e13)))))))

both_plain :
    (c d : ℕ) (text : Text)
    → (is_lead c && is_trail d) ≡ true
    → is_line text ≡ true
    → is_line (c ∷ d ∷ text) ≡ true
unfolding is_line
both_plain c d text h k = ground arith

is_line-json_units : (t : Text) → is_line (json_units false t) ≡ true
unfolding json_units
is_line-json_units [] = unfold is_line in refl
is_line-json_units (c ∷ []) =
    is_line-if (is_lead c && false) _ _ (λ e. absurd (ground arith))
      (λ e. is_line_both (escaped c) [] (is_line-escaped c) (unfold is_line in refl))
is_line-json_units (c ∷ d ∷ t) =
    is_line-if (is_lead c && is_trail d) _ _ (λ e. both_plain c d _ e (is_line-json_units t))
      (λ e. is_line_both (escaped c) _ (is_line-escaped c) (is_line-json_units (d ∷ t)))

pub is_line-json_string : (t : Text) → is_line (json_string t) ≡ true
unfolding json_string
is_line-json_string t =
    unfold is_line in is_line_both (json_units false t) (b'"' ∷ []) (is_line-json_units t) refl
