-- ===== src/Sql/Dangerous/Words.antt =====
-- What the regular expressions of lib/dangerous-query.ts and lib/sql-readonly.ts look for, in plain words.
use basemaster.Base.{
  ℕ, ◌==◌, ◌≡◌, refl, ap, inl, inr, Bool, true, false, not, Option, some, none, [], ◌∷◌, ◌++◌, map,
  arith, Bool-cases, Option-cases,
}
use basemaster.Base.Text.{Text, lower, is_word, after_word, boundary}
use basemaster.Sql.Dangerous.Detect.{whole_word, contains_word}

-- Whether the text ends in a word, if what stands before it does or not.
abbrev pub ends_in_word : Bool → Text → Bool
ends_in_word inside [] = inside
ends_in_word inside (c ∷ text) = ends_in_word (is_word c) text

abbrev pub starts_in_word : Text → Bool
starts_in_word [] = false
starts_in_word (c ∷ text) = is_word c

-- The text begins with the word, up to the case of its letters, and the word ends there.
pub record BeginsWith (word text : Text) : Type 0 where
  pub seen : Text
  pub behind : Text
  pub splits : text ≡ seen ++ behind
  pub spells : map lower seen ≡ word
  pub ends : starts_in_word behind ≡ false

-- The word stands in the text as a whole word, up to case, where what is before the text ends in a word
-- or not.
pub record StandsBehind (inside : Bool) (word text : Text) : Type 0 where
  pub before : Text
  pub rest : Text
  pub splits : text ≡ before ++ rest
  pub apart : ends_in_word inside before ≡ false
  pub begins : BeginsWith word rest

abbrev pub StandsIn : Text → Text → Type 0
StandsIn word text = StandsBehind false word text

after_word_sound :
    (word text behind : Text)
    → after_word word text ≡ some behind
    → (seen : Text) × (text ≡ seen ++ behind) × (map lower seen ≡ word)
unfolding after_word
after_word_sound [] text behind h = ([], cc h, refl)
after_word_sound (w ∷ word) [] behind h = absurd (cc h)
after_word_sound (w ∷ word) (c ∷ text) behind h = elim (Bool-cases (lower c == w)) [
  | inl e ↦
      let (seen, s, k) = after_word_sound word text behind (rw e at h) in
      (c ∷ seen, ap (◌∷◌ c) s, ground (arith, k))
  | inr e ↦ absurd (let n : none ≡ some behind = rw e at h in cc n)
]

after_word_complete :
    (seen behind : Text) → after_word (map lower seen) (seen ++ behind) ≡ some behind
unfolding after_word
after_word_complete [] behind = refl
after_word_complete (c ∷ seen) behind = ground (arith, after_word_complete seen behind)

boundary_after : (rest : Text) → boundary true rest ≡ not (starts_in_word rest)
boundary_after [] = refl
boundary_after (c ∷ rest) = ground arith

pub whole_word-BeginsWith :
    (word text behind : Text) → whole_word word text ≡ some behind → BeginsWith word text
whole_word-BeginsWith word text behind h = elim (Option-cases (after_word word text)) [
  | inl e ↦ absurd (let n : Path (Option Text) none (some behind) = rw e at h in cc n)
  | inr (rest, e) ↦
      let (seen, s, k) = after_word_sound word text rest e in
      record {
        seen = seen;
        behind = rest;
        splits = s;
        spells = k;
        ends = ground (arith, e, boundary_after rest, h);
      }
]

pub BeginsWith-whole_word :
    (word text : Text)
    → BeginsWith word text
    → (behind : Text) × (whole_word word text ≡ some behind)
BeginsWith-whole_word word text b = (
  b.behind,
  rw (b.splits, ← b.spells, after_word_complete b.seen b.behind, boundary_after b.behind, b.ends),
)

is_word_of_lower : (c : ℕ) → is_word (lower c) ≡ true → is_word c ≡ true
unfolding is_word lower
is_word_of_lower c h = ground arith

first_of_seen :
    (seen behind : Text) (c : ℕ) (text word : Text)
    → starts_in_word word ≡ true
    → map lower seen ≡ word
    → Path Text (c ∷ text) (seen ++ behind)
    → (rest : Text) × (word ≡ lower c ∷ rest)
first_of_seen [] behind c text word h k e = absurd (let n : false ≡ true = rw (← k) at h in cc n)
first_of_seen (d ∷ seen) behind c text word h k e = (map lower seen, cc (k, e))

nothing_seen :
    (seen behind word : Text)
    → starts_in_word word ≡ true
    → map lower seen ≡ word
    → ¬ Path Text [] (seen ++ behind)
nothing_seen [] behind word h k e = let n : false ≡ true = rw (← k) at h in cc n
nothing_seen (d ∷ seen) behind word h k e = cc e

module _ (word : Text) (h : starts_in_word word ≡ true) where
  BeginsWith-first : (c : ℕ) (text : Text) → BeginsWith word (c ∷ text) → is_word c ≡ true
  BeginsWith-first c text b =
      let (rest, e) = first_of_seen b.seen b.behind c text word h b.spells b.splits in
      is_word_of_lower c (rw e at h)

  later :
      {inside : Bool} (c : ℕ) {text : Text}
      → StandsBehind (is_word c) word text
      → StandsBehind inside word (c ∷ text)
  later c s = record {
    before = c ∷ s.before;
    rest = s.rest;
    splits = ap (◌∷◌ c) s.splits;
    apart = s.apart;
    begins = s.begins;
  }

  pub contains_word_sound :
      (inside : Bool) (text : Text)
      → contains_word word inside text ≡ true
      → StandsBehind inside word text
  unfolding contains_word
  contains_word_sound inside [] e = absurd (cc e)
  contains_word_sound inside (c ∷ text) e = elim (Option-cases (whole_word word (c ∷ text))) [
    | inl none_here ↦ later c (contains_word_sound (is_word c) text (ground (arith, none_here, e)))
    | inr (behind, w) ↦
        let b = whole_word-BeginsWith word (c ∷ text) behind w in
        let first = BeginsWith-first c text b in
        elim (Bool-cases inside) [
          | inl in_word ↦
              later c (contains_word_sound (is_word c) text (ground (arith, first, in_word, e)))
          | inr e' ↦ record { before = []; rest = c ∷ text; splits = refl; apart = e'; begins = b }
        ]
  ]

  pub contains_word_complete :
      (inside : Bool) (before rest : Text)
      → ends_in_word inside before ≡ false
      → BeginsWith word rest
      → contains_word word inside (before ++ rest) ≡ true
  unfolding contains_word
  contains_word_complete inside [] [] e b =
      absurd (nothing_seen b.seen b.behind word h b.spells b.splits)
  contains_word_complete inside [] (c ∷ rest) e b =
      let (behind, k) = BeginsWith-whole_word word (c ∷ rest) b in
      let first = BeginsWith-first c rest b in ground (arith, first, e, k)
  contains_word_complete inside (c ∷ before) rest e b =
      ground (arith, contains_word_complete (is_word c) before rest e b)

  -- A word that stands in a text stands at one of its characters.
  pub stands_at_character :
      (text : Text)
      → StandsIn word text
      → (before : Text) × (d : ℕ) × (rest : Text) × (behind : Text) × (text ≡ before ++ d ∷ rest)
        × (boundary (ends_in_word false before) (d ∷ rest) ≡ true)
        × (whole_word word (d ∷ rest) ≡ some behind)
  stands_at_character text s = at_character s.before s.rest s.splits s.apart s.begins
    where
      at_character :
          (before rest : Text)
          → text ≡ before ++ rest
          → ends_in_word false before ≡ false
          → BeginsWith word rest
          → (before : Text) × (d : ℕ) × (rest : Text) × (behind : Text) × (text
              ≡ before ++ d ∷ rest)
            × (boundary (ends_in_word false before) (d ∷ rest) ≡ true)
            × (whole_word word (d ∷ rest) ≡ some behind)
      at_character before [] e a b = absurd (nothing_seen b.seen b.behind word h b.spells b.splits)
      at_character before (d ∷ rest) e a b =
          let (behind, k) = BeginsWith-whole_word word (d ∷ rest) b in
          (before, d, rest, behind, e, ground (arith, a, BeginsWith-first d rest b), k)
