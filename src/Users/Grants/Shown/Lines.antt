-- ===== src/Users/Grants/Shown/Lines.antt =====
-- A line of SHOW GRANTS is taken apart as it was put together: components/users-view.tsx.
use basemaster.Base.{
  ℕ, ◌≡◌, refl, ap, Bool, true, false, not, ◌&&◌, ◌||◌, none, some, [], ◌∷◌, ◌++◌, ◌==◌, Bool-cases,
  inl, inr,
}
use basemaster.Base.Text.{Text, codes, is_space, skip_spaces, lower, after_word}
use basemaster.Users.Grants.Shown.{
  spaced, ink_run, before_to, target_here, with_char, shortest, match_grant,
}

-- White space is followed by a word that does not begin with an O.
unfoldable pub starts_calm : Text → Bool
starts_calm [] = false
starts_calm (c ∷ t) = not (is_space c) && not (lower c == b'o')

unfoldable pub is_calm : Text → Bool
unfolding starts_calm
is_calm [] = true
is_calm (c ∷ t) = (not (is_space c) || starts_calm t) && is_calm t

unfoldable pub no_space : Text → Bool
no_space [] = true
no_space (c ∷ t) = not (is_space c) && no_space t

-- What is behind the privileges of a line.
abbrev pub behind : Text → Text → Text
behind target rest = codes " ON " ++ (target ++ (codes " TO " ++ rest))

split_and : (a b : Bool) → (a && b) ≡ true → (a ≡ true) × (b ≡ true)
split_and true b h = (refl, h)
split_and false b h = absurd (cc h)

negated : (a : Bool) → not a ≡ true → a ≡ false
negated true h = absurd (cc h)
negated false h = refl

ink_run-append :
    (target rest : Text)
    → no_space target ≡ true
    → ink_run (target ++ b' ' ∷ rest) ≡ (target, b' ' ∷ rest)
unfolding ink_run no_space
ink_run-append [] rest h = unfold is_space in refl
ink_run-append (c ∷ target) rest h =
    let (hc, ht) = split_and (not (is_space c)) (no_space target) h in
    rw (negated (is_space c) hc, ink_run-append target rest ht) refl

target_here-behind :
    (c : ℕ) (target rest : Text)
    → no_space (c ∷ target) ≡ true
    → target_here (behind (c ∷ target) rest) ≡ some (c ∷ target)
unfolding target_here spaced skip_spaces after_word lower
target_here-behind c target rest h =
    let (hc, ht) = split_and (not (is_space c)) (no_space target) (unfold no_space in h) in
    rw (negated (is_space c) hc)
      (ap before_to (ink_run-append (c ∷ target) (codes "TO " ++ rest) h))

or_left : (a : Bool) → (a || false) ≡ true → a ≡ true
or_left true h = refl
or_left false h = h

calm_word : (a b c : Bool) → a ≡ true → (not a || not b && not c) ≡ true → (b ≡ false) × (c ≡ false)
calm_word true true c h k = absurd (cc k)
calm_word true false true h k = absurd (cc k)
calm_word true false false h k = (refl, refl)
calm_word false b c h k = absurd (cc h)

target_here-calm :
    (c : ℕ) (t tail : Text) → is_calm (c ∷ t) ≡ true → target_here (c ∷ t ++ tail) ≡ none
unfolding target_here spaced is_calm
target_here-calm c [] tail h =
    let (hc, ht) = split_and (not (is_space c) || false) true h in
    rw (negated (is_space c) (or_left _ hc)) refl
target_here-calm c (d ∷ t) tail h =
    let (hc, ht) = split_and (not (is_space c) || starts_calm (d ∷ t)) (is_calm (d ∷ t)) h in
    elim (Bool-cases (is_space c)) [
      | inl e ↦
          let (hd, ho) = calm_word (is_space c) (is_space d) (lower d == b'o') e hc in
          rw (e, hd) (rw ho refl)
      | inr e ↦ rw e refl
    ]

shortest-calm :
    (c : ℕ) (t tail target : Text)
    → is_calm (c ∷ t) ≡ true
    → target_here tail ≡ some target
    → shortest (c ∷ t ++ tail) ≡ some (c ∷ t, target)
unfolding shortest is_calm
shortest-calm c [] tail target h e = rw e refl
shortest-calm c (d ∷ t) tail target h e =
    let (hc, ht) = split_and (not (is_space c) || starts_calm (d ∷ t)) (is_calm (d ∷ t)) h in
    rw (target_here-calm d t tail ht) (ap (with_char c) (shortest-calm d t tail target ht e))

-- A line of a GRANT is read as the privileges and the target that were printed in it, if the privileges do
-- not begin with white space, if white space in them is always followed by a character that is neither
-- white space nor an O, and if the target is not empty and has no white space.
pub match_grant_line :
    (p : ℕ) (privileges : Text) (c : ℕ) (target rest : Text)
    → is_space p ≡ false
    → is_calm (p ∷ privileges) ≡ true
    → no_space (c ∷ target) ≡ true
    → match_grant (codes "GRANT " ++ (p ∷ privileges ++ behind (c ∷ target) rest))
      ≡ some (p ∷ privileges, c ∷ target)
unfolding match_grant spaced skip_spaces after_word lower
match_grant_line p privileges c target rest hp h k = rw hp (
    shortest-calm p privileges (behind (c ∷ target) rest) (c ∷ target) h
      (target_here-behind c target rest k))
