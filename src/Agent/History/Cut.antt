-- ===== src/Agent/History/Cut.antt =====
-- What the cut of lib/ai/runner.ts keeps, described without indices.
use basemaster.Base.{
  ℕ, zero, suc, ◌≤◌, ◌<◌, ◌≡◌, refl, sym, ap, ◌∙◌, ◌⊎◌, inl, inr, Bool, true, false, Option, none,
  some, List, [], ◌∷◌, ◌++◌, arith, drop, All, All-append, leb, if◌then◌else◌, Bool-cases,
  Option-cases,
}
use basemaster.Base.Dict.{get_or}
use basemaster.Agent.Store.{AiMessage}
use basemaster.Agent.History.{
  max_history_chars, total, is_turn, boundaries, last?, walk, cap_history,
}
use mathlib.Core.List.{reverse, reverse-append}

-- The longest end of the history that begins with a turn and fits.
unfoldable pub longest_fit : List AiMessage → Option (List AiMessage)
longest_fit [] = none
longest_fit (m ∷ ms) =
    let shorter = longest_fit ms in
    if is_turn m
    then if leb (total (m ∷ ms)) max_history_chars then some (m ∷ ms) else shorter
    else shorter

abbrev pub or_here : Bool → List AiMessage → Option (List AiMessage) → Option (List AiMessage)
or_here turn ms (some later) = some later
or_here true ms none = some ms
or_here false ms none = none

-- The end of the history that begins with the last turn.
unfoldable pub last_turn : List AiMessage → Option (List AiMessage)
last_turn [] = none
last_turn (m ∷ ms) = or_here (is_turn m) (m ∷ ms) (last_turn ms)

Fits : List AiMessage → ℕ → Type 0
Fits ms idx = total (drop idx ms) ≤ max_history_chars

reverse_cons : (x : ℕ) (xs : List ℕ) → reverse (x ∷ xs) ≡ reverse xs ++ x ∷ []
reverse_cons x xs = reverse-append (x ∷ []) xs

All-reverse : (P : ℕ → Type 0) (xs : List ℕ) → All P xs → All P (reverse xs)
All-reverse P [] h = tt
All-reverse P (x ∷ xs) (h, hs) =
    rw (reverse_cons x xs) (All-append P (reverse xs) (x ∷ []) (All-reverse P xs hs) (h, tt))

-- The oldest boundary is passed over_key if its end of the history does not fit.
walk_stops :
    (ms : List AiMessage) (xs : List ℕ) (b start : ℕ)
    → max_history_chars < total (drop b ms)
    → walk ms (xs ++ b ∷ []) start ≡ walk ms xs start
unfolding walk
walk_stops ms [] b start h = ground arith
walk_stops ms (x ∷ xs) b start h = ground (arith, walk_stops ms xs b x)

walk_reaches :
    (ms : List AiMessage) (xs : List ℕ) (b start : ℕ)
    → All (Fits ms) xs
    → Fits ms b
    → walk ms (xs ++ b ∷ []) start ≡ b
unfolding walk Fits
walk_reaches ms [] b start hs h = ground arith
walk_reaches ms (x ∷ xs) b start (hx, hs) h = ground (arith, walk_reaches ms xs b x hs h)

drop_one : (i : ℕ) (ms : List AiMessage) → drop (suc i) ms ≡ drop 1 (drop i ms)
drop_one zero ms = refl
drop_one (suc i) [] = refl
drop_one (suc i) (m ∷ ms) = drop_one i ms

drop_next :
    (i : ℕ) (ms : List AiMessage) (m : AiMessage) (rest : List AiMessage)
    → drop i ms ≡ m ∷ rest
    → drop (suc i) ms ≡ rest
drop_next i ms m rest h = drop_one i ms ∙ ap (drop 1) h

-- All later boundaries fit, if the history from here on does.
boundaries-Fits :
    (ms : List AiMessage) (i : ℕ) (rest : List AiMessage)
    → drop i ms ≡ rest
    → total rest ≤ max_history_chars
    → All (Fits ms) (boundaries i rest)
unfolding boundaries Fits total
boundaries-Fits ms i [] e h = tt
boundaries-Fits ms i (m ∷ rest) e h =
    let hs = boundaries-Fits ms (suc i) rest (drop_next i ms m rest e) (omega (arith, h)) in
    elim (Bool-cases (is_turn m)) [ inl t ↦ rw t (rw e h, hs) | inr f ↦ rw f hs ]

longest_fit-here :
    (m : AiMessage) (ms : List AiMessage)
    → is_turn m ≡ true
    → leb (total (m ∷ ms)) max_history_chars ≡ true
    → longest_fit (m ∷ ms) ≡ some (m ∷ ms)
unfolding longest_fit
longest_fit-here m ms t h = rw (t, h) refl

longest_fit-later :
    (m : AiMessage) (ms : List AiMessage)
    → leb (total (m ∷ ms)) max_history_chars ≡ false
    → longest_fit (m ∷ ms) ≡ longest_fit ms
unfolding longest_fit
longest_fit-later m ms h = ground arith

longest_fit-skip :
    (m : AiMessage) (ms : List AiMessage)
    → is_turn m ≡ false
    → longest_fit (m ∷ ms) ≡ longest_fit ms
unfolding longest_fit
longest_fit-skip m ms h = rw h refl

longest_fit_nil : longest_fit [] ≡ none
unfolding longest_fit
longest_fit_nil = refl

Fits-drop :
    (i : ℕ) (ms rest : List AiMessage)
    → drop i ms ≡ rest
    → leb (total rest) max_history_chars ≡ true
    → Fits ms i
unfolding Fits
Fits-drop i ms rest e h = rw e (ground arith)

over-drop :
    (i : ℕ) (ms rest : List AiMessage)
    → drop i ms ≡ rest
    → leb (total rest) max_history_chars ≡ false
    → max_history_chars < total (drop i ms)
over-drop i ms rest e h = rw e (ground arith)

total_tail :
    (m : AiMessage) (ms : List AiMessage)
    → leb (total (m ∷ ms)) max_history_chars ≡ true
    → total ms ≤ max_history_chars
unfolding total
total_tail m ms h = ground arith

walk-boundaries :
    (ms : List AiMessage) (i : ℕ) (rest : List AiMessage) (start : ℕ)
    → drop i ms ≡ rest
    → drop (walk ms (reverse (boundaries i rest)) start) ms
      ≡ get_or (drop start ms) (longest_fit rest)
unfolding boundaries walk
walk-boundaries ms i [] start e = rw longest_fit_nil refl
walk-boundaries ms i (m ∷ rest) start e =
    let later = walk-boundaries ms (suc i) rest start (drop_next i ms m rest e) in
    elim (Bool-cases (is_turn m)) [
      | inl t ↦
          rw (t, reverse_cons i (boundaries (suc i) rest))
            (elim (Bool-cases (leb (total (m ∷ rest)) max_history_chars)) [
              | inl fits ↦ rw (longest_fit-here m rest t fits) (
                  ap (λ idx. drop idx ms)
                    (walk_reaches ms (reverse (boundaries (suc i) rest)) i start
                      (All-reverse (Fits ms) (boundaries (suc i) rest) (
                        boundaries-Fits ms (suc i) rest (drop_next i ms m rest e)
                          (total_tail m rest fits)))
                      (Fits-drop i ms (m ∷ rest) e fits))
                  ∙ e)
              | inr big ↦ rw (longest_fit-later m rest big) (
                  ap (λ idx. drop idx ms)
                    (walk_stops ms (reverse (boundaries (suc i) rest)) i start
                      (over-drop i ms (m ∷ rest) e big))
                  ∙ later)
            ])
      | inr f ↦ rw (f, longest_fit-skip m rest f) later
    ]

get_or-last_cons : (d i : ℕ) (xs : List ℕ) → get_or d (last? (i ∷ xs)) ≡ get_or i (last? xs)
get_or-last_cons d i [] = refl
get_or-last_cons d i (x ∷ xs) = get_or-last_cons d x xs ∙ sym (get_or-last_cons i x xs)

or_here_lem :
    (d ms : List AiMessage) (o : Option (List AiMessage))
    → get_or ms o ≡ get_or d (or_here true ms o)
or_here_lem d ms none = refl
or_here_lem d ms (some later) = refl

or_here_none : (ms : List AiMessage) (o : Option (List AiMessage)) → or_here false ms o ≡ o
or_here_none ms none = refl
or_here_none ms (some later) = refl

last-boundaries :
    (ms : List AiMessage) (i : ℕ) (rest : List AiMessage) (d : ℕ)
    → drop i ms ≡ rest
    → drop (get_or d (last? (boundaries i rest))) ms ≡ get_or (drop d ms) (last_turn rest)
unfolding boundaries last_turn
last-boundaries ms i [] d e = refl
last-boundaries ms i (m ∷ rest) d e =
    let later = λ (d : ℕ). last-boundaries ms (suc i) rest d (drop_next i ms m rest e) in
    elim (Bool-cases (is_turn m)) [
      | inl t ↦
          rw (t, get_or-last_cons d i (boundaries (suc i) rest), later i, e)
            (or_here_lem (drop d ms) (m ∷ rest) (last_turn rest))
      | inr f ↦ rw (f, or_here_none (m ∷ rest) (last_turn rest)) (later d)
    ]

-- The cut keeps a history that fits as it is; of a longer one it keeps the longest end that begins
-- with a turn of the user and fits, or else the last turn, or, without any turn, everything.
pub cap_history_lem :
    (ms : List AiMessage)
    → cap_history ms ≡ (
        if leb (total ms) max_history_chars
        then ms
        else get_or (get_or ms (last_turn ms)) (longest_fit ms))
unfolding cap_history
cap_history_lem ms =
    rw
      (
        walk-boundaries ms 0 ms (get_or 0 (last? (boundaries 0 ms))) refl,
        last-boundaries ms 0 ms 0 refl,
      )
      refl

longest_fit-fits : (ms r : List AiMessage) → longest_fit ms ≡ some r → total r ≤ max_history_chars
unfolding longest_fit
longest_fit-fits [] r h = absurd (cc h)
longest_fit-fits (m ∷ ms) r h = ground (arith, longest_fit-fits ms r)

-- What the cut keeps is within the budget, or it is the last turn alone, or there is no turn.
pub total-cap_history :
    (ms : List AiMessage)
    → (total (cap_history ms) ≤ max_history_chars)
      ⊎ (last_turn ms ≡ some (cap_history ms))
      ⊎ (last_turn ms ≡ none)
total-cap_history ms =
    rw (cap_history_lem ms) (elim (Bool-cases (leb (total ms) max_history_chars)) [
      | inl small ↦ rw small (inl (ground arith))
      | inr big ↦ elim (Option-cases (longest_fit ms)) [
        | inr (r, e) ↦ rw (big, e) (inl (longest_fit-fits ms r e))
        | inl n ↦ elim (Option-cases (last_turn ms)) [
          | inr (r, e) ↦ rw (big, n, e) (inr (inl refl))
          | inl e ↦ inr (inr e)
        ]
      ]
    ])
