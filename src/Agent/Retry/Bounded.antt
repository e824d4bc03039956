-- ===== src/Agent/Retry/Bounded.antt =====
-- The retries of lib/ai/runner.ts end: which call is the last one, and what it leaves.
use basemaster.Base.{
  ℕ, zero, suc, ◌+◌, ◌≤◌, ◌<◌, ◌≡◌, refl, ◌∙◌, ◌⊎◌, inl, inr, Bool, true, false, none, some, ◌||◌,
  ◌&&◌, not, arith, leb, if◌then◌else◌, Bool-cases, Option,
}
use basemaster.Base.Text.{codes}
use basemaster.Agent.Retry.{
  Attempt, answered, failed, max_retries, is_retryable, Outcome, result, thrown, after_call,
  retry_from, run_rounds,
}

-- A failure after which the loop goes on, unless it was the last call.
unfoldable pub is_transient : Attempt → Bool
is_transient (answered messages) = false
is_transient (failed e) = not e.aborted && is_retryable e && not e.aborted_waiting

-- What call number `k` leaves if it is the last one.
unfoldable pub outcome_of : ℕ → Attempt → Outcome
outcome_of k (answered messages) = result messages
outcome_of k (failed e) =
    thrown (
      if e.aborted || leb max_retries k || not (is_retryable e) then e.message else codes "aborted")

-- The loop ends with call number `k`: those before it, from `first` on, were transient failures, it
-- was none or it was the last that is allowed, and its outcome is the loop's.
pub record EndsAt (k first : ℕ) (rounds : ℕ → Attempt) : Type 0 where
  pub not_before : first ≤ k
  pub in_bounds : k ≤ max_retries
  pub before : (j : ℕ) → first ≤ j → j < k → is_transient (rounds j) ≡ true
  pub last : (is_transient (rounds k) ≡ false) ⊎ (k ≡ max_retries)

after_call-stop :
    (k : ℕ) (rest : Option (Outcome × ℕ)) (a : Attempt)
    → (is_transient a ≡ false) ⊎ (k ≡ max_retries)
    → after_call k rest a ≡ some (outcome_of k a, suc k)
unfolding after_call is_transient outcome_of
after_call-stop k rest (answered ms) h = refl
after_call-stop k rest (failed e) h = ground arith

after_call-next :
    (k : ℕ) (rest : Option (Outcome × ℕ)) (a : Attempt)
    → is_transient a ≡ true
    → k < max_retries
    → after_call k rest a ≡ rest
unfolding after_call is_transient
after_call-next k rest (answered ms) t h = absurd (cc t)
after_call-next k rest (failed e) t h = ground arith

EndsAt-here :
    (k : ℕ) (rounds : ℕ → Attempt)
    → k ≤ max_retries
    → (is_transient (rounds k) ≡ false) ⊎ (k ≡ max_retries)
    → EndsAt k k rounds
EndsAt-here k rounds h l = record {
  not_before = ground arith;
  in_bounds = h;
  before = λ j a b. ground arith;
  last = l;
}

first_or_later : (first j : ℕ) → first ≤ j → (first ≡ j) ⊎ (suc first ≤ j)
first_or_later first j h = ground arith

EndsAt-earlier :
    (k first : ℕ) (rounds : ℕ → Attempt)
    → is_transient (rounds first) ≡ true
    → EndsAt k (suc first) rounds
    → EndsAt k first rounds
EndsAt-earlier k first rounds t ends = record {
  not_before = omega (arith, ends.not_before);
  in_bounds = ends.in_bounds;
  before =
      λ j a b. elim (first_or_later first j a) [ inl e ↦ rw (← e) t | inr l ↦ ends.before j l b ];
  last = ends.last;
}

-- With fuel for the calls that are left the loop ends.
retry_from-EndsAt :
    (n first : ℕ) (rounds : ℕ → Attempt)
    → first + n ≡ max_retries
    → (k : ℕ) × EndsAt k first rounds
      × (retry_from (suc n) first rounds ≡ some (outcome_of k (rounds k), suc k))
unfolding retry_from
retry_from-EndsAt zero first rounds h = (
  first,
  EndsAt-here first rounds (omega (arith, h)) (inr (omega (arith, h))),
  after_call-stop first none (rounds first) (inr (omega (arith, h))),
)
retry_from-EndsAt (suc n) first rounds h =
    let (k, ends, e) = retry_from-EndsAt n (suc first) rounds (omega (arith, h)) in
    let rest = retry_from (suc n) (suc first) rounds in
    elim (Bool-cases (is_transient (rounds first))) [
      | inr f ↦ (
        first,
        EndsAt-here first rounds (omega (arith, h)) (inl f),
        after_call-stop first rest (rounds first) (inl f),
      )
      | inl t ↦ (
        k,
        EndsAt-earlier k first rounds t ends,
        after_call-next first rest (rounds first) t (omega (arith, h)) ∙ e,
      )
    ]

-- However the calls turn out, the loop ends with the outcome of one of the first four calls: the first
-- that is not a transient failure, or else the fourth.
pub run_rounds-EndsAt :
    (rounds : ℕ → Attempt)
    → (k : ℕ) × EndsAt k 0 rounds × (run_rounds rounds ≡ some (outcome_of k (rounds k), suc k))
unfolding run_rounds
run_rounds-EndsAt rounds = retry_from-EndsAt 3 0 rounds refl
