-- ===== src/Agent/Retry.antt =====
-- The retries of `askAgent` in lib/ai/runner.ts. What each call of `generateText` does, and whether the
-- user has aborted by then, is given from outside.
pub mod Bounded
use basemaster.Base.{
  ℕ, zero, suc, ◌+◌, Bool, true, false, Option, none, some, List, [], ◌∷◌, ◌||◌, ◌&&◌, not, any,
  ltb, leb, ◌==◌, if◌then◌else◌,
}
use basemaster.Base.Text.{Text, codes, lower_js, flat_map, contains_text}
use basemaster.Agent.Messages.{ModelMessage}

-- An error: `statusCode ?? status`, its message, and whether the signal is aborted when it is caught,
-- or while the loop waits for the next call.
pub record Failure : Type 0 where
  pub status : Option ℕ
  pub message : Text
  pub aborted : Bool
  pub aborted_waiting : Bool

pub data Attempt : Type 0 where
  answered : List ModelMessage → Attempt
  failed : Failure → Attempt

-- `MAX_RETRIES`
abbrev pub max_retries : ℕ
max_retries = 3

abbrev transient_words : List Text
transient_words =
    codes "rate limit"
    ∷ codes "overloaded"
    ∷ codes "timeout"
    ∷ codes "network"
    ∷ codes "fetch failed"
    ∷ codes "econnreset"
    ∷ []

abbrev transient_status : Option ℕ → Bool
transient_status none = false
transient_status (some status) = status == 429 || leb 500 status && ltb status 600

unfoldable pub is_retryable : Failure → Bool
unfolding lower_js
is_retryable e =
    let message = flat_map lower_js e.message in
    transient_status e.status || any (λ word. contains_text word message) transient_words

pub data Outcome : Type 0 where
  result : List ModelMessage → Outcome
  thrown : Text → Outcome

-- What follows a call: `rest` is the loop from the next one on.
unfoldable pub after_call : ℕ → Option (Outcome × ℕ) → Attempt → Option (Outcome × ℕ)
unfolding is_retryable
after_call attempt rest (answered messages) = some (result messages, suc attempt)
after_call attempt rest (failed e) =
    if e.aborted || leb max_retries attempt || not (is_retryable e)
    then some (thrown e.message, suc attempt)
    else if e.aborted_waiting
    then some (thrown (codes "aborted"), suc attempt)
    else rest

-- The loop from its call number `attempt` on, with the number of calls made when it ends; none is out
-- of fuel.
unfoldable pub retry_from : ℕ → ℕ → (ℕ → Attempt) → Option (Outcome × ℕ)
unfolding after_call
retry_from zero attempt rounds = none
retry_from (suc fuel) attempt rounds =
    let rest = retry_from fuel (suc attempt) rounds in after_call attempt rest (rounds attempt)

abbrev pub enough_fuel : ℕ
enough_fuel = 4

unfoldable pub run_rounds : (ℕ → Attempt) → Option (Outcome × ℕ)
unfolding retry_from
run_rounds rounds = retry_from enough_fuel 0 rounds
