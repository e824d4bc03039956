-- ===== src/Agent/Ask/Ends.antt =====
-- What a run of lib/ai/runner.ts leaves in the agent's store.
use basemaster.Base.{ℕ, ◌≡◌, refl, ◌∙◌, String, false, some, List, [], ◌∷◌, ◌++◌}
use basemaster.Base.Text.{Text}
use basemaster.Agent.Store.{AiMessage, AiState, append_message, set_loading, set_error}
use basemaster.Agent.Messages.{Supply, from_model_messages}
use basemaster.Agent.Retry.{Attempt, Outcome, result, thrown}
use basemaster.Agent.Retry.Bounded.{outcome_of, EndsAt, run_rounds-EndsAt}
use basemaster.Agent.Ask.{Request, ask_begin, append_all, ask_end, ask_agent}
use mathlib.Core.List.{append_assoc, append-nil}

append_all_lem :
    (ms : List AiMessage) (s : AiState) → append_all ms s ≡ record s { messages = s.messages ++ ms }
unfolding append_all append_message
append_all_lem [] s = rw (append-nil s.messages) refl
append_all_lem (m ∷ ms) s =
    append_all_lem ms (append_message m s) ∙ rw (append_assoc s.messages (m ∷ []) ms) refl

-- What a run leaves of the state in which it ends: of the failed one the error, of the other one the
-- answer behind the messages.
unfoldable pub left_by : Supply → Outcome → AiState → AiState
left_by new (result messages) s = record s {
  messages = s.messages ++ from_model_messages new messages;
  loading = false;
}
left_by new (thrown message) s = record s { error = some message; loading = false }

ask_end_lem : (new : Supply) (o : Outcome) (s : AiState) → ask_end new o s ≡ left_by new o s
unfolding ask_end left_by set_error set_loading
ask_end_lem new (result messages) s = rw (append_all_lem (from_model_messages new messages) s) refl
ask_end_lem new (thrown message) s = refl

-- A run that is started ends, whatever the calls do and whatever the user does to the store meanwhile:
-- it leaves the outcome of one of the first four calls, the first that is no transient failure or
-- else the fourth, and it is not loading any more.
pub ask_agent-EndsAt :
    (text : Text) (id : String) (now : ℕ) (new : Supply) (rounds : Request → ℕ → Attempt)
    (meanwhile : AiState → AiState) (s started : AiState) (request : Request)
    → ask_begin text id now s ≡ (some request, started)
    → (k : ℕ) × EndsAt k 0 (rounds request)
      × (ask_agent text id now new rounds meanwhile s
          ≡ some (left_by new (outcome_of k (rounds request k)) (meanwhile started)))
unfolding ask_agent
ask_agent-EndsAt text id now new rounds meanwhile s started request h =
    let (k, ends, e) = run_rounds-EndsAt (rounds request) in
    (k, ends, rw (h, e, ask_end_lem new (outcome_of k (rounds request k)) (meanwhile started)) refl)
