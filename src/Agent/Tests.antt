-- ===== src/Agent/Tests.antt =====
-- Runs of the agent's functions, and the theorems at concrete inputs.
use basemaster.Base.{
  ℕ, suc, ◌≡◌, ◌≤◌, ◌⊎◌, refl, false, Option, none, some, List, [], ◌∷◌, if◌then◌else◌, leb,
}
use basemaster.Base.Text.{codes, join, same_text}
use basemaster.Base.Dict.{get_or}
use basemaster.Agent.Store.{
  anthropic, openai, text_block, tool_use, user, assistant, AiMessage, AiState, initial_state,
  ApiKeys, empty_keys, set_key, id_text, parse_model_key,
}
use basemaster.Agent.History.{max_history_chars, size, total, cap_history}
use basemaster.Agent.History.Cut.{longest_fit, last_turn, cap_history_lem, total-cap_history}
use basemaster.Agent.Messages.{
  ModelMessage, tool_message, user_message, assistant_parts, result_part, text_output, text_part,
  call_part, to_model_messages, Supply, from_model_messages,
}
use basemaster.Agent.Messages.RoundTrip.{all_plain, to_model_messages-from_model_messages}
use basemaster.Agent.Retry.{Failure, Attempt, answered, failed, run_rounds}
use basemaster.Agent.Retry.Bounded.{EndsAt, outcome_of, run_rounds-EndsAt}
use basemaster.Agent.Ask.{Request, ask_begin, ask_agent}
use basemaster.Agent.Ask.Sends.{Begins, ask_begin-Begins}
use basemaster.Agent.Ask.Ends.{left_by, ask_agent-EndsAt}

abbrev question : AiMessage
question = record {
  id = "q";
  role = user;
  content = text_block (codes "say \"hi\"") ∷ [];
  created_at = 1;
}

abbrev first_answer : AiMessage
first_answer = record {
  id = "a";
  role = assistant;
  content = text_block (codes "hi") ∷ tool_use (codes "1") (codes "run") (some (codes "{}")) ∷ [];
  created_at = 2;
}

abbrev talk : List AiMessage
talk = question ∷ first_answer ∷ []

size_of_question : size question ≡ 37
unfolding size join
size_of_question = refl

cap_history_lem_example : cap_history talk ≡ (
    if leb (total talk) max_history_chars
    then talk
    else get_or (get_or talk (last_turn talk)) (longest_fit talk))
cap_history_lem_example = cap_history_lem talk

total-cap_history_example :
    (total (cap_history talk) ≤ max_history_chars)
    ⊎ (last_turn talk ≡ some (cap_history talk))
    ⊎ (last_turn talk ≡ none)
total-cap_history_example = total-cap_history talk

abbrev supply : Supply
supply = record { ids = λ n. "id"; times = λ n. n }

abbrev reply : List ModelMessage
reply =
    assistant_parts (text_part (codes "look") ∷ call_part (codes "1") (codes "run") none ∷ [])
    ∷ tool_message (result_part (codes "1") (codes "run") (text_output (codes "ok")) ∷ [])
    ∷ []

to_model_messages-from_model_messages_example :
    to_model_messages (from_model_messages supply reply) ≡ reply
unfolding all_plain
to_model_messages-from_model_messages_example =
    to_model_messages-from_model_messages supply reply refl

abbrev overloaded : Failure
overloaded = record {
  status = some 529;
  message = codes "Overloaded";
  aborted = false;
  aborted_waiting = false;
}

abbrev twice : ℕ → Attempt
twice k = if leb 2 k then answered reply else failed overloaded

run_rounds-EndsAt_example :
    (k : ℕ) × EndsAt k 0 twice × (run_rounds twice ≡ some (outcome_of k (twice k), suc k))
run_rounds-EndsAt_example = run_rounds-EndsAt twice

abbrev ready : AiState
ready = record initial_state {
  api_keys = set_key anthropic (some (codes "sk")) empty_keys;
  messages = talk;
}

ask_begin-Begins_example : Begins (codes "more") "m" 3 ready (ask_begin (codes "more") "m" 3 ready)
ask_begin-Begins_example = ask_begin-Begins (codes "more") "m" 3 ready

abbrev keyring : ApiKeys
keyring = set_key openai (some (codes "sk-o")) empty_keys

abbrev more_ready : AiState
more_ready = record initial_state { api_keys = set_key anthropic (some (codes "sk")) empty_keys }

abbrev begun : Option Request × AiState
begun = ask_begin (codes "more") "m" 3 more_ready

abbrev request : Request
request = record {
  provider = anthropic;
  model_id = codes "claude-sonnet-4-6";
  api_key = codes "sk";
  messages = user_message (codes "more" ∷ []) ∷ [];
}

begins : begun ≡ (some request, begun.1)
unfolding ask_begin cap_history to_model_messages parse_model_key same_text id_text set_key join
begins = refl

ask_agent-EndsAt_example :
    (k : ℕ) × EndsAt k 0 twice
    × (ask_agent (codes "more") "m" 3 supply (λ r. twice) (λ s. s) more_ready
        ≡ some (left_by supply (outcome_of k (twice k)) (begun.1)))
ask_agent-EndsAt_example =
    ask_agent-EndsAt (codes "more") "m" 3 supply (λ r. twice) (λ s. s) more_ready (begun.1) request
      begins
