-- ===== src/Agent/Ask.antt =====
-- `askAgent` of lib/ai/runner.ts: what it does before its first call of `generateText`, and what it does
-- with the outcome. Between the two the user may call every other operation of the store.
pub mod Ends
pub mod Sends
use basemaster.Base.{
  ℕ, String, Bool, true, false, Option, none, some, List, [], ◌∷◌, ◌++◌, if◌then◌else◌,
}
use basemaster.Base.Text.{Text, codes}
use basemaster.Agent.Store.{
  ProviderId, id_text, text_block, user, AiMessage, AiState, append_message, set_loading, set_error,
  parse_model_key,
}
use basemaster.Agent.History.{cap_history}
use basemaster.Agent.Messages.{ModelMessage, to_model_messages, Supply, from_model_messages}
use basemaster.Agent.Retry.{Attempt, Outcome, result, thrown, run_rounds}

-- What a started run has fixed: the arguments of `getLanguageModel`, and the messages it sends.
pub record Request : Type 0 where
  pub provider : ProviderId
  pub model_id : Text
  pub api_key : Text
  pub messages : List ModelMessage

abbrev pub invalid_model : Text
invalid_model = codes "Modelo inválido. Escolha um nas configurações."

abbrev pub missing_key : ProviderId → Text
missing_key provider =
    codes "Configure a API key do " ++ id_text provider ++ codes " nas configurações."

abbrev pub user_message : Text → String → ℕ → AiMessage
user_message text id now = record {
  id = id;
  role = user;
  content = text_block text ∷ [];
  created_at = now;
}

-- The run with a model and the key that is kept for its provider.
unfoldable pub ask_with :
    Text → String → ℕ → ProviderId × Text → Option Text → AiState → Option Request × AiState
unfolding append_message set_loading set_error cap_history to_model_messages
ask_with text id now (provider, model) none s = (none, set_error (some (missing_key provider)) s)
ask_with text id now (provider, model) (some []) s =
    (none, set_error (some (missing_key provider)) s)
ask_with text id now (provider, model) (some (c ∷ key)) s =
    let started = append_message (user_message text id now) (set_loading true (set_error none s)) in
    (
      some (record {
        provider = provider;
        model_id = model;
        api_key = c ∷ key;
        messages = to_model_messages (cap_history started.messages);
      }),
      started,
    )

abbrev pub ask_model :
    Text → String → ℕ → Option (ProviderId × Text) → AiState → Option Request × AiState
ask_model text id now none s = (none, set_error (some invalid_model) s)
ask_model text id now (some model) s = ask_with text id now model (s.api_keys (model.0)) s

unfoldable pub ask_begin : Text → String → ℕ → AiState → Option Request × AiState
unfolding ask_with parse_model_key set_error
ask_begin text id now s =
    if s.loading then (none, s) else ask_model text id now (parse_model_key s.model_key) s

unfoldable pub append_all : List AiMessage → AiState → AiState
unfolding append_message
append_all [] s = s
append_all (m ∷ ms) s = append_all ms (append_message m s)

unfoldable pub ask_end : Supply → Outcome → AiState → AiState
unfolding append_all set_error set_loading from_model_messages
ask_end new (result messages) s =
    set_loading false (append_all (from_model_messages new messages) s)
ask_end new (thrown message) s = set_loading false (set_error (some message) s)

abbrev pub settled : Supply → Option (Outcome × ℕ) → AiState → Option AiState
settled new none s = none
settled new (some (outcome, calls)) s = some (ask_end new outcome s)

-- The whole run, with what the store sees in between as a function; none is out of fuel.
abbrev pub finished :
    Supply
    → Option Request
    → (Request → ℕ → Attempt)
    → (AiState → AiState)
    → AiState
    → Option AiState
finished new none rounds meanwhile s = some s
finished new (some request) rounds meanwhile s =
    settled new (run_rounds (rounds request)) (meanwhile s)

unfoldable pub ask_agent :
    Text
    → String
    → ℕ
    → Supply
    → (Request → ℕ → Attempt)
    → (AiState → AiState)
    → AiState
    → Option AiState
unfolding ask_begin
ask_agent text id now new rounds meanwhile s =
    let begun = ask_begin text id now s in finished new (begun.0) rounds meanwhile (begun.1)
