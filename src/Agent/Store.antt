-- ===== src/Agent/Store.antt =====
-- The agent's store of state/ai-agent.ts, and the choice of a model of lib/ai/catalog.ts.
pub mod Keys
use basemaster.Base.{
  ℕ, ◌==◌, min, max, String, Bool, true, false, not, Option, none, some, List, [], ◌∷◌, ◌++◌, map,
  find, if◌then◌else◌,
}
use basemaster.Base.Text.{Text, codes, same_text}

pub data ProviderId : Type 0 where
  anthropic openai openrouter gemini groq deepseek : ProviderId
  mistral xai perplexity together fireworks cerebras : ProviderId

unfoldable pub id_text : ProviderId → Text
id_text anthropic = codes "anthropic"
id_text openai = codes "openai"
id_text openrouter = codes "openrouter"
id_text gemini = codes "gemini"
id_text groq = codes "groq"
id_text deepseek = codes "deepseek"
id_text mistral = codes "mistral"
id_text xai = codes "xai"
id_text perplexity = codes "perplexity"
id_text together = codes "together"
id_text fireworks = codes "fireworks"
id_text cerebras = codes "cerebras"

-- A value that is parsed from JSON is its JSON text; `none` is `undefined`.
pub data AiContentBlock : Type 0 where
  text_block : (text : Text) → AiContentBlock
  tool_use : (id name : Text) (input : Option Text) → AiContentBlock
  tool_result : (tool_use_id tool_name content : Text) (is_error : Option Bool) → AiContentBlock

pub data Role : Type 0 where
  user assistant : Role

pub record AiMessage : Type 0 where
  pub id : String
  pub role : Role
  pub content : List AiContentBlock
  pub created_at : ℕ

-- `none` is `null`.
abbrev pub ApiKeys : Type 0
ApiKeys = ProviderId → Option Text

abbrev pub empty_keys : ApiKeys
empty_keys _ = none

pub record AiState : Type 0 where
  pub api_keys : ApiKeys
  pub model_key : Text
  pub panel_open : Bool
  pub panel_width : ℕ
  pub messages : List AiMessage
  pub loading : Bool
  pub error : Option Text

abbrev pub initial_state : AiState
initial_state = record {
  api_keys = empty_keys;
  model_key = codes "anthropic:claude-sonnet-4-6";
  panel_open = false;
  panel_width = 380;
  messages = [];
  loading = false;
  error = none;
}

-- `{ ...keys, [provider]: key }`
unfoldable pub set_key : ProviderId → Option Text → ApiKeys → ApiKeys
set_key provider key keys p = if same_text (id_text provider) (id_text p) then key else keys p

-- What is sent to the keyring: a provider and its key, where the empty key deletes.
abbrev pub Sent : Type 0
Sent = List (ProviderId × Text)

abbrev pub or_empty : Option Text → Text
or_empty none = []
or_empty (some key) = key

unfoldable pub set_api_key : ProviderId → Option Text → AiState → AiState × Sent
unfolding set_key
set_api_key provider key s =
    (record s { api_keys = set_key provider key s.api_keys }, (provider, or_empty key) ∷ [])

-- `Object.keys(EMPTY_KEYS)`
abbrev pub providers : List ProviderId
providers =
    anthropic ∷ openai ∷ openrouter ∷ gemini ∷ groq ∷ deepseek ∷ mistral ∷ xai ∷ perplexity
    ∷ together ∷ fireworks ∷ cerebras ∷ []

-- A key that is there and is not empty.
abbrev pub is_set : Option Text → Bool
is_set none = false
is_set (some []) = false
is_set (some (c ∷ key)) = true

-- One step of the loop: the keys of the keyring, and what is sent to it.
unfoldable pub migrate_key : ApiKeys → ProviderId → ApiKeys × Sent → ApiKeys × Sent
unfolding set_key
migrate_key in_memory p (stored, sent) =
    if is_set (in_memory p)
    then if is_set (stored p)
      then (stored, sent)
      else (set_key p (in_memory p) stored, sent ++ (p, or_empty (in_memory p)) ∷ [])
    else (stored, sent)

unfoldable pub migrate : ApiKeys → List ProviderId → ApiKeys × Sent → ApiKeys × Sent
unfolding migrate_key
migrate in_memory [] done = done
migrate in_memory (p ∷ ps) done = migrate in_memory ps (migrate_key in_memory p done)

-- `{ ...keys, ...stored }`
abbrev pub over_key : Option Text → Option Text → Option Text
over_key none old = old
over_key (some key) old = some key

unfoldable pub spread : ApiKeys → ApiKeys → ApiKeys
spread keys stored p = over_key (stored p) (keys p)

-- `none` is a keyring that cannot be read.
unfoldable pub hydrate_keys : Option ApiKeys → AiState → AiState × Sent
unfolding migrate spread
hydrate_keys none s = (s, [])
hydrate_keys (some keyring) s =
    let done = migrate s.api_keys providers (keyring, []) in
    (record s { api_keys = spread s.api_keys (done.0) }, done.1)

unfoldable pub set_model_key : Text → AiState → AiState
set_model_key key s = record s { model_key = key }

unfoldable pub set_panel_open : Bool → AiState → AiState
set_panel_open is_open s = record s { panel_open = is_open }

unfoldable pub toggle_panel : AiState → AiState
toggle_panel s = record s { panel_open = not s.panel_open }

unfoldable pub set_panel_width : ℕ → AiState → AiState
set_panel_width w s = record s { panel_width = max 280 (min 720 w) }

unfoldable pub append_message : AiMessage → AiState → AiState
append_message m s = record s { messages = s.messages ++ m ∷ [] }

unfoldable pub clear : AiState → AiState
clear s = record s { messages = []; error = none }

unfoldable pub set_loading : Bool → AiState → AiState
set_loading v s = record s { loading = v }

unfoldable pub set_error : Option Text → AiState → AiState
set_error e s = record s { error = e }

abbrev pub after_char : ℕ → Option (Text × Text) → Option (Text × Text)
after_char c none = none
after_char c (some (left, right)) = some (c ∷ left, right)

-- The text before the first colon and the text behind it, if there is a colon.
unfoldable pub split_colon : Text → Option (Text × Text)
split_colon [] = none
split_colon (c ∷ text) =
    let rest = split_colon text in if c == b':' then some ([], text) else after_char c rest

abbrev known_model : Text → Option ProviderId → Option (ProviderId × Text)
known_model model none = none
known_model [] (some p) = none
known_model (c ∷ model) (some p) = some (p, c ∷ model)

abbrev model_of : Option (Text × Text) → Option (ProviderId × Text)
model_of none = none
model_of (some (provider, model)) =
    known_model model (find (λ p. same_text (id_text p) provider) providers)

unfoldable pub parse_model_key : Text → Option (ProviderId × Text)
unfolding split_colon
parse_model_key key = model_of (split_colon key)

-- `modelKey`: the key of a model.
unfoldable pub model_key_of : ProviderId → Text → Text
model_key_of provider model = id_text provider ++ b':' ∷ model
