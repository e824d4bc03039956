-- ===== src/Agent/Messages.antt =====
-- The translation of lib/ai/runner.ts between the messages of the store and those of the SDK
-- (`ModelMessage` of the package `ai`), of which the parts that the source reads are told apart.
pub mod RoundTrip
use basemaster.Base.{
  ℕ, suc, String, Bool, true, false, Option, none, some, List, [], ◌∷◌, ◌++◌, map, if◌then◌else◌,
}
use basemaster.Base.Text.{Text, codes}
use basemaster.Agent.Store.{
  AiContentBlock, text_block, tool_use, tool_result, user, assistant, AiMessage,
}

-- The `output` of a tool's result. For another type than the two of a text: whether it is
-- "error-json", and the JSON text of its value, or none if there is no such text.
pub data Output : Type 0 where
  text_output error_text_output : Text → Output
  other_output : (error_json : Bool) → Option Text → Output

pub data ToolPart : Type 0 where
  result_part : (tool_call_id tool_name : Text) → Output → ToolPart
  other_tool_part : ToolPart

pub data AssistantPart : Type 0 where
  text_part : Text → AssistantPart
  call_part : (tool_call_id tool_name : Text) → (input : Option Text) → AssistantPart
  other_part : AssistantPart

pub data ModelMessage : Type 0 where
  tool_message : List ToolPart → ModelMessage
  user_message : List Text → ModelMessage
  assistant_string : Text → ModelMessage
  assistant_parts : List AssistantPart → ModelMessage
  system_message : Text → ModelMessage

-- `tr.is_error ? "error-text" : "text"`
abbrev output_of : Option Bool → Text → Output
output_of (some true) content = error_text_output content
output_of (some false) content = text_output content
output_of none content = text_output content

unfoldable pub tool_results : List AiContentBlock → List ToolPart
tool_results [] = []
tool_results (tool_result id name content is_error ∷ cs) =
    result_part id name (output_of is_error content) ∷ tool_results cs
tool_results (text_block text ∷ cs) = tool_results cs
tool_results (tool_use id name input ∷ cs) = tool_results cs

unfoldable pub texts : List AiContentBlock → List Text
texts [] = []
texts (text_block text ∷ cs) = text ∷ texts cs
texts (tool_use id name input ∷ cs) = texts cs
texts (tool_result id name content is_error ∷ cs) = texts cs

unfoldable pub parts_of : List AiContentBlock → List AssistantPart
parts_of [] = []
parts_of (text_block text ∷ cs) = text_part text ∷ parts_of cs
parts_of (tool_use id name input ∷ cs) = call_part id name input ∷ parts_of cs
parts_of (tool_result id name content is_error ∷ cs) = parts_of cs

-- A message is added only if it has content.
abbrev if_any {ℓ κ} : {A : Type ℓ} {B : Type κ} → (List A → B) → List A → List B
if_any f [] = []
if_any f (x ∷ xs) = f (x ∷ xs) ∷ []

abbrev pub to_model : AiMessage → List ModelMessage
to_model m = elim m.role [
  | user ↦ if_any tool_message (tool_results m.content) ++ if_any user_message (texts m.content)
  | assistant ↦ assistant_parts (parts_of m.content) ∷ []
]

unfoldable pub to_model_messages : List AiMessage → List ModelMessage
unfolding tool_results texts parts_of
to_model_messages [] = []
to_model_messages (m ∷ history) = to_model m ++ to_model_messages history

unfoldable pub assistant_blocks : List AssistantPart → List AiContentBlock
assistant_blocks [] = []
assistant_blocks (text_part text ∷ parts) = text_block text ∷ assistant_blocks parts
assistant_blocks (call_part id name input ∷ parts) = tool_use id name input ∷ assistant_blocks parts
assistant_blocks (other_part ∷ parts) = assistant_blocks parts

abbrev error_output : Output → Bool
error_output (text_output value) = false
error_output (error_text_output value) = true
error_output (other_output error_json value) = error_json

-- `String(output)` where there is no JSON text.
abbrev output_text : Output → Text
output_text (text_output value) = value
output_text (error_text_output value) = value
output_text (other_output error_json (some value)) = value
output_text (other_output error_json none) = codes "[object Object]"

unfoldable pub result_blocks : List ToolPart → List AiContentBlock
result_blocks [] = []
result_blocks (result_part id name output ∷ parts) =
    tool_result id name (output_text output) (some (error_output output)) ∷ result_blocks parts
result_blocks (other_tool_part ∷ parts) = result_blocks parts

-- The ids that `uid()` gives, and the times of `Date.now()`, by the number of the new message.
pub record Supply : Type 0 where
  pub ids : ℕ → String
  pub times : ℕ → ℕ

abbrev assistant_message : Supply → ℕ → List AiContentBlock → AiMessage
assistant_message new n blocks = record {
  id = new.ids n;
  role = assistant;
  content = blocks;
  created_at = new.times n;
}

abbrev result_message : Supply → ℕ → List AiContentBlock → AiMessage
result_message new n blocks = record {
  id = new.ids n;
  role = user;
  content = blocks;
  created_at = new.times n;
}

-- The blocks of a message, with the message they go into.
abbrev blocks_of :
    ModelMessage → (Supply → ℕ → List AiContentBlock → AiMessage) × List AiContentBlock
blocks_of (tool_message parts) = (result_message, result_blocks parts)
blocks_of (user_message ts) = (result_message, [])
blocks_of (assistant_string text) = (assistant_message, text_block text ∷ [])
blocks_of (assistant_parts parts) = (assistant_message, assistant_blocks parts)
blocks_of (system_message text) = (result_message, [])

-- The new messages, where `n` are made already; `later` makes those behind.
abbrev push_blocks :
    Supply
    → (Supply → ℕ → List AiContentBlock → AiMessage)
    → ℕ
    → List AiContentBlock
    → (ℕ → List AiMessage)
    → List AiMessage
push_blocks new make n [] later = later n
push_blocks new make n (c ∷ cs) later = make new n (c ∷ cs) ∷ later (suc n)

unfoldable pub from_model_from : Supply → ℕ → List ModelMessage → List AiMessage
unfolding assistant_blocks result_blocks
from_model_from new n [] = []
from_model_from new n (m ∷ messages) =
    push_blocks new (blocks_of m).0 n (blocks_of m).1 (λ (k : ℕ). from_model_from new k messages)

unfoldable pub from_model_messages : Supply → List ModelMessage → List AiMessage
unfolding from_model_from
from_model_messages new messages = from_model_from new 0 messages
