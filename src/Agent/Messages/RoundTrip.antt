-- ===== src/Agent/Messages/RoundTrip.antt =====
-- The SDK's answer survives its storage: lib/ai/runner.ts sends it back in the next request as it came.
use basemaster.Base.{ℕ, suc, ◌≡◌, refl, ap, ◌∙◌, Bool, true, false, ◌&&◌, List, [], ◌∷◌, arith}
use basemaster.Agent.Store.{AiContentBlock, AiMessage}
use basemaster.Agent.Messages.{
  Output, text_output, error_text_output, other_output, ToolPart, result_part, other_tool_part,
  AssistantPart, text_part, call_part, other_part, ModelMessage, tool_message, user_message,
  assistant_string, assistant_parts, system_message, tool_results, texts, parts_of,
  to_model_messages, assistant_blocks, result_blocks, Supply, push_blocks, assistant_message,
  result_message, from_model_from, from_model_messages,
}

abbrev text_result : Output → Bool
text_result (other_output error_json value) = false
text_result _ = true

unfoldable pub all_results : List ToolPart → Bool
all_results [] = true
all_results (result_part id name output ∷ parts) = text_result output && all_results parts
all_results (other_tool_part ∷ parts) = false

unfoldable pub all_known : List AssistantPart → Bool
all_known [] = true
all_known (other_part ∷ parts) = false
all_known (text_part text ∷ parts) = all_known parts
all_known (call_part id name input ∷ parts) = all_known parts

-- Messages that the store can hold: of the assistant or of tools, with parts, all of them known, and
-- tools that return texts.
unfoldable pub is_plain : ModelMessage → Bool
unfolding all_results all_known
is_plain (tool_message []) = false
is_plain (tool_message (p ∷ parts)) = all_results (p ∷ parts)
is_plain (assistant_parts []) = false
is_plain (assistant_parts (p ∷ parts)) = all_known (p ∷ parts)
is_plain _ = false

unfoldable pub all_plain : List ModelMessage → Bool
unfolding is_plain
all_plain [] = true
all_plain (m ∷ ms) = is_plain m && all_plain ms

parts_of-assistant_blocks :
    (parts : List AssistantPart)
    → all_known parts ≡ true
    → parts_of (assistant_blocks parts) ≡ parts
unfolding all_known parts_of assistant_blocks
parts_of-assistant_blocks [] h = refl
parts_of-assistant_blocks (text_part text ∷ parts) h =
    ap (◌∷◌ (text_part text)) (parts_of-assistant_blocks parts h)
parts_of-assistant_blocks (call_part id name input ∷ parts) h =
    ap (◌∷◌ (call_part id name input)) (parts_of-assistant_blocks parts h)
parts_of-assistant_blocks (other_part ∷ parts) h = absurd (cc h)

tool_results-result_blocks :
    (parts : List ToolPart) → all_results parts ≡ true → tool_results (result_blocks parts) ≡ parts
unfolding all_results tool_results result_blocks
tool_results-result_blocks [] h = refl
tool_results-result_blocks (result_part id name (text_output v) ∷ parts) h =
    ap (◌∷◌ (result_part id name (text_output v))) (tool_results-result_blocks parts h)
tool_results-result_blocks (result_part id name (error_text_output v) ∷ parts) h =
    ap (◌∷◌ (result_part id name (error_text_output v))) (tool_results-result_blocks parts h)
tool_results-result_blocks (result_part id name (other_output e v) ∷ parts) h = absurd (cc h)
tool_results-result_blocks (other_tool_part ∷ parts) h = absurd (cc h)

texts-result_blocks : (parts : List ToolPart) → texts (result_blocks parts) ≡ []
unfolding texts result_blocks
texts-result_blocks [] = refl
texts-result_blocks (result_part id name output ∷ parts) = texts-result_blocks parts
texts-result_blocks (other_tool_part ∷ parts) = texts-result_blocks parts

to_model_messages-results :
    (new : Supply) (n : ℕ) (cs : List AiContentBlock) (q : ToolPart) (qs : List ToolPart)
    (later : ℕ → List AiMessage)
    → tool_results cs ≡ q ∷ qs
    → texts cs ≡ []
    → to_model_messages (push_blocks new result_message n cs later)
      ≡ tool_message (q ∷ qs) ∷ to_model_messages (later (suc n))
unfolding to_model_messages tool_results texts
to_model_messages-results new n [] q qs later e f = absurd (cc e)
to_model_messages-results new n (c ∷ cs) q qs later e f = rw (e, f) refl

to_model_messages-parts :
    (new : Supply) (n : ℕ) (cs : List AiContentBlock) (q : AssistantPart) (qs : List AssistantPart)
    (later : ℕ → List AiMessage)
    → parts_of cs ≡ q ∷ qs
    → to_model_messages (push_blocks new assistant_message n cs later)
      ≡ assistant_parts (q ∷ qs) ∷ to_model_messages (later (suc n))
unfolding to_model_messages parts_of
to_model_messages-parts new n [] q qs later e = absurd (cc e)
to_model_messages-parts new n (c ∷ cs) q qs later e = rw e refl

to-from_from :
    (new : Supply) (n : ℕ) (ms : List ModelMessage)
    → all_plain ms ≡ true
    → to_model_messages (from_model_from new n ms) ≡ ms
unfolding all_plain is_plain to_model_messages from_model_from
to-from_from new n [] h = refl
to-from_from new n (tool_message (p ∷ parts) ∷ ms) h =
    to_model_messages-results new n (result_blocks (p ∷ parts)) p parts
      (λ (k : ℕ). from_model_from new k ms) (tool_results-result_blocks (p ∷ parts) (ground arith))
      (texts-result_blocks (p ∷ parts))
    ∙ ap (◌∷◌ (tool_message (p ∷ parts))) (to-from_from new (suc n) ms (ground arith))
to-from_from new n (assistant_parts (p ∷ parts) ∷ ms) h =
    to_model_messages-parts new n (assistant_blocks (p ∷ parts)) p parts
      (λ (k : ℕ). from_model_from new k ms) (parts_of-assistant_blocks (p ∷ parts) (ground arith))
    ∙ ap (◌∷◌ (assistant_parts (p ∷ parts))) (to-from_from new (suc n) ms (ground arith))
to-from_from new n (tool_message [] ∷ ms) h = absurd (cc h)
to-from_from new n (assistant_parts [] ∷ ms) h = absurd (cc h)
to-from_from new n (user_message ts ∷ ms) h = absurd (cc h)
to-from_from new n (assistant_string t ∷ ms) h = absurd (cc h)
to-from_from new n (system_message t ∷ ms) h = absurd (cc h)

-- Messages of the assistant and of tools that return texts, each with parts and with known parts only,
-- are stored and then sent back as they were, whatever ids and times they get.
pub to_model_messages-from_model_messages :
    (new : Supply) (ms : List ModelMessage)
    → all_plain ms ≡ true
    → to_model_messages (from_model_messages new ms) ≡ ms
unfolding from_model_messages
to_model_messages-from_model_messages new ms h = to-from_from new 0 ms h
