-- ===== src/Agent/History.antt =====
-- `capHistory` of lib/ai/runner.ts: the cut of the conversation that is sent, by the length of its JSON
-- text. The indices of the source are kept, and its two loops.
pub mod Cut
use basemaster.Base.{
  ℕ, suc, ◌+◌, ◌-◌, ◌*◌, ◌/◌, ◌%◌, Bool, true, false, Option, none, some, List, [], ◌∷◌, ◌++◌, map,
  ◌&&◌, ◌||◌, length, drop, any, ltb, leb, ◌==◌, if◌then◌else◌,
}
use basemaster.Base.Text.{Text, codes, join}
use basemaster.Base.Json.{json_string}
use basemaster.Base.Dict.{get_or}
use basemaster.Agent.Store.{
  AiContentBlock, text_block, tool_use, tool_result, Role, user, assistant, AiMessage,
}
use mathlib.Core.List.{reverse}

abbrev json_bool : Bool → Text
json_bool true = codes "true"
json_bool false = codes "false"

-- A property whose value is `undefined` is left out.
abbrev json_input : Option Text → Text
json_input none = []
json_input (some value) = codes ",\"input\":" ++ value

abbrev json_error : Option Bool → Text
json_error none = []
json_error (some value) = codes ",\"is_error\":" ++ json_bool value

unfoldable pub json_block : AiContentBlock → Text
unfolding json_string
json_block (text_block text) = codes "{\"type\":\"text\",\"text\":" ++ json_string text ++ codes "}"
json_block (tool_use id name input) =
    codes "{\"type\":\"tool_use\",\"id\":"
    ++ json_string id
    ++ codes ",\"name\":"
    ++ json_string name
    ++ json_input input
    ++ codes "}"
json_block (tool_result id name content is_error) =
    codes "{\"type\":\"tool_result\",\"tool_use_id\":"
    ++ json_string id
    ++ codes ",\"tool_name\":"
    ++ json_string name
    ++ codes ",\"content\":"
    ++ json_string content
    ++ json_error is_error
    ++ codes "}"

unfoldable pub json_content : List AiContentBlock → Text
unfolding json_block
json_content content = b'[' ∷ join (codes ",") (map json_block content) ++ codes "]"

-- `MAX_HISTORY_CHARS`
abbrev pub max_history_chars : ℕ
max_history_chars = 60000

unfoldable pub size : AiMessage → ℕ
unfolding json_content
size m = length (json_content m.content)

unfoldable pub total : List AiMessage → ℕ
unfolding size
total [] = 0
total (m ∷ ms) = size m + total ms

abbrev is_text : AiContentBlock → Bool
is_text (text_block text) = true
is_text _ = false

abbrev is_user : Role → Bool
is_user user = true
is_user assistant = false

-- A message at which a turn of the user begins.
unfoldable pub is_turn : AiMessage → Bool
is_turn m = is_user m.role && any is_text m.content

-- The indices of these messages, where the first one has index `i`.
unfoldable pub boundaries : ℕ → List AiMessage → List ℕ
unfolding is_turn
boundaries i [] = []
boundaries i (m ∷ ms) = if is_turn m then i ∷ boundaries (suc i) ms else boundaries (suc i) ms

abbrev pub last? {ℓ} : {A : Type ℓ} → List A → Option A
last? [] = none
last? (x ∷ []) = some x
last? (x ∷ y ∷ xs) = last? (y ∷ xs)

-- The loop from the newest boundary to the oldest, with `start` so far.
unfoldable pub walk : List AiMessage → List ℕ → ℕ → ℕ
unfolding total
walk messages [] start = start
walk messages (idx ∷ older) start =
    let rest = walk messages older idx in
    if ltb max_history_chars (total (drop idx messages)) then start else rest

unfoldable pub cap_history : List AiMessage → List AiMessage
unfolding total boundaries walk
cap_history messages =
    let marks = boundaries 0 messages in
    if leb (total messages) max_history_chars
    then messages
    else drop (walk messages (reverse marks) (get_or 0 (last? marks))) messages
