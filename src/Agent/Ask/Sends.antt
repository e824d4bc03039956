-- ===== src/Agent/Ask/Sends.antt =====
-- How a run of lib/ai/runner.ts begins: what it refuses, and what it sends.
use basemaster.Base.{
  ℕ, ◌≡◌, refl, sym, ap, String, Bool, true, false, Option, none, some, List, [], ◌∷◌, ◌++◌, leb,
  if◌then◌else◌,
}
use basemaster.Base.Text.{Text}
use basemaster.Base.Dict.{get_or}
use basemaster.Agent.Store.{ProviderId, AiMessage, AiState, set_error, parse_model_key}
use basemaster.Agent.History.{max_history_chars, total, is_turn, cap_history}
use basemaster.Agent.History.Cut.{longest_fit, last_turn, or_here, cap_history_lem}
use basemaster.Agent.Messages.{user_message as sdk_user, to_model, to_model_messages}
use basemaster.Agent.Ask.{Request, user_message, ask_model, ask_with, ask_begin}
use mathlib.Core.List.{append_assoc}

-- A list that ends with `x`.
abbrev pub EndsWith {ℓ} : {A : Type ℓ} → A → List A → Type ℓ
EndsWith {A = A} x xs = (before : List A) × (xs ≡ before ++ x ∷ [])

EndsWith-cons :
    {x : AiMessage} (y : AiMessage) {xs : List AiMessage} → EndsWith x xs → EndsWith x (y ∷ xs)
EndsWith-cons y (before, e) = (y ∷ before, ap (◌∷◌ y) e)

EndsIn : AiMessage → Option (List AiMessage) → Type 0
EndsIn u none = Unit
EndsIn u (some ms) = EndsWith u ms

EndsIn-if :
    (b : Bool) (u : AiMessage) (o p : Option (List AiMessage))
    → EndsIn u o
    → EndsIn u p
    → EndsIn u (if b then o else p)
EndsIn-if true u o p h k = h
EndsIn-if false u o p h k = k

EndsIn-or_here :
    (b : Bool) (u : AiMessage) (ms : List AiMessage) (o : Option (List AiMessage))
    → EndsWith u ms
    → EndsIn u o
    → EndsIn u (or_here b ms o)
unfolding EndsIn
EndsIn-or_here true u ms none h k = h
EndsIn-or_here false u ms none h k = tt
EndsIn-or_here b u ms (some later) h k = k

EndsIn-longest_fit : (ms : List AiMessage) (u : AiMessage) → EndsIn u (longest_fit (ms ++ u ∷ []))
unfolding longest_fit EndsIn
EndsIn-longest_fit [] u =
    EndsIn-if (is_turn u) u _ _
      (EndsIn-if (leb (total (u ∷ [])) max_history_chars) u _ _ ([], refl) tt) tt
EndsIn-longest_fit (m ∷ ms) u =
    let later = EndsIn-longest_fit ms u in
    EndsIn-if (is_turn m) u _ _
      (EndsIn-if (leb (total (m ∷ ms ++ u ∷ [])) max_history_chars) u _ _ (m ∷ ms, refl) later)
      later

EndsIn-last_turn : (ms : List AiMessage) (u : AiMessage) → EndsIn u (last_turn (ms ++ u ∷ []))
unfolding last_turn EndsIn
EndsIn-last_turn [] u = EndsIn-or_here (is_turn u) u (u ∷ []) none ([], refl) tt
EndsIn-last_turn (m ∷ ms) u =
    EndsIn-or_here (is_turn m) u (m ∷ ms ++ u ∷ []) (last_turn (ms ++ u ∷ [])) (m ∷ ms, refl)
      (EndsIn-last_turn ms u)

EndsWith-get_or :
    (u : AiMessage) (ms : List AiMessage) (o : Option (List AiMessage))
    → EndsWith u ms
    → EndsIn u o
    → EndsWith u (get_or ms o)
unfolding EndsIn
EndsWith-get_or u ms none h k = h
EndsWith-get_or u ms (some later) h k = k

EndsWith-if :
    (b : Bool) {u : AiMessage} {ms ns : List AiMessage}
    → EndsWith u ms
    → EndsWith u ns
    → EndsWith u (if b then ms else ns)
EndsWith-if true h k = h
EndsWith-if false h k = k

-- The cut keeps the last message.
EndsWith-cap_history :
    (ms : List AiMessage) (u : AiMessage) → EndsWith u (cap_history (ms ++ u ∷ []))
EndsWith-cap_history ms u = rw (cap_history_lem (ms ++ u ∷ [])) (
    EndsWith-if (leb (total (ms ++ u ∷ [])) max_history_chars) (ms, refl)
      (EndsWith-get_or u (get_or (ms ++ u ∷ []) (last_turn (ms ++ u ∷ [])))
        (longest_fit (ms ++ u ∷ []))
        (EndsWith-get_or u (ms ++ u ∷ []) (last_turn (ms ++ u ∷ [])) (ms, refl)
          (EndsIn-last_turn ms u))
        (EndsIn-longest_fit ms u)))

to_model_messages-append :
    (ms ns : List AiMessage)
    → to_model_messages (ms ++ ns) ≡ to_model_messages ms ++ to_model_messages ns
unfolding to_model_messages
to_model_messages-append [] ns = refl
to_model_messages-append (m ∷ ms) ns =
    rw (to_model_messages-append ms ns)
      (sym (append_assoc (to_model m) (to_model_messages ms) (to_model_messages ns)))

EndsWith-to_model_messages :
    (text : Text) (id : String) (now : ℕ) (ms : List AiMessage)
    → EndsWith (user_message text id now) ms
    → EndsWith (sdk_user (text ∷ [])) (to_model_messages ms)
unfolding to_model_messages
EndsWith-to_model_messages text id now ms (before, e) = (
  to_model_messages before,
  rw e (to_model_messages-append before (user_message text id now ∷ [])),
)

-- What a run that is not started leaves, and what one that is started has done.
abbrev pub Begins : Text → String → ℕ → AiState → Option Request × AiState → Type 0
Begins text id now s (none, after) = (after.messages ≡ s.messages) × (after.loading ≡ s.loading)
Begins text id now s (some request, after) =
    (s.loading ≡ false)
    × (after.loading ≡ true)
    × (after.error ≡ none)
    × (after.messages ≡ s.messages ++ user_message text id now ∷ [])
    × (s.api_keys request.provider ≡ some request.api_key)
    × EndsWith (sdk_user (text ∷ [])) request.messages

ask_with-Begins :
    (text : Text) (id : String) (now : ℕ) (p : ProviderId) (model : Text) (key : Option Text)
    (s : AiState)
    → s.loading ≡ false
    → s.api_keys p ≡ key
    → Begins text id now s (ask_with text id now (p, model) key s)
unfolding ask_with set_error
ask_with-Begins text id now p model none s h e = (refl, refl)
ask_with-Begins text id now p model (some []) s h e = (refl, refl)
ask_with-Begins text id now p model (some (c ∷ key)) s h e = (
  h,
  refl,
  refl,
  refl,
  e,
  EndsWith-to_model_messages text id now (cap_history (s.messages ++ user_message text id now ∷ []))
      (EndsWith-cap_history s.messages (user_message text id now)),
)

ask_model-Begins :
    (text : Text) (id : String) (now : ℕ) (model : Option (ProviderId × Text)) (s : AiState)
    → s.loading ≡ false
    → Begins text id now s (ask_model text id now model s)
unfolding set_error
ask_model-Begins text id now none s h = (refl, refl)
ask_model-Begins text id now (some (p, model)) s h =
    ask_with-Begins text id now p model (s.api_keys p) s h refl

Begins-unless :
    (text : Text) (id : String) (now : ℕ) (s : AiState) (b : Bool) (y : Option Request × AiState)
    → (b ≡ false → Begins text id now s y)
    → Begins text id now s (if b then (none, s) else y)
Begins-unless text id now s true y h = (refl, refl)
Begins-unless text id now s false y h = h refl

-- A run that is refused leaves the conversation as it was. One that is started was not loading and is
-- loading now, shows no error, has put the user's text behind the conversation, uses the key kept for
-- its provider, and sends messages of which the last one is the user's text, however long the
-- conversation is.
pub ask_begin-Begins :
    (text : Text) (id : String) (now : ℕ) (s : AiState)
    → Begins text id now s (ask_begin text id now s)
unfolding ask_begin
ask_begin-Begins text id now s =
    Begins-unless text id now s s.loading (ask_model text id now (parse_model_key s.model_key) s)
      (ask_model-Begins text id now (parse_model_key s.model_key) s)
