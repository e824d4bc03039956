-- ===== src/Agent/Store/Keys.antt =====
-- The API keys of state/ai-agent.ts: their start from the keyring, and the keys of models.
use basemaster.Base.{
  ℕ, ◌≡◌, refl, sym, ap, ◌∙◌, Bool, true, false, not, ◌&&◌, ◌||◌, inl, inr, Option, none, some,
  List, [], ◌∷◌, arith, any, find, if◌then◌else◌, Bool-cases,
}
use basemaster.Base.Text.{Text, same_text, same_text_sound}
use basemaster.Agent.Store.{
  ProviderId, anthropic, openai, openrouter, gemini, groq, deepseek, mistral, xai, perplexity,
  together, fireworks, cerebras, id_text, ApiKeys, AiState, set_key, Sent, is_set, migrate_key,
  migrate, over_key, spread, providers, hydrate_keys, parse_model_key, split_colon, model_key_of,
}

by_id : Text → Option ProviderId
by_id id = find (λ p. same_text (id_text p) id) providers

by_id-id_text : (p : ProviderId) → by_id (id_text p) ≡ some p
unfolding by_id id_text same_text
by_id-id_text anthropic = refl
by_id-id_text openai = refl
by_id-id_text openrouter = refl
by_id-id_text gemini = refl
by_id-id_text groq = refl
by_id-id_text deepseek = refl
by_id-id_text mistral = refl
by_id-id_text xai = refl
by_id-id_text perplexity = refl
by_id-id_text together = refl
by_id-id_text fireworks = refl
by_id-id_text cerebras = refl

id_text-inj : (p q : ProviderId) → same_text (id_text p) (id_text q) ≡ true → p ≡ q
id_text-inj p q h =
    let e : some p ≡ some q =
      sym (by_id-id_text p)
      ∙ ap by_id (same_text_sound (id_text p) (id_text q) h)
      ∙ by_id-id_text q in
    cc e

-- A key of the store that is there and that the keyring lacks.
unfoldable pub only_here : ApiKeys → ApiKeys → ProviderId → Bool
only_here in_memory stored p = is_set (in_memory p) && not (is_set (stored p))

listed : ProviderId → List ProviderId → Bool
listed p ps = any (λ r. same_text (id_text r) (id_text p)) ps

listed-providers : (p : ProviderId) → listed p providers ≡ true
unfolding listed id_text same_text
listed-providers anthropic = refl
listed-providers openai = refl
listed-providers openrouter = refl
listed-providers gemini = refl
listed-providers groq = refl
listed-providers deepseek = refl
listed-providers mistral = refl
listed-providers xai = refl
listed-providers perplexity = refl
listed-providers together = refl
listed-providers fireworks = refl
listed-providers cerebras = refl

-- What one step of the loop leaves at `q`.
migrate_key-at :
    (in_memory : ApiKeys) (r : ProviderId) (stored : ApiKeys) (sent : Sent) (q : ProviderId)
    → (migrate_key in_memory r (stored, sent)).0 q ≡ (
        if same_text (id_text r) (id_text q) && only_here in_memory stored r
        then in_memory r
        else stored q)
unfolding migrate_key only_here set_key
migrate_key-at in_memory r stored sent q = ground arith

migrate_key_lem :
    (in_memory : ApiKeys) (r : ProviderId) (stored : ApiKeys) (sent : Sent) (p : ProviderId)
    → (migrate_key in_memory r (stored, sent)).0 p ≡ (
        if same_text (id_text r) (id_text p) && only_here in_memory stored p
        then in_memory p
        else stored p)
migrate_key_lem in_memory r stored sent p = elim (Bool-cases (same_text (id_text r) (id_text p))) [
  | inl t ↦ rw (id_text-inj r p t) (migrate_key-at in_memory p stored sent p)
  | inr f ↦ migrate_key-at in_memory r stored sent p ∙ rw f refl
]

-- Whether the step for `p` comes now or later, it changes the key at most once.
step_once :
    (key held now : Option Text) (here later : Bool)
    → now ≡ (if here && (is_set key && not (is_set held)) then key else held)
    → (if later && (is_set key && not (is_set now)) then key else now)
      ≡ (if (here || later) && (is_set key && not (is_set held)) then key else held)
step_once key held now here later e = ground arith

migrate_lem :
    (in_memory : ApiKeys) (ps : List ProviderId) (done : ApiKeys × Sent) (p : ProviderId)
    → (migrate in_memory ps done).0 p
      ≡ (if listed p ps && only_here in_memory (done.0) p then in_memory p else done.0 p)
unfolding migrate listed only_here
migrate_lem in_memory [] done p = refl
migrate_lem in_memory (r ∷ ps) done p =
    migrate_lem in_memory ps (migrate_key in_memory r done) p
    ∙ step_once (in_memory p) (done.0 p) ((migrate_key in_memory r done).0 p)
        (same_text (id_text r) (id_text p)) (listed p ps)
        (migrate_key_lem in_memory r (done.0) (done.1) p)

over-if :
    (b : Bool) (key held : Option Text)
    → over_key (if b then key else held) key ≡ (if b then key else over_key held key)
over-if true none held = refl
over-if true (some key) held = refl
over-if false key held = refl

-- After a start with a keyring that can be read, each provider has the key that the store had and the keyring lacked, or else the one
-- of the keyring, or else the one it had.
pub hydrate_keys_lem :
    (stored : ApiKeys) (s : AiState) (p : ProviderId)
    → (hydrate_keys (some stored) s).0.api_keys p
      ≡ (if only_here s.api_keys stored p then s.api_keys p else over_key (stored p) (s.api_keys p))
unfolding hydrate_keys spread
hydrate_keys_lem stored s p =
    ap (λ o. over_key o (s.api_keys p)) (migrate_lem s.api_keys providers (stored, []) p)
    ∙ rw (listed-providers p) (over-if (only_here s.api_keys stored p) (s.api_keys p) (stored p))

-- The key of a model is read back as its provider and its name, if the name is not empty.
pub parse_model_key-model_key_of :
    (p : ProviderId) (c : ℕ) (model : Text)
    → parse_model_key (model_key_of p (c ∷ model)) ≡ some (p, c ∷ model)
unfolding parse_model_key model_key_of split_colon id_text same_text
parse_model_key-model_key_of anthropic c model = refl
parse_model_key-model_key_of openai c model = refl
parse_model_key-model_key_of openrouter c model = refl
parse_model_key-model_key_of gemini c model = refl
parse_model_key-model_key_of groq c model = refl
parse_model_key-model_key_of deepseek c model = refl
parse_model_key-model_key_of mistral c model = refl
parse_model_key-model_key_of xai c model = refl
parse_model_key-model_key_of perplexity c model = refl
parse_model_key-model_key_of together c model = refl
parse_model_key-model_key_of fireworks c model = refl
parse_model_key-model_key_of cerebras c model = refl
