-- ===== src/Shortcuts/Match.antt =====
-- The canonical form of a key binding, as lib/shortcuts/match.ts makes it of a text or of a key press.
-- The texts are ASCII: case is that of ASCII letters.
use basemaster.Base.{
  ℕ, Bool, true, false, not, ◌&&◌, ◌||◌, Option, none, some, List, [], ◌∷◌, ◌++◌, map, filter,
  length, leb, ◌==◌, if◌then◌else◌,
}
use basemaster.Base.Text.{Text, codes, same_text, lower, upper, trim, flat_map, join}

abbrev before_first : ℕ → List Text → List Text
before_first c [] = (c ∷ []) ∷ []
before_first c (piece ∷ pieces) = (c ∷ piece) ∷ pieces

-- `s.split("+")`: the pieces, of which the first has the characters before the first plus.
unfoldable pub split_plus : Text → List Text
split_plus [] = [] ∷ []
split_plus (c ∷ s) = let rest = split_plus s in if c == b'+' then [] ∷ rest else before_first c rest

abbrev tokens : List (Text × Text)
tokens =
    (codes "mod", codes "Mod")
    ∷ (codes "ctrl", codes "Ctrl")
    ∷ (codes "control", codes "Ctrl")
    ∷ (codes "alt", codes "Alt")
    ∷ (codes "option", codes "Alt")
    ∷ (codes "shift", codes "Shift")
    ∷ (codes "meta", codes "Meta")
    ∷ (codes "cmd", codes "Meta")
    ∷ (codes "command", codes "Meta")
    ∷ (codes "tab", codes "Tab")
    ∷ (codes "enter", codes "Enter")
    ∷ (codes "escape", codes "Escape")
    ∷ (codes "esc", codes "Escape")
    ∷ (codes "space", codes "Space")
    ∷ (codes "backspace", codes "Backspace")
    ∷ (codes "delete", codes "Delete")
    ∷ (codes "arrowup", codes "ArrowUp")
    ∷ (codes "arrowdown", codes "ArrowDown")
    ∷ (codes "arrowleft", codes "ArrowLeft")
    ∷ (codes "arrowright", codes "ArrowRight")
    ∷ []

abbrev token_of : Text → List (Text × Text) → Option Text
token_of low [] = none
token_of low ((name, token) ∷ rest) = if same_text low name then some token else token_of low rest

abbrev is_digit : ℕ → Bool
is_digit c = leb b'0' c && leb c b'9'

-- `/^f\d{1,2}$/`
abbrev is_function_key : Text → Bool
is_function_key (f ∷ a ∷ []) = f == b'f' && is_digit a
is_function_key (f ∷ a ∷ b ∷ []) = f == b'f' && is_digit a && is_digit b
is_function_key _ = false

abbrev lower_text : Text → Text
lower_text s = flat_map (λ c. lower c ∷ []) s

abbrev upper_text : Text → Text
upper_text s = flat_map (λ c. upper c ∷ []) s

abbrev first_upper : Text → Text
first_upper [] = []
first_upper (c ∷ s) = upper c ∷ s

abbrev token_or : Text → Option Text → Text
token_or s (some token) = token
token_or s none =
    if is_function_key (lower_text s) then upper_text (lower_text s) else first_upper s

unfoldable pub capitalize : Text → Text
unfolding lower upper flat_map same_text
capitalize [] = []
capitalize (c ∷ s) = token_or (c ∷ s) (token_of (lower_text (c ∷ s)) tokens)

-- `ORDER.indexOf(m)`, and one more, so that -1 is 0.
unfoldable pub rank : Text → ℕ
unfolding same_text
rank m =
    if same_text m (codes "Mod")
    then 1
    else if same_text m (codes "Ctrl")
    then 2
    else if same_text m (codes "Alt")
    then 3
    else if same_text m (codes "Shift")
    then 4
    else if same_text m (codes "Meta")
    then 5
    else 0

abbrev insert_mod : Text → List Text → List Text
insert_mod m [] = m ∷ []
insert_mod m (n ∷ ms) =
    let rest = insert_mod m ms in if leb (rank m) (rank n) then m ∷ n ∷ ms else n ∷ rest

-- A stable sort.
abbrev sort_mods : List Text → List Text
sort_mods [] = []
sort_mods (m ∷ ms) = insert_mod m (sort_mods ms)

abbrev last_key : Text → Text
last_key key = if length key == 1 then upper_text key else capitalize key

-- The modifiers of all parts but the last one, which is the key.
abbrev split_last : Text → List Text → List Text × Text
split_last p [] = ([], p)
split_last p (q ∷ parts) = let rest = split_last q parts in (p ∷ rest.0, rest.1)

abbrev canonical : List Text → Text
canonical [] = []
canonical (p ∷ parts) =
    let (mods, key) = split_last p parts in
    join (codes "+") (sort_mods (map capitalize mods) ++ last_key key ∷ [])

abbrev some_text : Text → Bool
some_text [] = false
some_text (c ∷ s) = true

unfoldable pub normalize_binding : Text → Text
unfolding split_plus capitalize rank trim join upper flat_map
normalize_binding s = canonical (filter some_text (map trim (split_plus s)))

-- What a `KeyboardEvent` tells.
pub record KeyPress : Type 0 where
  pub key : Text
  pub ctrl : Bool
  pub meta : Bool
  pub alt : Bool
  pub shift : Bool

abbrev modifier : Bool → Text → List Text
modifier true name = name ∷ []
modifier false name = []

abbrev is_one_of : Text → List Text → Bool
is_one_of key [] = false
is_one_of key (k ∷ ks) = same_text key k || is_one_of key ks

abbrev pressed : Bool → KeyPress → List Text
pressed is_mac e =
    modifier (if is_mac then e.meta else e.ctrl) (codes "Mod")
    ++ modifier (is_mac && e.ctrl && not e.meta) (codes "Ctrl")
    ++ modifier (not is_mac && e.meta) (codes "Meta")
    ++ modifier e.alt (codes "Alt")
    ++ modifier e.shift (codes "Shift")

abbrev key_name : Text → Text
key_name key =
    if same_text key (codes " ")
    then codes "Space"
    else if length key == 1
    then upper_text key
    else key

unfoldable pub event_to_binding : (is_mac : Bool) → KeyPress → Option Text
unfolding normalize_binding same_text upper flat_map join
event_to_binding is_mac e =
    if is_one_of e.key (
      [] ∷ codes "Unidentified" ∷ codes "Control" ∷ codes "Shift" ∷ codes "Alt" ∷ codes "Meta" ∷ [])
    then none
    else some (normalize_binding (join (codes "+") (pressed is_mac e ++ key_name e.key ∷ [])))
